-- ===== src/Examples/Sent.antt =====
-- Sending transactions on the sample nodes.
use near_workspaces_rs.Prelude.{
  ℕ, ◌+◌, ◌%◌, ◌≤◌, ◌≡◌, refl, true, false, none, some, List, map, String, [], ◌∷◌, inr, arith,
  ◌&&◌, ◌==◌, pair_eq, string_eq, if◌then◌else◌, nat_eq,
}
use near_workspaces_rs.Result.{Result, ok, err, Exec}
use near_workspaces_rs.Primitives.{Action, SignedTransaction, AccountId, SecretKey, u64_mod}
use near_workspaces_rs.Primitives.Rpc.{Request}
use near_workspaces_rs.Error.{Error, BoxedError, custom_repr, other, text}
use near_workspaces_rs.Client.Retry.{retry, state_after, retry_outcome}
use near_workspaces_rs.Client.Nonces.{CacheKey, cached, reserve, settle}
use near_workspaces_rs.Client.Nonces.Race.{
  Trace, hit, first, late, Reach, start, next, IsOrdered, Consecutive, Rising, Reach-Consecutive,
  Reach-Rising,
}
use near_workspaces_rs.Client.Requests.{send_batch_requests, send_batch_broadcasts}
use near_workspaces_rs.Client.Keeps.{broadcasts}
use near_workspaces_rs.Client.Sending.{refused_nonce, send_tx_cache}
use near_workspaces_rs.Client.{Client, query, send_tx, send_batch_tx_and_retry}
use near_workspaces_rs.Map
use near_workspaces_rs.Meter.{Meters, Cell, cell_at, meter_hook, now, elapsed}
use near_workspaces_rs.Operations.Batch
use near_workspaces_rs.Operations.Batch.{Transaction}
use near_workspaces_rs.Operations.Transact.{
  CallTransaction, transact, transact_async, call_transact, call_transact_async,
}
use near_workspaces_rs.Operations.Transact.Hooks.{call_transact-transact}
use near_workspaces_rs.Operations.Env.{Env}
use near_workspaces_rs.Operations.Transact.Metered.{Reporting, gas_of_all, send_all, now-elapsed}
use near_workspaces_rs.Examples.{
  counting, lib, call, refusing, caching, env, idle, signer, public_key,
}

abbrev key : CacheKey
key = ("alice.test", "pk")

-- A task that fails until it has run twice.
abbrev third_time : Exec ℕ ℕ ℕ
third_time n = (if n == 2 then ok n else err n, n + 1)

retry_outcome_example : retry lib third_time 0 ≡ third_time (state_after 2 third_time 0)
retry_outcome_example = retry_outcome lib third_time 2 0 (omega arith) (refl, (refl, tt)) (inr refl)

abbrev one_nonce : Trace
one_nonce = record { nonces = (settle key 41 []).1; issued = (key, (settle key 41 []).0) ∷ [] }

one_reached : Reach false one_nonce
unfolding Map.get
one_reached = next start (first (record { nonces = []; issued = [] }) key 41 refl (omega arith))

abbrev two_nonces : Trace
two_nonces = record {
  nonces = (reserve key 42 one_nonce.nonces).1;
  issued = (key, (reserve key 42 one_nonce.nonces).0) ∷ one_nonce.issued;
}

two_reached : Reach false two_nonces
unfolding settle Map.get Map.insert Map.remove
two_reached = next one_reached (hit one_nonce key 42 refl (omega arith))

Reach-Consecutive_example : IsOrdered Consecutive key two_nonces
Reach-Consecutive_example = Reach-Consecutive key two_reached

abbrev raced : Trace
raced = record {
  nonces = (settle key 41 one_nonce.nonces).1;
  issued = (key, (settle key 41 one_nonce.nonces).0) ∷ one_nonce.issued;
}

raced_reached : Reach true raced
unfolding settle Map.get Map.insert Map.remove
raced_reached =
    next (next start (first (record { nonces = []; issued = [] }) key 41 refl (omega arith)))
      (late one_nonce key 41 42 refl refl (omega arith))

Reach-Rising_example : IsOrdered Rising key raced
Reach-Rising_example = Reach-Rising key raced_reached

abbrev tx : SignedTransaction
tx = record {
  nonce = 42;
  signer_id = "alice.test";
  receiver_id = "bob.test";
  signed_by = "sk";
  actions = [];
  block_hash = 5 ∷ [];
}

send_tx_cache_example : cached key (send_tx lib refusing key tx caching).1.access_key_nonces ≡ (
    if refused_nonce (query lib refusing (Request.broadcast_tx_commit tx) caching).0 && key == key
    then none
    else cached key caching.access_key_nonces)
send_tx_cache_example = send_tx_cache lib refusing key key tx caching

kept_above : (r : Request) (n : ℕ) → 5 ≤ n → 5 ≤ (counting r n).1
kept_above (Request.broadcast_tx_commit t) n h = omega arith
kept_above r n h = h

abbrev counted : Client ℕ
counted = record { access_key_nonces = []; node = 5 }

send_batch_requests_example :
    5
    ≤ (send_batch_tx_and_retry lib counting public_key signer "bob.test"
        (Action.create_account ∷ [])
        counted).1.node
send_batch_requests_example =
    send_batch_requests lib counting public_key signer "bob.test" (Action.create_account ∷ [])
      (λ n. 5 ≤ n) (λ r belongs n h. kept_above r n h) counted (omega arith)

counted_once : (r : Request) (n : ℕ) → (counting r n).1 ≤ n + broadcasts r
counted_once (Request.broadcast_tx_commit t) n = omega arith
counted_once r n = omega arith

send_batch_broadcasts_example :
    (send_batch_tx_and_retry lib counting public_key signer "bob.test"
      (Action.create_account ∷ [])
      counted).1.node
    ≤ 5 + 25
send_batch_broadcasts_example =
    send_batch_broadcasts lib counting public_key signer "bob.test" (Action.create_account ∷ [])
      (λ n. n) counted_once counted

abbrev bad_args : Error
bad_args = record { repr = custom_repr other (text "no JSON") }

abbrev refused_batch : Transaction
refused_batch = record { signer = signer; receiver_id = "bob.test"; actions = err bad_args }

abbrev batch : Transaction
batch = record {
  signer = signer;
  receiver_id = "bob.test";
  actions = ok (Action.create_account ∷ []);
}

abbrev after_batch : Client ℕ
after_batch = record { access_key_nonces = (key, 42) ∷ []; node = 1 }

abbrev single : CallTransaction
single = record {
  signer = signer;
  contract_id = "bob.test";
  function = record { name = "greet"; args = ok (1 ∷ []); deposit = 0; gas = 10 };
}

call_transact-transact_example :
    (call_transact lib call public_key idle single env
      ≡ transact lib call public_key idle
          (Batch.call (Batch.new signer "bob.test") single.function)
          env)
    × (call_transact_async lib call public_key single env
        ≡ transact_async lib call public_key
            (Batch.call (Batch.new signer "bob.test") single.function)
            env)
call_transact-transact_example = call_transact-transact lib call public_key idle single env

-- A dropped meter, and one that has counted 5.
abbrev two_meters : Meters
two_meters = none ∷ some (record { gas = 5; poisoned = false }) ∷ []

abbrev metered_env : Env ℕ
metered_env = record env { meters = two_meters }

-- A batch, a batch that holds an error, and a single call.
abbrev sendings : List Reporting
sendings = Reporting.batch batch ∷ Reporting.batch refused_batch ∷ Reporting.single single ∷ []

abbrev dev_seed : String → SecretKey
dev_seed s = "sk"

abbrev any_id : String → Result AccountId BoxedError
any_id s = ok s

now-elapsed_example :
    let taken = now (map meter_hook (0 ∷ 1 ∷ [])) two_meters in
    let done =
      send_all lib call public_key dev_seed any_id
        (record { tx_callbacks = taken.1 })
        sendings
        (record metered_env { meters = taken.2 }) in
    (c : Cell) × (cell_at taken.0 done.1.meters ≡ some c)
    × (elapsed c ≡ ok (gas_of_all done.0 % u64_mod))
now-elapsed_example =
    now-elapsed lib call public_key dev_seed any_id (0 ∷ 1 ∷ []) sendings metered_env
      (refl, omega arith, tt) (omega arith, (omega arith, tt))
