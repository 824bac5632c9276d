-- ===== src/Examples/Tasks.antt =====
-- Tasks that send batches with one key at the same time.
use near_workspaces_rs.Prelude.{
  ℕ, ◌+◌, ◌<◌, ◌≤◌, ◌≡◌, ◌≢◌, refl, some, true, false, [], ◌∷◌, arith, ltb, if◌then◌else◌, pair_eq,
  string_eq, nat_eq,
}
use near_workspaces_rs.Map
use near_workspaces_rs.Client.Nonces.{CacheKey, cached, settle, reserve}
use near_workspaces_rs.Client.Nonces.Race
use near_workspaces_rs.Client.Nonces.Race.{Trace, hand_out}
use near_workspaces_rs.Client.Tasks.{
  Phase, looks, asks_key, stores, asks_block, sends, hit, miss, told, store, update, misses, System,
  pick, init, Reach, start, later, Leads,
}
use near_workspaces_rs.Client.Tasks.Traces.{Reach-Trace}
use near_workspaces_rs.Client.Tasks.Distinct.{nonces_differ}
use near_workspaces_rs.Client.Tasks.Collide.{nonces_collide}
use near_workspaces_rs.Client.Recovers.{Serves, HasRoom, send_batch_recovers}
use near_workspaces_rs.Client.{Client, signed, send_batch_tx_and_retry}
use near_workspaces_rs.Result.{ok, err}
use near_workspaces_rs.Primitives.{FinalExecutionOutcomeView, SignedTransaction}
use near_workspaces_rs.Primitives.Rpc.{
  Request, Call, QueryResponseKind, server_error, handler_error, invalid_transaction, invalid_nonce,
}
use near_workspaces_rs.Examples.{key_view, call, executed, public_key, signer, lib}

abbrev keys : ℕ → CacheKey
keys i = ("alice.test", "pk")

abbrev key : CacheKey
key = ("alice.test", "pk")

abbrev asked : System
asked = record { trace = init.trace; phase = update (λ i. looks) 0 asks_key }

abbrev answered : System
answered = record { trace = asked.trace; phase = update asked.phase 0 (stores key_view (9 ∷ [])) }

-- The first task sends with the nonce 42.
abbrev stored : System
stored = record {
  trace = hand_out answered.trace key (settle key 41 answered.trace.nonces);
  phase = update answered.phase 0 (sends (9 ∷ []) 42);
}

-- The second one has the nonce 43.
abbrev hit_after : System
hit_after = record {
  trace = hand_out stored.trace key (reserve key 42 stored.trace.nonces);
  phase = update stored.phase 1 (asks_block 43);
}

-- Only the first task ever misses the key.
others : (p : Phase) (j : ℕ) → 0 ≢ j → misses (update (λ i. looks) 0 p j) ≡ false
others p j ne = ground arith

hit_reached : Reach false false keys hit_after
unfolding settle reserve Map.get Map.insert
hit_reached =
    later
      (later
        (later (later start (pick 0 (miss init.trace refl) (λ r m j ne e. refl)))
          (pick 0 (told asked.trace key_view (9 ∷ [])) (λ r m j ne e. others asks_key j ne)))
        (pick 0 (store answered.trace key_view (9 ∷ []) (omega arith)) (λ r m. absurd (cc))))
      (pick 1 (hit stored.trace 42 refl (omega arith)) (λ r m. absurd (cc)))

Reach-Trace_example : Race.Reach false hit_after.trace
Reach-Trace_example = Reach-Trace keys hit_reached

nonces_differ_example : ◌≢◌ {A = ℕ} 42 43
nonces_differ_example =
    nonces_differ keys hit_after 0 1 42 43 hit_reached (omega arith) refl refl refl

nonces_collide_example :
    (u : System) × Leads true true keys init u
    × (u.phase 0 ≡ sends (9 ∷ []) 42)
    × (u.phase 1 ≡ sends (9 ∷ []) 42)
unfolding Map.get
nonces_collide_example =
    nonces_collide keys init 0 1 key_view (9 ∷ []) (omega arith) refl refl refl refl (omega arith)

-- A node whose state is the nonce of the signer's access key.
abbrev ledger : Call ℕ
ledger (Request.broadcast_tx_commit tx) n =
    if ltb n tx.nonce
    then (ok executed, tx.nonce)
    else (err (server_error (handler_error (invalid_transaction (invalid_nonce tx.nonce n)))), n)
ledger (Request.query r q) n = (
  ok (record {
    kind = QueryResponseKind.access_key (record key_view { nonce = n });
    block_hash = [];
  }),
  n,
)
ledger r n = ((call r 1).0, n)

executed_if_newer :
    (tx : SignedTransaction) (w : ℕ)
    → w < tx.nonce
    → ledger (Request.broadcast_tx_commit tx) w ≡ (ok executed, tx.nonce)
executed_if_newer tx w new = ground arith

refused_if_older :
    (tx : SignedTransaction) (w : ℕ)
    → tx.nonce ≤ w
    → ledger (Request.broadcast_tx_commit tx) w
      ≡ (err (server_error (handler_error (invalid_transaction (invalid_nonce tx.nonce w)))), w)
refused_if_older tx w old = ground arith

abbrev serves : Serves ledger public_key signer "bob.test" []
serves = record {
  nonce_at = λ n. n;
  limit = 1000;
  tells = λ n. (key_view.permission, [], n, refl, refl);
  dates = λ n. (_, n, refl, refl);
  executes = λ hash n w new low.
      (executed, n, executed_if_newer (signed signer "bob.test" [] (hash, n)) w new);
  refuses = λ hash n w old.
      (n, w, w, refused_if_older (signed signer "bob.test" [] (hash, n)) w old, refl);
}

-- The cache is behind: it holds 3, and the access key's nonce is 41.
abbrev behind : Client ℕ
behind = record { access_key_nonces = (key, 3) ∷ []; node = 41 }

cached_behind : (v : ℕ) → cached key behind.access_key_nonces ≡ some v → v + 1 ≤ 1000
unfolding Map.get
cached_behind v e = ground arith

abbrev room : HasRoom lib ledger serves behind
room = record { told = omega arith; word = omega arith; in_cache = cached_behind }

send_batch_recovers_example :
    (outcome : FinalExecutionOutcomeView) × ((send_batch_tx_and_retry lib ledger public_key signer
        "bob.test" [] behind).0
      ≡ ok outcome)
send_batch_recovers_example = send_batch_recovers lib ledger serves behind room
