-- ===== src/Client/Tasks.antt =====
-- Any number of tasks that send batches through one client (`fetch_tx_nonce`, `send_tx` and the
-- tasks of `send_batch_tx_and_retry` in workspaces/src/rpc/client.rs), interleaved in any order. A
-- task waits for the node in the phases that ask or send; meanwhile the others move. The node may
-- answer anything. No nonce reaches 2^64.
pub mod Traces
pub mod Distinct
pub mod Collide
pub mod Alone
use near_workspaces_rs.Prelude.{
  ℕ, ◌+◌, ◌<◌, ◌≡◌, ◌≢◌, Bool, true, false, Option, none, some, [], ◌==◌, nat_eq, pair_eq,
  string_eq, if◌then◌else◌,
}
use near_workspaces_rs.Result.{Result, ok, err, map_err}
use near_workspaces_rs.Primitives.{Bytes, AccessKeyView, FinalExecutionOutcomeView, u64_mod}
use near_workspaces_rs.Primitives.Rpc.{JsonRpcError}
use near_workspaces_rs.Error.{Error, rpc_custom, rpc_error, broadcast_tx_failure}
use near_workspaces_rs.Map
use near_workspaces_rs.Client.Nonces.{CacheKey, cached, reserve, settle, forget}
use near_workspaces_rs.Client.Nonces.Race.{Trace, hand_out}
use near_workspaces_rs.Client.Sending.{refused_nonce}

-- Where a task stands. `stores` has the access key and the block hash that the node told.
pub data Phase : Type 0 where
  looks : Phase
  asks_key : Phase
  stores : AccessKeyView → Bytes → Phase
  asks_block : ℕ → Phase
  sends : Bytes → ℕ → Phase
  drops : ℕ → Result FinalExecutionOutcomeView JsonRpcError → Phase
  ended : Result FinalExecutionOutcomeView Error → Phase

-- `result.map_err(|e| RpcErrorCode::BroadcastTxFailure.custom(e))`
abbrev pub broadcast_result :
    Result FinalExecutionOutcomeView JsonRpcError → Result FinalExecutionOutcomeView Error
broadcast_result result = map_err (λ e. rpc_custom broadcast_tx_failure (rpc_error e)) result

-- A move of one task, whose key is `k`: between two waits. It needs `refuses` if the node refuses
-- the task's nonce.
pub data Move (refuses : Bool) (k : CacheKey) : Trace → Phase → Trace → Phase → Type 0 where
  hit :
      (t : Trace) (n : ℕ)
      → cached k t.nonces ≡ some n
      → n + 1 < u64_mod
      → Move refuses k t looks
          (hand_out t k (reserve k n t.nonces))
          (asks_block (reserve k n t.nonces).0)
  miss : (t : Trace) → cached k t.nonces ≡ none → Move refuses k t looks t asks_key
  told :
      (t : Trace) (key : AccessKeyView) (hash : Bytes)
      → Move refuses k t asks_key t (stores key hash)
  not_told : (t : Trace) (e : Error) → Move refuses k t asks_key t (ended (err e))
  store :
      (t : Trace) (key : AccessKeyView) (hash : Bytes)
      → key.nonce + 1 < u64_mod
      → Move refuses k t
          (stores key hash)
          (hand_out t k (settle k key.nonce t.nonces))
          (sends hash (settle k key.nonce t.nonces).0)
  block : (t : Trace) (n : ℕ) (hash : Bytes) → Move refuses k t (asks_block n) t (sends hash n)
  no_block : (t : Trace) (n : ℕ) (e : Error) → Move refuses k t (asks_block n) t (ended (err e))
  accepted :
      (t : Trace) (hash : Bytes) (n : ℕ) (r : Result FinalExecutionOutcomeView JsonRpcError)
      → refused_nonce r ≡ false
      → Move refuses k t (sends hash n) t (ended (broadcast_result r))
  refused :
      (t : Trace) (hash : Bytes) (n : ℕ) (r : Result FinalExecutionOutcomeView JsonRpcError)
      → refused_nonce r ≡ true
      → refuses ≡ true
      → Move refuses k t (sends hash n) t (drops n r)
  drop :
      (t : Trace) (n : ℕ) (r : Result FinalExecutionOutcomeView JsonRpcError)
      → refuses ≡ true
      → Move refuses k t
          (drops n r)
          (record { nonces = forget k t.nonces; issued = Map.remove k t.issued })
          (ended (broadcast_result r))
  again : (t : Trace) (e : Error) → Move refuses k t (ended (err e)) t looks

-- Between the look that misses and the store.
abbrev pub misses : Phase → Bool
misses asks_key = true
misses (stores key hash) = true
misses p = false

-- The nonce of a transaction that is being made or sent.
abbrev pub nonce_of : Phase → Option ℕ
nonce_of (asks_block n) = some n
nonce_of (sends hash n) = some n
nonce_of (drops n r) = some n
nonce_of p = none

abbrev pub update : (ℕ → Phase) → ℕ → Phase → ℕ → Phase
update phase i p j = if i == j then p else phase j

pub record System : Type 0 where
  pub trace : Trace
  pub phase : ℕ → Phase

abbrev pub init : System
init = record { trace = record { nonces = []; issued = [] }; phase = λ _. looks }

-- `keys` says for each task which key it signs with: no other task misses the key of task `i`.
abbrev pub Undisturbed : (ℕ → CacheKey) → ℕ → (ℕ → Phase) → Type 0
Undisturbed keys i phase = (j : ℕ) → i ≢ j → keys j ≡ keys i → misses (phase j) ≡ false

-- Without `races` no task may miss its key while another one misses the same key.
module _ (races refuses : Bool) (keys : ℕ → CacheKey) where
  pub data Step (s : System) : System → Type 0 where
    pick :
        (i : ℕ) {t : Trace} {p : Phase}
        → Move refuses (keys i) s.trace (s.phase i) t p
        → (races ≡ false → misses p ≡ true → Undisturbed keys i s.phase)
        → Step s (record { trace = t; phase = update s.phase i p })

  pub data Reach : System → Type 0 where
    start : Reach init
    later : {s u : System} → Reach s → Step s u → Reach u

  -- The systems that further steps lead to.
  pub data Leads (s : System) : System → Type 0 where
    stays : Leads s s
    goes : {v u : System} → Leads s v → Step v u → Leads s u

  pub reach-leads : {s u : System} → Reach s → Leads s u → Reach u
  reach-leads r stays = r
  reach-leads r (goes l step) = later (reach-leads r l) step
