-- ===== src/Client/Tasks/Alone.antt =====
-- A task that no other task interrupts does what `send_once` of Client.antt does
-- (workspaces/src/rpc/client.rs).
use near_workspaces_rs.Prelude.{
  ℕ, ◌+◌, ◌<◌, ◌≡◌, refl, sym, ap, ◌∙◌, inl, inr, true, none, some, List, Option-cases, Bool-cases,
  arith, pair_eq, string_eq, if◌then◌else◌,
}
use near_workspaces_rs.Result.{Result, ok, err, continue, ◌>>=◌}
use near_workspaces_rs.Primitives.{
  AccountId, PublicKey, SecretKey, Bytes, u64_mod, Action, AccessKeyView, SignedTransaction,
  FinalExecutionOutcomeView,
}
use near_workspaces_rs.Primitives.Rpc.{Request, Call, JsonRpcError}
use near_workspaces_rs.Error.{Error}
use near_workspaces_rs.Types.{InMemorySigner}
use near_workspaces_rs.Client.Retry.{RetryLib}
use near_workspaces_rs.Client.Nonces.{CacheKey, NonceMap, cached, reserve, settle, forget}
use near_workspaces_rs.Client.Nonces.Race.{Trace, hand_out}
use near_workspaces_rs.Client.{
  Client, query, access_key, fetch_from, reserve_nonce, store_nonce, fetch_tx_nonce, send_tx,
  send_once, drop_if_invalid, key_of, signed,
}
use near_workspaces_rs.Client.Sending.{
  refused_nonce, query-nonces, access_key-nonces, reserve_nonce-nonces, reserve_nonce_value,
}
use near_workspaces_rs.Client.Refines.{HasRoom, Shows}
use near_workspaces_rs.Client.Tasks.{
  Phase, looks, asks_block, sends, ended, broadcast_result, Move, hit, miss, told, not_told, store,
  block, no_block, accepted, refused, drop,
}
use near_workspaces_rs.Map

-- Any number of moves of one task, while the others stand still.
pub data Moves (k : CacheKey) (t : Trace) (p : Phase) : Trace → Phase → Type 0 where
  here : Moves k t p t p
  more : {u v : Trace} {q r : Phase} → Moves k t p u q → Move true k u q v r → Moves k t p v r

drop_refused :
    {A : Type 0} (r : Result A JsonRpcError) (k : CacheKey) (m : NonceMap)
    → drop_if_invalid r k m ≡ (if refused_nonce r then forget k m else m)
drop_refused r k m = ground arith

-- Where a fetch leaves a task.
abbrev fetched : Result (Bytes × ℕ) Error → Phase
fetched (ok (hash, n)) = sends hash n
fetched (err e) = ended (err e)

with_nonce :
    (k : CacheKey) (t u : Trace) (hash : Bytes) (n m : ℕ)
    → n ≡ m
    → Moves k t looks u (sends hash n)
    → Moves k t looks u (sends hash m)
with_nonce k t u hash n m e ms = rw (← e) ms

module _ (lib : RetryLib) {W : Type 0} (call : Call W) where
  abbrev Arrives : CacheKey → Trace → Phase → Phase → Client W → Type 0
  Arrives k t p q c = (u : Trace) × (Moves k t p u q × Shows u c)

  has_block :
      (k : CacheKey) (t u : Trace) (n : ℕ) (r : Result (Bytes × ℕ) Error)
      → Moves k t looks u (asks_block n)
      → ((h : Bytes) (m : ℕ) → r ≡ ok (h, m) → m ≡ n)
      → Moves k t looks u (fetched r)
  has_block k t u n (err e) ms value = more ms (no_block u n e)
  has_block k t u n (ok (h, m)) ms value = rw (value h m refl) (more ms (block u n h))

  hit-Moves :
      (k : CacheKey) (t : Trace) (c : Client W) (v : ℕ)
      → Shows t c
      → cached k c.access_key_nonces ≡ some v
      → v + 1 < u64_mod
      → Arrives k t looks
          (fetched (reserve_nonce lib call k v c).0)
          (reserve_nonce lib call k v c).1
  hit-Moves k t c v same e room = (
    hand_out t k (reserve k v t.nonces),
    (
      has_block k t _ (reserve k v t.nonces).0 (reserve_nonce lib call k v c).0
          (more here (hit t v (ap (cached k) same ∙ e) room))
          (λ h n got.
            reserve_nonce_value lib call k v n h c got ∙ ap (λ m. (reserve k v m).0) (sym same)),
      ap (λ m. (reserve k v m).1) same ∙ sym (reserve_nonce-nonces lib call k v c),
    ),
  )

  store-Moves :
      (k : CacheKey) (t : Trace) (c d : Client W) (r : Result (AccessKeyView × Bytes) Error)
      → Shows t c
      → cached k c.access_key_nonces ≡ none
      → d.access_key_nonces ≡ c.access_key_nonces
      → ((key : AccessKeyView) (hash : Bytes) → r ≡ ok (key, hash) → key.nonce + 1 < u64_mod)
      → Arrives k t looks
          (fetched (continue r d (store_nonce lib call k)).0)
          (continue r d (store_nonce lib call k)).1
  unfolding store_nonce
  store-Moves k t c d (err e) same missing kept room = (
    t,
    (more (more here (miss t (ap (cached k) same ∙ missing))) (not_told t e), same ∙ sym kept),
  )
  store-Moves k t c d (ok (key, hash)) same missing kept room = (
    hand_out t k (settle k key.nonce t.nonces),
    (
      with_nonce k t _ hash _ _ (ap (λ m. (settle k key.nonce m).0) (same ∙ sym kept)) (
          more (more (more here (miss t (ap (cached k) same ∙ missing))) (told t key hash))
            (store t key hash (room key hash refl))),
      ap (λ m. (settle k key.nonce m).1) (same ∙ sym kept),
    ),
  )

  fetch-Moves :
      (k : CacheKey) (t : Trace) (c : Client W)
      → Shows t c
      → HasRoom lib call k c
      → Arrives k t looks (fetched (fetch_tx_nonce lib call k c).0) (fetch_tx_nonce lib call k c).1
  unfolding fetch_tx_nonce fetch_from ◌>>=◌
  fetch-Moves k t c same room = elim (Option-cases (cached k c.access_key_nonces)) [
    | inl missing ↦
        rw (missing, fetch_from)
          (store-Moves k t c (access_key lib call k.0 k.1 c).1 (access_key lib call k.0 k.1 c).0
            same missing (access_key-nonces lib call k c)
            (λ key hash told.
              room.told key hash (access_key lib call k.0 k.1 c).1
                (ap (λ r. (r, (access_key lib call k.0 k.1 c).1)) told)))
    | inr (v, found) ↦ rw (found, fetch_from) (hit-Moves k t c v same found (room.in_cache v found))
  ]

  answer-Moves :
      (k : CacheKey) (t u : Trace) (hash : Bytes) (n : ℕ) (m : NonceMap)
      (r : Result FinalExecutionOutcomeView JsonRpcError)
      → Moves k t looks u (sends hash n)
      → u.nonces ≡ m
      → (v : Trace) × (Moves k t looks v (ended (broadcast_result r))
          × (v.nonces ≡ drop_if_invalid r k m))
  answer-Moves k t u hash n m r ms same = elim (Bool-cases (refused_nonce r)) [
    | inl no_more ↦ (
      record { nonces = forget k u.nonces; issued = Map.remove k u.issued },
      (
        more (more ms (refused u hash n r no_more refl)) (drop u n r refl),
        rw (drop_refused r k m, no_more) (ap (forget k) same),
      ),
    )
    | inr fine ↦ (u, (more ms (accepted u hash n r fine), rw (drop_refused r k m, fine) same))
  ]

  send-Moves :
      (k : CacheKey) (t u : Trace) (hash : Bytes) (n : ℕ) (tx : SignedTransaction) (c : Client W)
      → Moves k t looks u (sends hash n)
      → Shows u c
      → Arrives k t looks (ended (send_tx lib call k tx c).0) (send_tx lib call k tx c).1
  unfolding send_tx
  send-Moves k t u hash n tx c ms same =
      answer-Moves k t u hash n _ (query lib call (Request.broadcast_tx_commit tx) c).0 ms
        (same ∙ sym (query-nonces lib call (Request.broadcast_tx_commit tx) c))

  module _ (public_key : SecretKey → PublicKey) (signer : InMemorySigner) (receiver_id : AccountId)
      (actions : List Action) where
    -- One round of sending a batch is a run of a task that nothing interrupts, from its look into the
    -- cache to the result and the cache of that round, if the nonces that it meets leave room for one
    -- more.
    pub send_once-Moves :
        (t : Trace) (c : Client W)
        → Shows t c
        → HasRoom lib call (key_of public_key signer) c
        → (u : Trace) × (Moves
              (key_of public_key signer)
              t
              looks
              u
              (ended (send_once lib call public_key signer receiver_id actions c).0)
            × Shows u (send_once lib call public_key signer receiver_id actions c).1)
    unfolding send_once ◌>>=◌
    send_once-Moves t c same room =
        let (u, done) = fetch-Moves (key_of public_key signer) t c same room in
        from (fetch_tx_nonce lib call (key_of public_key signer) c).0 u done.0 done.1
      where
        from :
            (r : Result (Bytes × ℕ) Error) (u : Trace)
            → Moves (key_of public_key signer) t looks u (fetched r)
            → Shows u (fetch_tx_nonce lib call (key_of public_key signer) c).1
            → Arrives
                (key_of public_key signer)
                t
                looks
                (ended
                  (continue r (fetch_tx_nonce lib call (key_of public_key signer) c).1 (λ fetched.
                    send_tx lib call
                      (key_of public_key signer)
                      (signed signer receiver_id actions fetched))).0)
                (continue r (fetch_tx_nonce lib call (key_of public_key signer) c).1 (λ fetched.
                  send_tx lib call
                    (key_of public_key signer)
                    (signed signer receiver_id actions fetched))).1
        from (err e) u ms same = (u, (ms, same))
        from (ok (hash, n)) u ms same =
            send-Moves (key_of public_key signer) t u hash n
              (signed signer receiver_id actions (hash, n)) _ ms same
