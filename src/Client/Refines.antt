-- ===== src/Client/Refines.antt =====
-- The client's operations on the cache of nonces as steps of interleaved tasks
-- (workspaces/src/rpc/client.rs).
use near_workspaces_rs.Prelude.{
  ℕ, ◌+◌, ◌<◌, ◌≡◌, refl, sym, ap, ◌∙◌, ◌⊎◌, inl, inr, false, none, some, List, ◌∷◌, Option-cases,
  pair_eq, string_eq,
}
use near_workspaces_rs.Result.{Result, ok, err, continue, ◌>>=◌}
use near_workspaces_rs.Primitives.{
  AccountId, PublicKey, SecretKey, Bytes, u64_mod, Action, AccessKeyView, SignedTransaction,
}
use near_workspaces_rs.Primitives.Rpc.{
  Request, Call, JsonRpcError, server_error, handler_error, invalid_transaction, invalid_nonce,
}
use near_workspaces_rs.Error.{Error}
use near_workspaces_rs.Types.{InMemorySigner}
use near_workspaces_rs.Client.Retry.{RetryLib}
use near_workspaces_rs.Client.Nonces.{CacheKey, NonceMap, cached, reserve, settle, forget}
use near_workspaces_rs.Client.Nonces.Race.{Trace, Step, hit, first, drop, Reach, next}
use near_workspaces_rs.Client.{
  Client, query, access_key, fetch_from, reserve_nonce, store_nonce, fetch_tx_nonce, send_tx,
  send_once, drop_if_invalid, key_of, signed,
}
use near_workspaces_rs.Client.Sending.{
  query-nonces, access_key-nonces, reserve_nonce-nonces, reserve_nonce_value,
}
use near_workspaces_rs.Map

-- At most one step, taken by a task that is alone.
abbrev pub AtMostOne : Trace → Trace → Type 0
AtMostOne t u = Step false t u ⊎ (u ≡ t)

-- The nonce that was fetched, if one was, is the newest of those that were handed out.
abbrev pub HandedOut : CacheKey → Result (Bytes × ℕ) Error → Trace → Trace → Type 0
HandedOut k (ok (h, n)) t u = u.issued ≡ (k, n) ∷ t.issued
HandedOut k (err e) t u = Unit {0}

-- The nonces that a fetch for this key may meet leave room for one more.
pub record HasRoom {W : Type 0} (lib : RetryLib) (call : Call W) (k : CacheKey) (c : Client W)
    : Type 0 where
  pub in_cache : (n : ℕ) → cached k c.access_key_nonces ≡ some n → n + 1 < u64_mod
  pub told :
      (key : AccessKeyView) (hash : Bytes) (d : Client W)
      → access_key lib call k.0 k.1 c ≡ (ok (key, hash), d)
      → key.nonce + 1 < u64_mod

-- A trace whose cache is the client's.
abbrev pub Shows : {W : Type 0} → Trace → Client W → Type 0
Shows t c = t.nonces ≡ c.access_key_nonces

module _ (lib : RetryLib) {W : Type 0} (call : Call W) where
  abbrev FetchStep : CacheKey → Trace → Result (Bytes × ℕ) Error × Client W → Type 0
  FetchStep k t r = (u : Trace) × (AtMostOne t u × Shows u r.1 × HandedOut k r.0 t u)

  handed :
      (k : CacheKey) (m : ℕ) (t u : Trace) (r : Result (Bytes × ℕ) Error)
      → u.issued ≡ (k, m) ∷ t.issued
      → ((h : Bytes) (n : ℕ) → r ≡ ok (h, n) → n ≡ m)
      → HandedOut k r t u
  handed k m t u (ok (h, n)) issued value =
      issued ∙ ap (λ (x : ℕ). (k, x) ∷ t.issued) (sym (value h n refl))
  handed k m t u (err e) issued value = tt

  hit_step :
      (k : CacheKey) (t : Trace) (c : Client W) (v : ℕ)
      → Shows t c
      → cached k c.access_key_nonces ≡ some v
      → v + 1 < u64_mod
      → FetchStep k t (reserve_nonce lib call k v c)
  hit_step k t c v same e room = (
    record { nonces = (reserve k v t.nonces).1; issued = (k, (reserve k v t.nonces).0) ∷ t.issued },
    (
      inl (hit t k v (ap (cached k) same ∙ e) room),
      ap (λ m. (reserve k v m).1) same ∙ sym (reserve_nonce-nonces lib call k v c),
      handed k (reserve k v t.nonces).0 t _ (reserve_nonce lib call k v c).0 refl (λ h n got.
          reserve_nonce_value lib call k v n h c got ∙ ap (λ m. (reserve k v m).0) (sym same)),
    ),
  )

  store_step :
      (k : CacheKey) (t : Trace) (c d : Client W) (r : Result (AccessKeyView × Bytes) Error)
      → Shows t c
      → cached k c.access_key_nonces ≡ none
      → d.access_key_nonces ≡ c.access_key_nonces
      → ((key : AccessKeyView) (hash : Bytes) → r ≡ ok (key, hash) → key.nonce + 1 < u64_mod)
      → FetchStep k t (continue r d (store_nonce lib call k))
  unfolding store_nonce
  store_step k t c d (err e) same missing kept room = (t, (inr refl, same ∙ sym kept, tt))
  store_step k t c d (ok (key, hash)) same missing kept room = (
    record {
      nonces = (settle k key.nonce t.nonces).1;
      issued = (k, (settle k key.nonce t.nonces).0) ∷ t.issued;
    },
    (
      inl (first t k key.nonce (ap (cached k) same ∙ missing) (room key hash refl)),
      ap (λ m. (settle k key.nonce m).1) (same ∙ sym kept),
      ap (λ m. (k, (settle k key.nonce m).0) ∷ t.issued) (same ∙ sym kept),
    ),
  )

  -- A fetch is at most one step of a task that is alone: from a trace with the client's cache, it
  -- leads to one with the cache that the client has then, and a nonce that it returns is the newest
  -- one that was handed out, if the nonces that it meets leave room for one more.
  fetch_tx_nonce-Step :
      (k : CacheKey) (t : Trace) (c : Client W)
      → Shows t c
      → HasRoom lib call k c
      → (u : Trace) × (AtMostOne t u
          × Shows u (fetch_tx_nonce lib call k c).1
          × HandedOut k (fetch_tx_nonce lib call k c).0 t u)
  unfolding fetch_tx_nonce fetch_from ◌>>=◌
  fetch_tx_nonce-Step k t c same room = elim (Option-cases (cached k c.access_key_nonces)) [
    | inl missing ↦
        rw (missing, fetch_from)
          (store_step k t c (access_key lib call k.0 k.1 c).1 (access_key lib call k.0 k.1 c).0 same
            missing (access_key-nonces lib call k c)
            (λ key hash told.
              room.told key hash (access_key lib call k.0 k.1 c).1
                (ap (λ r. (r, (access_key lib call k.0 k.1 c).1)) told)))
    | inr (v, found) ↦ rw (found, fetch_from) (hit_step k t c v same found (room.in_cache v found))
  ]

  drop_step :
      {A : Type 0} (r : Result A JsonRpcError) (k : CacheKey) (t : Trace) (m : NonceMap)
      → t.nonces ≡ m
      → (u : Trace) × (AtMostOne t u × (u.nonces ≡ drop_if_invalid r k m))
  drop_step (err (server_error (handler_error (invalid_transaction (invalid_nonce a b))))) k t m
        same =
      (
        record { nonces = forget k t.nonces; issued = Map.remove k t.issued },
        (inl (drop t k), ap (forget k) same),
      )
  drop_step r k t m same = (t, (inr refl, same))

  -- Sending a transaction is at most one step of a task that is alone, the one that drops the key:
  -- from a trace with the client's cache, it leads to one with the cache that the client has then.
  send_tx-Step :
      (k : CacheKey) (tx : SignedTransaction) (t : Trace) (c : Client W)
      → Shows t c
      → (u : Trace) × (AtMostOne t u × Shows u (send_tx lib call k tx c).1)
  unfolding send_tx
  send_tx-Step k tx t c same =
      drop_step (query lib call (Request.broadcast_tx_commit tx) c).0 k t _
        (same ∙ sym (query-nonces lib call (Request.broadcast_tx_commit tx) c))

  reached : {t u : Trace} → Reach false t → AtMostOne t u → Reach false u
  reached r (inl step) = next r step
  reached {u = u} r (inr e) = rw e r

  module _ (public_key : SecretKey → PublicKey) (signer : InMemorySigner) (receiver_id : AccountId)
      (actions : List Action) where
    -- One round of sending a batch, whatever fails in it, takes the cache of a reachable trace to the
    -- cache of a reachable trace, if the nonces that it meets leave room for one more.
    send_once-Reach :
        (t : Trace) (c : Client W)
        → Reach false t
        → Shows t c
        → HasRoom lib call (key_of public_key signer) c
        → (u : Trace) × (Reach false u
            × Shows u (send_once lib call public_key signer receiver_id actions c).1)
    unfolding send_once ◌>>=◌
    send_once-Reach t c reach same room =
        let (u, fetched) = fetch_tx_nonce-Step (key_of public_key signer) t c same room in
        from (fetch_tx_nonce lib call (key_of public_key signer) c).0 u (reached reach fetched.0)
          fetched.1
      where
        from :
            (r : Result (Bytes × ℕ) Error) (u : Trace)
            → Reach false u
            → Shows u (fetch_tx_nonce lib call (key_of public_key signer) c).1
            → (v : Trace) × (Reach false v
                × Shows v
                    (continue r (fetch_tx_nonce lib call (key_of public_key signer) c).1 (λ fetched.
                      send_tx lib call
                        (key_of public_key signer)
                        (signed signer receiver_id actions fetched))).1)
        from (err e) u reach same = (u, (reach, same))
        from (ok fetched) u reach same =
            let (v, sent) =
              send_tx-Step (key_of public_key signer) (signed signer receiver_id actions fetched) u
                _ same in
            (v, (reached reach sent.0, sent.1))
