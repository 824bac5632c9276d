-- ===== src/Client/Sending.antt =====
-- What fetching a nonce and sending a transaction do to the cache (workspaces/src/rpc/client.rs).
use near_workspaces_rs.Prelude.{
  ℕ, ◌≡◌, refl, ◌∙◌, ap, sym, Bool, true, false, ◌&&◌, Option, none, some, arith, ◌==◌, pair_eq,
  string_eq, if◌then◌else◌,
}
use near_workspaces_rs.Result.{Result, ok, err, continue, ◌>>=◌, pure, lift, mapping_err}
use near_workspaces_rs.Primitives
use near_workspaces_rs.Primitives.{Bytes, AccessKeyView, SignedTransaction, BlockReference}
use near_workspaces_rs.Primitives.Rpc
use near_workspaces_rs.Primitives.Rpc.{
  Request, Response, Call, JsonRpcError, server_error, handler_error, invalid_transaction,
  invalid_nonce,
}
use near_workspaces_rs.Error.{Error}
use near_workspaces_rs.Client.Retry.{RetryLib, retry_rule}
use near_workspaces_rs.Client.Nonces.{
  CacheKey, NonceMap, next_nonce, cached, cached-reserve, cached-settle, cached-forget,
  settle_value, reserve, key_self,
}
use near_workspaces_rs.Client.{
  Client, rpc_call, query, view_block, access_key, reserve_nonce, store_nonce, fetch_from,
  fetch_tx_nonce, send_tx, drop_if_invalid,
}

-- Whether the node refused a transaction for its nonce.
abbrev pub refused_nonce : {A : Type 0} → Result A JsonRpcError → Bool
refused_nonce (err (server_error (handler_error (invalid_transaction (invalid_nonce t a))))) = true
refused_nonce _ = false

cached-drop_if_invalid :
    {A : Type 0} (r : Result A JsonRpcError) (k j : CacheKey) (m : NonceMap)
    → cached j (drop_if_invalid r k m) ≡ (if refused_nonce r && k == j then none else cached j m)
cached-drop_if_invalid r k j m = ground (arith, cached-forget k j m)

module _ (lib : RetryLib) {W : Type 0} (call : Call W) where
  pub query-nonces :
      (r : Request) (c : Client W) → (query lib call r c).1.access_key_nonces ≡ c.access_key_nonces
  unfolding query rpc_call
  query-nonces r c =
      (retry_rule lib (rpc_call lib call r) (λ d. d.access_key_nonces ≡ c.access_key_nonces)
        (λ _ _. Unit {0}) (λ d e. (e, tt)) c refl).0

  -- Sending a transaction drops its key from the cache if the node refuses the nonce, also after
  -- the retries of the broadcast, and changes nothing else in the cache.
  pub send_tx_cache :
      (k j : CacheKey) (tx : SignedTransaction) (c : Client W)
      → cached j (send_tx lib call k tx c).1.access_key_nonces ≡ (
          if refused_nonce (query lib call (Request.broadcast_tx_commit tx) c).0 && k == j
          then none
          else cached j c.access_key_nonces)
  unfolding send_tx
  send_tx_cache k j tx c =
      let answer : Result _ JsonRpcError = (query lib call (Request.broadcast_tx_commit tx) c).0 in
      cached-drop_if_invalid answer k j _
      ∙ ap (λ m. if refused_nonce answer && k == j then none else cached j m)
          (query-nonces (Request.broadcast_tx_commit tx) c)

  view_block-nonces :
      (r : Option BlockReference) (c : Client W)
      → (view_block lib call r c).1.access_key_nonces ≡ c.access_key_nonces
  unfolding view_block mapping_err
  view_block-nonces r c = query-nonces _ c

  pub access_key-nonces :
      (k : CacheKey) (c : Client W)
      → (access_key lib call k.0 k.1 c).1.access_key_nonces ≡ c.access_key_nonces
  unfolding access_key mapping_err ◌>>=◌ lift
  access_key-nonces k c = ground (
    arith,
    query-nonces
        (Request.query (BlockReference.finality Primitives.none_final)
          (Rpc.view_access_key k.0 k.1))
        c,
  )

  -- The hit branch: the nonce is consumed whatever the query for the block hash returns.
  pub reserve_nonce-nonces :
      (k : CacheKey) (v : ℕ) (c : Client W)
      → (reserve_nonce lib call k v c).1.access_key_nonces ≡ (reserve k v c.access_key_nonces).1
  unfolding reserve_nonce ◌>>=◌ pure
  reserve_nonce-nonces k v c = ground (
    arith,
    view_block-nonces (some (BlockReference.finality Primitives.final))
        (record c { access_key_nonces = (reserve k v c.access_key_nonces).1 }),
  )

  pub reserve_nonce_value :
      (k : CacheKey) (v n : ℕ) (h : Bytes) (c : Client W)
      → (reserve_nonce lib call k v c).0 ≡ ok (h, n)
      → n ≡ (reserve k v c.access_key_nonces).0
  unfolding reserve_nonce ◌>>=◌ pure
  reserve_nonce_value k v n h c e = ground arith

  -- A nonce that is cached is consumed by a fetch, even if the query for the block hash then fails:
  -- the cache holds the next one. Other keys keep theirs.
  pub fetch_tx_nonce_hit :
      (k j : CacheKey) (v : ℕ) (c : Client W)
      → cached k c.access_key_nonces ≡ some v
      → cached j (fetch_tx_nonce lib call k c).1.access_key_nonces
        ≡ (if k == j then some (next_nonce v) else cached j c.access_key_nonces)
  unfolding fetch_tx_nonce fetch_from reserve
  fetch_tx_nonce_hit k j v c e =
      rw (e, fetch_from)
        (ap (cached j) (reserve_nonce-nonces k v c) ∙ cached-reserve k j v c.access_key_nonces)

  store_after :
      (k j : CacheKey) (h : Bytes) (n : ℕ) (r : Result (AccessKeyView × Bytes) Error) (d : Client W)
      → (continue r d (store_nonce lib call k)).0 ≡ ok (h, n)
      → cached j (continue r d (store_nonce lib call k)).1.access_key_nonces
        ≡ (if k == j then some n else cached j d.access_key_nonces)
  unfolding store_nonce
  store_after k j h n (ok (key, hash)) d e =
      ground (arith, cached-settle k j key.nonce d.access_key_nonces)
  store_after k j h n (err x) d e = cc

  -- A fetch that succeeds leaves the nonce that it returns in the cache, for its key and no other.
  pub fetch_tx_nonce_ok :
      (k j : CacheKey) (h : Bytes) (n : ℕ) (c : Client W)
      → (fetch_tx_nonce lib call k c).0 ≡ ok (h, n)
      → cached j (fetch_tx_nonce lib call k c).1.access_key_nonces
        ≡ (if k == j then some n else cached j c.access_key_nonces)
  unfolding fetch_tx_nonce fetch_from ◌>>=◌
  fetch_tx_nonce_ok k j h n c e = from (cached k c.access_key_nonces) e
    where
      from :
          (o : Option ℕ)
          → (fetch_from lib call o k c).0 ≡ ok (h, n)
          → cached j (fetch_from lib call o k c).1.access_key_nonces
            ≡ (if k == j then some n else cached j c.access_key_nonces)
      from (some v) q =
          ap (cached j) (reserve_nonce-nonces k v c)
          ∙ cached-reserve k j v c.access_key_nonces
          ∙ ap (λ m. if k == j then some m else cached j c.access_key_nonces)
              (sym (reserve_nonce_value k v n h c q))
      from none q =
          store_after k j h n (access_key lib call k.0 k.1 c).0 (access_key lib call k.0 k.1 c).1 q
          ∙ ap (λ m. if k == j then some n else cached j m) (access_key-nonces k c)

  pub store_value :
      (k : CacheKey) (key : AccessKeyView) (hash : Bytes) (d : Client W)
      → cached k d.access_key_nonces ≡ none
      → (store_nonce lib call k (key, hash) d).0 ≡ ok (hash, next_nonce key.nonce)
  unfolding store_nonce
  store_value k key hash d e = ground (arith, settle_value k key.nonce d.access_key_nonces)

  -- After the node has refused a nonce, the next fetch for the key asks the node, and returns the
  -- nonce of the access key that it is told, plus one.
  fetch_after_refused_nonce :
      (k : CacheKey) (tx : SignedTransaction) (key : AccessKeyView) (hash : Bytes) (c d : Client W)
      → refused_nonce (query lib call (Request.broadcast_tx_commit tx) c).0 ≡ true
      → access_key lib call k.0 k.1 (send_tx lib call k tx c).1 ≡ (ok (key, hash), d)
      → (fetch_tx_nonce lib call k (send_tx lib call k tx c).1).0 ≡ ok (hash, next_nonce key.nonce)
  unfolding fetch_tx_nonce fetch_from store_nonce ◌>>=◌
  fetch_after_refused_nonce k tx key hash c d refused asked =
      let gone : cached k (send_tx lib call k tx c).1.access_key_nonces ≡ none =
        send_tx_cache k k tx c ∙ rw (refused, key_self k) in
      rw (gone, fetch_from)
        (rw (asked, ◌>>=◌)
          (store_value k key hash d (
            ap (cached k) (
              ap (λ (r : Result (AccessKeyView × Bytes) Error × Client W). r.1.access_key_nonces)
                (sym asked)
              ∙ access_key-nonces k (send_tx lib call k tx c).1)
            ∙ gone)))
