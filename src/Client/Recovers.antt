-- ===== src/Client/Recovers.antt =====
-- How sending a batch recovers from a stale nonce (`fetch_tx_nonce`, `send_tx` and
-- `send_batch_tx_and_retry` in workspaces/src/rpc/client.rs).
use near_workspaces_rs.Prelude.{
  ℕ, ◌+◌, ◌<◌, ◌≤◌, ◌≡◌, refl, ap, ◌∙◌, ◌⊎◌, inl, inr, true, false, none, some, List, arith, ltb,
  Bool-cases, Option-cases, pair_eq, string_eq,
}
use near_workspaces_rs.Result.{
  Exec, Result, ok, err, is_err, pure, lift, ◌>>=◌, mapping_err, map_err,
}
use near_workspaces_rs.Primitives
use near_workspaces_rs.Primitives.{
  AccountId, PublicKey, SecretKey, Bytes, u64_mod, Action, AccessKeyPermissionView, AccessKeyView,
  BlockReference, FinalExecutionOutcomeView,
}
use near_workspaces_rs.Primitives.Rpc
use near_workspaces_rs.Primitives.Rpc.{
  Request, Response, Call, JsonRpcError, server_error, handler_error, invalid_transaction,
  invalid_nonce, QueryResponseKind, BlockView,
}
use near_workspaces_rs.Error.{Error}
use near_workspaces_rs.Types.{InMemorySigner}
use near_workspaces_rs.Client.Retry.{RetryLib, retry_outcome, retry_rule}
use near_workspaces_rs.Client.Nonces.{cached, next_nonce, key_self, reserve}
use near_workspaces_rs.Client.{
  Client, rpc_call, query, view_block, access_key, fetch_from, reserve_nonce, store_nonce,
  fetch_tx_nonce, send_tx, send_once, send_batch_tx_and_retry, key_of, signed, key_of_response,
}
use near_workspaces_rs.Client.Sending.{refused_nonce, send_tx_cache, store_value}

-- A node that answers: it tells the nonce of the signer's access key and the final block, and
-- executes the batch if its nonce is larger than that of the access key, up to a limit; if it is not
-- larger, it refuses the nonce.
pub record Serves {W : Type 0} (call : Call W) (public_key : SecretKey → PublicKey)
    (signer : InMemorySigner) (receiver_id : AccountId) (actions : List Action) : Type 0 where
  pub nonce_at : W → ℕ
  pub limit : ℕ
  pub tells :
      (w : W)
      → (permission : AccessKeyPermissionView) × (hash : Bytes) × (w' : W) × (call
            (Request.query
              (BlockReference.finality Primitives.none_final)
              (Rpc.view_access_key signer.account_id (public_key signer.secret_key)))
            w
          ≡ (
            ok (record {
              kind =
                  QueryResponseKind.access_key
                    (record { nonce = nonce_at w; permission = permission });
              block_hash = hash;
            }),
            w',
          ))
        × (nonce_at w' ≡ nonce_at w)
  pub dates :
      (w : W)
      → (block : BlockView) × (w' : W) × (call
            (Request.block (BlockReference.finality Primitives.final))
            w
          ≡ (ok block, w'))
        × (nonce_at w' ≡ nonce_at w)
  pub executes :
      (hash : Bytes) (n : ℕ) (w : W)
      → nonce_at w < n
      → n ≤ limit
      → (outcome : FinalExecutionOutcomeView) × (w' : W) × (call
            (Request.broadcast_tx_commit (signed signer receiver_id actions (hash, n)))
            w
          ≡ (ok outcome, w'))
  pub refuses :
      (hash : Bytes) (n : ℕ) (w : W)
      → n ≤ nonce_at w
      → (a : ℕ) × (b : ℕ) × (w' : W) × (call
            (Request.broadcast_tx_commit (signed signer receiver_id actions (hash, n)))
            w
          ≡ (err (server_error (handler_error (invalid_transaction (invalid_nonce a b)))), w'))
        × (nonce_at w' ≡ nonce_at w)

refused-is_err :
    {A E : Type 0} (f : JsonRpcError → E) (r : Result A JsonRpcError)
    → refused_nonce r ≡ true
    → is_err (map_err f r) ≡ true
refused-is_err f (ok a) h = absurd (cc)
refused-is_err f (err e) h = refl

bind_returned :
    {S A B E : Type 0} (m : Exec S A E) (f : A → Exec S B E) (s : S) (a : A)
    → (m s).0 ≡ ok a
    → (m >>= f) s ≡ f a (m s).1
unfolding ◌>>=◌
bind_returned m f s a h = rw h refl

module _ (lib : RetryLib) {W : Type 0} (call : Call W) where
  pub query_answered :
      (r : Request) (c : Client W) (a : Response r) (w : W)
      → call r c.node ≡ (ok a, w)
      → query lib call r c ≡ (ok a, record c { node = w })
  unfolding query rpc_call
  query_answered r c a w e =
      retry_outcome lib (rpc_call lib call r) 0 c (omega arith) tt
        (inr (ap (λ (x : Result (Response r) JsonRpcError × W). is_err x.0) e))
      ∙ ap (λ (x : Result (Response r) JsonRpcError × W). (x.0, record c { node = x.1 })) e

  module _ {public_key : SecretKey → PublicKey} {signer : InMemorySigner} {receiver_id : AccountId}
      {actions : List Action} (node : Serves call public_key signer receiver_id actions) where
    open node use {nonce_at, limit, tells, dates, executes, refuses}

    -- The nonces that sending may meet are below the limit.
    pub record HasRoom (c : Client W) : Type 0 where
      pub told : nonce_at c.node + 1 ≤ limit
      pub word : nonce_at c.node + 1 < u64_mod
      pub in_cache :
          (v : ℕ) → cached (key_of public_key signer) c.access_key_nonces ≡ some v → v + 1 ≤ limit

    key_told :
        (c : Client W)
        → (key : AccessKeyView) × (hash : Bytes) × (w : W) × (access_key lib call signer.account_id
              (public_key signer.secret_key)
              c
            ≡ (ok (key, hash), record c { node = w }))
          × (key.nonce ≡ nonce_at c.node)
          × (nonce_at w ≡ nonce_at c.node)
    unfolding access_key key_of_response mapping_err ◌>>=◌ lift
    key_told c =
        let (permission, hash, w, e, same) = tells c.node in
        (
          record { nonce = nonce_at c.node; permission = permission },
          hash,
          w,
          rw (query_answered _ c _ w e) refl,
          refl,
          same,
        )

    block_dated :
        (c : Client W)
        → (block : BlockView) × (w : W) × (view_block lib call
              (some (BlockReference.finality Primitives.final))
              c
            ≡ (ok block, record c { node = w }))
          × (nonce_at w ≡ nonce_at c.node)
    unfolding view_block mapping_err
    block_dated c =
        let (block, w, e, same) = dates c.node in
        (block, w, rw (query_answered _ c _ w e) refl, same)

    -- A fetch returns a nonce, one more than the access key's if the cache holds none.
    Fetched : Client W → Result (Bytes × ℕ) Error × Client W → Type 0
    Fetched c r =
        (hash : Bytes) × (n : ℕ) × (r.0 ≡ ok (hash, n))
        × (n ≤ limit)
        × (nonce_at r.1.node ≡ nonce_at c.node)
        × (cached (key_of public_key signer) c.access_key_nonces ≡ none
            → n ≡ next_nonce (nonce_at c.node))

    missed-Fetched :
        (c : Client W)
        → HasRoom c
        → cached (key_of public_key signer) c.access_key_nonces ≡ none
        → Fetched c (fetch_from lib call none (key_of public_key signer) c)
    unfolding fetch_from store_nonce ◌>>=◌ Fetched
    missed-Fetched c room missing =
        let (key, hash, w, asked, told, same) = key_told c in
        rw (asked, ◌>>=◌)
          (
            hash,
            next_nonce key.nonce,
            store_value lib call (key_of public_key signer) key hash (record c { node = w })
                missing,
            omega (arith, told, room.told, room.word),
            same,
            λ m. ap next_nonce told,
          )

    hit-Fetched :
        (c : Client W) (v : ℕ)
        → HasRoom c
        → cached (key_of public_key signer) c.access_key_nonces ≡ some v
        → Fetched c (reserve_nonce lib call (key_of public_key signer) v c)
    unfolding reserve_nonce reserve ◌>>=◌ pure Fetched
    hit-Fetched c v room found =
        let (block, w, e, same) = block_dated (record c {
          access_key_nonces = (reserve (key_of public_key signer) v c.access_key_nonces).1;
        }) in
        rw e (
          block.header.hash,
          (reserve (key_of public_key signer) v c.access_key_nonces).0,
          refl,
          omega (arith, room.in_cache v found),
          same,
          λ m. absurd (cc),
        )

    fetch-Fetched :
        (c : Client W)
        → HasRoom c
        → Fetched c (fetch_tx_nonce lib call (key_of public_key signer) c)
    unfolding fetch_tx_nonce fetch_from
    fetch-Fetched c room =
        elim (Option-cases (cached (key_of public_key signer) c.access_key_nonces)) [
          | inl missing ↦ rw missing (missed-Fetched c room missing)
          | inr (v, found) ↦ rw (found, fetch_from) (hit-Fetched c v room found)
        ]

    -- A round succeeds, or leaves no nonce in the cache and the access key's as it was.
    Sent : Client W → Result FinalExecutionOutcomeView Error × Client W → Type 0
    Sent c r =
        (is_err r.0 ≡ false)
        ⊎ ((is_err r.0 ≡ true)
            × (cached (key_of public_key signer) r.1.access_key_nonces ≡ none)
            × (nonce_at r.1.node ≡ nonce_at c.node))

    -- A nonce that is not larger than the access key's is refused, whatever the retries.
    query_refused :
        (hash : Bytes) (n : ℕ) (c : Client W)
        → n ≤ nonce_at c.node
        → let r =
            query lib call
              (Request.broadcast_tx_commit (signed signer receiver_id actions (hash, n)))
              c in
          (refused_nonce r.0 ≡ true) × (nonce_at r.1.node ≡ nonce_at c.node)
    unfolding query rpc_call
    query_refused hash n c old =
        let (kept, refused) =
          retry_rule lib
            (rpc_call lib call
              (Request.broadcast_tx_commit (signed signer receiver_id actions (hash, n))))
            (λ d. nonce_at d.node ≡ nonce_at c.node) (λ r d. refused_nonce r ≡ true)
            (λ d same.
              let (a, b, w, e, still) = refuses hash n d.node (omega (arith, same)) in
              (rw e (still ∙ same), rw e refl))
            c refl in
        (refused, kept)

    send-executes :
        (hash : Bytes) (n : ℕ) (c : Client W)
        → nonce_at c.node < n
        → n ≤ limit
        → is_err
            (send_tx lib call
              (key_of public_key signer)
              (signed signer receiver_id actions (hash, n))
              c).0
          ≡ false
    unfolding send_tx
    send-executes hash n c new low =
        let (outcome, w, e) = executes hash n c.node new low in
        rw (query_answered _ c outcome w e) refl

    send-Sent :
        (hash : Bytes) (n : ℕ) (c : Client W)
        → n ≤ limit
        → Sent c (
            send_tx lib call
              (key_of public_key signer)
              (signed signer receiver_id actions (hash, n))
              c)
    unfolding Sent send_tx
    send-Sent hash n c low = elim (Bool-cases (ltb (nonce_at c.node) n)) [
      | inl new ↦ inl (send-executes hash n c (ground arith) low)
      | inr old ↦
          let (refused, kept) = query_refused hash n c (ground arith) in
          inr (
            refused-is_err _ _ refused,
            send_tx_cache lib call (key_of public_key signer) (key_of public_key signer)
                  (signed signer receiver_id actions (hash, n)) c
                ∙ rw (refused, key_self (key_of public_key signer)),
            kept,
          )
    ]

    since :
        (c d : Client W) (r : Result FinalExecutionOutcomeView Error × Client W)
        → nonce_at d.node ≡ nonce_at c.node
        → Sent d r
        → Sent c r
    unfolding Sent
    since c d r same (inl done) = inl done
    since c d r same (inr (failed, dropped, kept)) = inr (failed, dropped, kept ∙ same)

    once-Sent :
        (c : Client W)
        → HasRoom c
        → Sent c (send_once lib call public_key signer receiver_id actions c)
    unfolding send_once Fetched
    once-Sent c room =
        let (hash, n, e, low, same, fresh) = fetch-Fetched c room in
        rw (bind_returned (fetch_tx_nonce lib call (key_of public_key signer)) _ c (hash, n) e) (
          since c _ _ same
            (send-Sent hash n (fetch_tx_nonce lib call (key_of public_key signer) c).1 low))

    -- A round whose key is not in the cache succeeds.
    once_fresh :
        (c : Client W)
        → HasRoom c
        → cached (key_of public_key signer) c.access_key_nonces ≡ none
        → is_err (send_once lib call public_key signer receiver_id actions c).0 ≡ false
    unfolding send_once Fetched
    once_fresh c room missing =
        let (hash, n, e, low, same, fresh) = fetch-Fetched c room in
        rw (bind_returned (fetch_tx_nonce lib call (key_of public_key signer)) _ c (hash, n) e) (
          send-executes hash n (fetch_tx_nonce lib call (key_of public_key signer) c).1
            (omega (arith, same, fresh missing, room.word)) low)

    room_again :
        (c d : Client W)
        → HasRoom c
        → cached (key_of public_key signer) d.access_key_nonces ≡ none
        → nonce_at d.node ≡ nonce_at c.node
        → HasRoom d
    room_again c d room dropped kept = record {
      told = omega (arith, kept, room.told);
      word = omega (arith, kept, room.word);
      in_cache = λ v e. absurd (cc);
    }

    -- Whatever nonce the cache holds, however far it is behind, sending a batch succeeds if the node
    -- answers and executes what is signed with a nonce above the access key's, and if the nonces of the
    -- cache and of the access key leave room for one more.
    pub send_batch_recovers :
        (c : Client W)
        → HasRoom c
        → (outcome : FinalExecutionOutcomeView) × ((send_batch_tx_and_retry lib call public_key
              signer receiver_id actions c).0
            ≡ ok outcome)
    unfolding send_batch_tx_and_retry Sent
    send_batch_recovers c room = returned _ (elim (once-Sent c room) [
      | inl done ↦
          rw
            (retry_outcome lib (send_once lib call public_key signer receiver_id actions) 0 c
              (omega arith) tt (inr done))
            done
      | inr (failed, dropped, kept) ↦
          let again =
            once_fresh (send_once lib call public_key signer receiver_id actions c).1
              (room_again _ _ room dropped kept) dropped in
          rw
            (retry_outcome lib (send_once lib call public_key signer receiver_id actions) 1 c
              (omega arith) (failed, tt) (inr again))
            again
    ])
      where
        returned :
            (r : Result FinalExecutionOutcomeView Error)
            → is_err r ≡ false
            → (outcome : FinalExecutionOutcomeView) × (r ≡ ok outcome)
        returned (ok outcome) h = (outcome, refl)
        returned (err e) h = absurd (cc)
