-- ===== src/Client/Requests.antt =====
-- Which requests the sending of a transaction makes, and how many (workspaces/src/rpc/client.rs).
use near_workspaces_rs.Prelude.{
  pair_eq, string_eq, ℕ, ◌+◌, ◌≤◌, ◌≡◌, refl, Option, none, some, List, arith,
}
use near_workspaces_rs.Primitives
use near_workspaces_rs.Primitives.{
  AccountId, PublicKey, SecretKey, Bytes, Action, SignedTransaction, BlockReference,
  FinalExecutionOutcomeView, AccessKeyView,
}
use near_workspaces_rs.Primitives.Rpc
use near_workspaces_rs.Primitives.Rpc.{Request, Response, Call}
use near_workspaces_rs.Types.{InMemorySigner}
use near_workspaces_rs.Map
use near_workspaces_rs.Client.Retry.{RetryLib}
use near_workspaces_rs.Client.Nonces.{CacheKey}
use near_workspaces_rs.Client.{
  Client, view_block, access_key, fetch_from, reserve_nonce, store_nonce, fetch_tx_nonce, send_tx,
  send_once, send_batch_tx_and_retry, key_of, signed,
}
use near_workspaces_rs.Client.Keeps.{
  KeepsNode, Costs, broadcasts, lift-KeepsNode, pure-KeepsNode, mapping_err-KeepsNode,
  bind-KeepsNode, bind-Costs, retry-KeepsNode, retry-Costs, query-KeepsNode, query-Costs,
}

module _ (lib : RetryLib) {W : Type 0} (call : Call W) where
  module _ {P : W → Type 0} where
    view_block-KeepsNode :
        (r : BlockReference)
        → ((w : W) → P w → P (call (Request.block r) w).1)
        → KeepsNode P (view_block lib call (some r))
    unfolding view_block
    view_block-KeepsNode r keep =
        mapping_err-KeepsNode _ _ (query-KeepsNode lib call (Request.block r) keep)

    reserve_nonce-KeepsNode :
        (k : CacheKey) (n : ℕ)
        → ((w : W) → P w → P (call (Request.block (BlockReference.finality Primitives.final)) w).1)
        → KeepsNode P (reserve_nonce lib call k n)
    unfolding reserve_nonce
    reserve_nonce-KeepsNode k n keep = record {
      at = λ c p.
          (bind-KeepsNode (view_block lib call (some (BlockReference.finality Primitives.final))) _
              (view_block-KeepsNode _ keep) (λ b. pure-KeepsNode _)).at
            _ p;
    }

    store_nonce-KeepsNode :
        (k : CacheKey) (a : AccessKeyView × Bytes) → KeepsNode P (store_nonce lib call k a)
    unfolding store_nonce
    store_nonce-KeepsNode k a = record { at = λ c p. p }

    access_key-KeepsNode :
        (id : AccountId) (pk : PublicKey)
        → ((w : W)
            → P w
            → P
                (call
                  (Request.query
                    (BlockReference.finality Primitives.none_final)
                    (Rpc.view_access_key id pk))
                  w).1)
        → KeepsNode P (access_key lib call id pk)
    unfolding access_key
    access_key-KeepsNode id pk keep =
        bind-KeepsNode _ _ (mapping_err-KeepsNode _ _ (query-KeepsNode lib call _ keep))
          (λ resp. lift-KeepsNode _)

    fetch_tx_nonce-KeepsNode :
        (k : CacheKey)
        → ((w : W)
            → P w
            → P
                (call
                  (Request.query
                    (BlockReference.finality Primitives.none_final)
                    (Rpc.view_access_key k.0 k.1))
                  w).1)
        → ((w : W) → P w → P (call (Request.block (BlockReference.finality Primitives.final)) w).1)
        → KeepsNode P (fetch_tx_nonce lib call k)
    unfolding fetch_tx_nonce
    fetch_tx_nonce-KeepsNode k asks looks = record {
      at = λ c. (from (Map.get k c.access_key_nonces)).at c;
    }
      where
        from : (o : Option ℕ) → KeepsNode P (fetch_from lib call o k)
        from (some n) = unfold fetch_from in reserve_nonce-KeepsNode k n looks
        from none =
            unfold fetch_from in
            bind-KeepsNode _ _ (access_key-KeepsNode k.0 k.1 asks) (store_nonce-KeepsNode k)

    send_tx-KeepsNode :
        (k : CacheKey) (tx : SignedTransaction)
        → ((w : W) → P w → P (call (Request.broadcast_tx_commit tx) w).1)
        → KeepsNode P (send_tx lib call k tx)
    unfolding send_tx
    send_tx-KeepsNode k tx keep = record {
      at = (query-KeepsNode lib call (Request.broadcast_tx_commit tx) keep).at;
    }

  fetch_tx_nonce-Costs :
      (cost : W → ℕ) (k : CacheKey)
      → ((r : Request) (w : W) → cost (call r w).1 ≤ cost w + broadcasts r)
      → Costs cost 0 (fetch_tx_nonce lib call k)
  fetch_tx_nonce-Costs cost k each = record {
    at = λ c.
        let limit : ℕ = cost c.node in
        let keeps : KeepsNode (λ w. cost w ≤ limit) (fetch_tx_nonce lib call k) =
          fetch_tx_nonce-KeepsNode k (λ w p. omega (arith, each _ w))
            (λ w p. omega (arith, each _ w)) in
        omega (arith, keeps.at c (omega arith));
  }

  send_tx-Costs :
      (cost : W → ℕ) (k : CacheKey) (tx : SignedTransaction)
      → ((r : Request) (w : W) → cost (call r w).1 ≤ cost w + broadcasts r)
      → Costs cost 5 (send_tx lib call k tx)
  unfolding send_tx
  send_tx-Costs cost k tx each = record {
    at =
        (query-Costs lib call 1 (Request.broadcast_tx_commit tx)
          (each (Request.broadcast_tx_commit tx))).at;
  }

  module _ (public_key : SecretKey → PublicKey) (signer : InMemorySigner) (receiver_id : AccountId)
      (actions : List Action) where
    -- The requests that belong to a batch: the access key of the signer, the newest final block, and
    -- the broadcast of these actions by this signer to this receiver, whatever nonce and block hash.
    abbrev pub BelongsTo : Request → Type 0
    BelongsTo (Request.broadcast_tx_commit tx) =
        (fetched : Bytes × ℕ) × (tx ≡ signed signer receiver_id actions fetched)
    BelongsTo (Request.query r q) =
        q ≡ Rpc.view_access_key signer.account_id (public_key signer.secret_key)
    BelongsTo (Request.block r) = r ≡ BlockReference.finality Primitives.final
    BelongsTo _ = ⊥

    -- A property of the node that every request of the batch keeps is kept by
    -- `send_batch_tx_and_retry`, whatever fails on the way: it makes no other request.
    pub send_batch_requests :
        (P : W → Type 0)
        → ((r : Request) → BelongsTo r → (w : W) → P w → P (call r w).1)
        → (c : Client W) → P c.node
        → P (send_batch_tx_and_retry lib call public_key signer receiver_id actions c).1.node
    unfolding send_batch_tx_and_retry send_once
    send_batch_requests P keep c =
        (retry-KeepsNode lib _ (
            bind-KeepsNode {P = P} _ _
              (fetch_tx_nonce-KeepsNode (key_of public_key signer) (keep _ refl) (keep _ refl))
              (λ fetched. send_tx-KeepsNode _ _ (keep _ (fetched, refl))))).at
          c

    -- If the node counts at most one for each transaction that it is asked to broadcast and wait
    -- for, and nothing for other requests, then `send_batch_tx_and_retry` adds at most 25.
    pub send_batch_broadcasts :
        (count : W → ℕ)
        → ((r : Request) (w : W) → count (call r w).1 ≤ count w + broadcasts r)
        → (c : Client W)
        → count (send_batch_tx_and_retry lib call public_key signer receiver_id actions c).1.node
          ≤ count c.node + 25
    unfolding send_batch_tx_and_retry send_once
    send_batch_broadcasts count each c =
        (retry-Costs lib 5 _ (
            bind-Costs {cost = count} 0 5 _ _
              (fetch_tx_nonce-Costs count (key_of public_key signer) each)
              (λ fetched. send_tx-Costs count _ _ each))).at
          c
