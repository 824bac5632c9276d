-- ===== src/Client.antt =====
-- workspaces/src/rpc/client.rs: queries with retries, fetching nonces and sending transactions. The
-- node behind `JsonRpcClient::call`, the crate tokio_retry and the derivation of public keys are
-- parameters. Logging is left out.
pub mod Retry
pub mod Nonces
pub mod Calls
pub mod Keeps
pub mod Requests
pub mod Sending
pub mod Refines
pub mod Tasks
pub mod Recovers
pub mod Experimental
use near_workspaces_rs.Prelude.{
  ℕ, ◌+◌, ◌*◌, ◌%◌, String, Option, none, some, List, [], ◌∷◌, replicate, unwrap_or, pair_eq,
  string_eq,
}
use near_workspaces_rs.Result.{
  Result, ok, err, Exec, pure, lift, continue, ◌>>=◌, ◌>>◌, mapping_err, map_err, and_then,
}
use near_workspaces_rs.Primitives
use near_workspaces_rs.Primitives.{
  AccountId, PublicKey, SecretKey, Bytes, u64_mod, Action, SignedTransaction, BlockReference,
  FinalExecutionOutcomeView, AccessKeyView, StateRecord,
}
use near_workspaces_rs.Primitives.Rpc
use near_workspaces_rs.Primitives.Rpc.{
  Request, Response, Call, JsonRpcError, server_error, handler_error, invalid_transaction,
  invalid_nonce, QueryResponseKind, RpcQueryResponse, BlockView,
}
use near_workspaces_rs.Error.{
  Error, BoxedError, rpc_error, rpc, full, custom, data_conversion, rpc_custom, rpc_message,
  broadcast_tx_failure, query_failure, query_returned_invalid_data, connection_failure,
}
use near_workspaces_rs.Types.{InMemorySigner}
use near_workspaces_rs.Map
use Retry.{RetryLib, retry}
use Nonces.{CacheKey, NonceMap, reserve, settle, forget}

-- The client's cache, and the node that it talks to.
pub record Client (W : Type 0) : Type 0 where
  pub access_key_nonces : NonceMap
  pub node : W

-- `TransactionStatus`, less its worker
pub record TransactionStatus : Type 0 where
  pub sender_id : AccountId
  pub hash : Bytes

-- `if let Err(JsonRpcError::ServerError(… InvalidNonce { .. } …)) = &result`
abbrev pub drop_if_invalid : {A : Type 0} → Result A JsonRpcError → CacheKey → NonceMap → NonceMap
drop_if_invalid (err (server_error (handler_error (invalid_transaction (invalid_nonce t a))))) k m =
    forget k m
drop_if_invalid r k m = m

-- `(signer.account_id.clone(), signer.public_key())`
abbrev pub key_of : (SecretKey → PublicKey) → InMemorySigner → CacheKey
key_of public_key signer = (signer.account_id, public_key signer.secret_key)

-- `SignedTransaction::from_actions`
abbrev pub signed : InMemorySigner → AccountId → List Action → Bytes × ℕ → SignedTransaction
signed signer receiver_id actions (block_hash, nonce) = record {
  nonce = nonce;
  signer_id = signer.account_id;
  receiver_id = receiver_id;
  signed_by = signer.secret_key;
  actions = actions;
  block_hash = block_hash;
}

module _ (lib : RetryLib) {W : Type 0} (call : Call W) where
  -- `self.rpc_client.call(method)`
  unfoldable pub rpc_call : (r : Request) → Exec (Client W) (Response r) JsonRpcError
  rpc_call r c = let (answer, node) = call r c.node in (answer, record c { node = node })

  -- `query`, `query_nolog` and `query_broadcast_tx`
  unfoldable pub query : (r : Request) → Exec (Client W) (Response r) JsonRpcError
  unfolding rpc_call
  query r = retry lib (rpc_call r)

  unfoldable pub view_block : Option BlockReference → Exec (Client W) BlockView Error
  view_block block_ref =
      mapping_err (λ e. rpc_custom query_failure (rpc_error e))
        (query
          (Request.block (unwrap_or block_ref (BlockReference.finality Primitives.none_final))))

  -- The match on `query_resp.kind` in `access_key`
  key_of_response : RpcQueryResponse → Result (AccessKeyView × Bytes) Error
  key_of_response resp = elim resp.kind [
    | QueryResponseKind.access_key k ↦ ok (k, resp.block_hash)
    | _ ↦ err (rpc_message query_returned_invalid_data "while querying access key")
  ]

  unfoldable pub access_key : AccountId → PublicKey → Exec (Client W) (AccessKeyView × Bytes) Error
  unfolding key_of_response
  access_key account_id public_key = do
    resp ←
        mapping_err (λ e. full (rpc query_failure) "Failed to query access key" (rpc_error e))
          (query (
            Request.query (BlockReference.finality Primitives.none_final)
              (Rpc.view_access_key account_id public_key)))
    lift (key_of_response resp)

  -- The two branches of `fetch_tx_nonce`
  pub reserve_nonce : CacheKey → ℕ → Exec (Client W) (Bytes × ℕ) Error
  reserve_nonce k nonce c =
      let (n, nonces) = reserve k nonce c.access_key_nonces in
      (view_block (some (BlockReference.finality Primitives.final)) >>= λ block.
      pure (block.header.hash, n))
        (record c { access_key_nonces = nonces })

  pub store_nonce : CacheKey → AccessKeyView × Bytes → Exec (Client W) (Bytes × ℕ) Error
  store_nonce k (key, block_hash) c =
      let (n, nonces) = settle k key.nonce c.access_key_nonces in
      (ok (block_hash, n), record c { access_key_nonces = nonces })

  fetch_from : Option ℕ → CacheKey → Exec (Client W) (Bytes × ℕ) Error
  fetch_from (some nonce) k = reserve_nonce k nonce
  fetch_from none k = do key ← access_key k.0 k.1; store_nonce k key

  -- No other task comes between the steps here; Client/Nonces/Race.antt has the interleavings.
  unfoldable pub fetch_tx_nonce : CacheKey → Exec (Client W) (Bytes × ℕ) Error
  unfolding fetch_from reserve_nonce store_nonce
  fetch_tx_nonce k c = fetch_from (Map.get k c.access_key_nonces) k c

  unfoldable pub send_tx :
      CacheKey → SignedTransaction → Exec (Client W) FinalExecutionOutcomeView Error
  send_tx k tx c =
      let (result, c') = query (Request.broadcast_tx_commit tx) c in
      (
        map_err (λ e. rpc_custom broadcast_tx_failure (rpc_error e)) result,
        record c' { access_key_nonces = drop_if_invalid result k c'.access_key_nonces },
      )

  module _ (public_key : SecretKey → PublicKey) where
    -- The tasks that `send_batch_tx_and_retry` and `send_batch_tx_async_and_retry` retry
    pub send_once :
        InMemorySigner → AccountId → List Action → Exec (Client W) FinalExecutionOutcomeView Error
    unfolding fetch_tx_nonce send_tx
    send_once signer receiver_id actions = do
      fetched ← fetch_tx_nonce (key_of public_key signer)
      send_tx (key_of public_key signer) (signed signer receiver_id actions fetched)

    unfoldable pub send_batch_tx_and_retry :
        InMemorySigner → AccountId → List Action → Exec (Client W) FinalExecutionOutcomeView Error
    unfolding send_once
    send_batch_tx_and_retry signer receiver_id actions =
        retry lib (send_once signer receiver_id actions)

    send_async_once :
        InMemorySigner → AccountId → List Action → Exec (Client W) TransactionStatus Error
    unfolding fetch_tx_nonce
    send_async_once signer receiver_id actions = do
      fetched ← fetch_tx_nonce (key_of public_key signer)
      hash ←
          mapping_err (λ e. rpc_custom broadcast_tx_failure (rpc_error e))
            (query (Request.broadcast_tx_async (signed signer receiver_id actions fetched)))
      pure (record { sender_id = signer.account_id; hash = hash })

    unfoldable pub send_batch_tx_async_and_retry :
        InMemorySigner → AccountId → List Action → Exec (Client W) TransactionStatus Error
    unfolding send_async_once
    send_batch_tx_async_and_retry signer receiver_id actions =
        retry lib (send_async_once signer receiver_id actions)
