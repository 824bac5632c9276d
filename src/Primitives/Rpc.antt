-- ===== src/Primitives/Rpc.antt =====
-- The requests that workspaces/src sends through `JsonRpcClient::call`, the response that each of
-- them has, and the errors that the code looks into. The node behind the client is a parameter.
use near_workspaces_rs.Prelude.{ℕ, String, List, Option}
use near_workspaces_rs.Result.{Result}
use near_workspaces_rs.Primitives.{
  AccountId, PublicKey, Bytes, FinalExecutionOutcomeView, AccessKeyView, AccessKeyInfoView,
  AccountView, CallResult, SignedTransaction, StateRecord, BlockId, BlockReference,
}

pub data QueryRequest : Type 0 where
  view_account view_code view_access_key_list : AccountId → QueryRequest
  view_state : AccountId → Bytes → QueryRequest
  view_access_key : AccountId → PublicKey → QueryRequest
  call_function : AccountId → String → Bytes → QueryRequest

pub data QueryResponseKind : Type 0 where
  account : AccountView → QueryResponseKind
  contract_code : Bytes → QueryResponseKind
  state_values : List (Bytes × Bytes) → QueryResponseKind
  call_result : CallResult → QueryResponseKind
  access_key : AccessKeyView → QueryResponseKind
  access_key_list : List AccessKeyInfoView → QueryResponseKind

pub record RpcQueryResponse : Type 0 where
  pub kind : QueryResponseKind
  pub block_hash : Bytes

pub record ChunkHeaderView : Type 0 where
  pub chunk_hash : Bytes
  pub prev_block_hash : Bytes
  pub height_created : ℕ
  pub height_included : ℕ
  pub shard_id : ℕ
  pub gas_used : ℕ
  pub gas_limit : ℕ
  pub balance_burnt : ℕ
  pub tx_root : Bytes
  pub outcome_root : Bytes
  pub prev_state_root : Bytes
  pub outgoing_receipts_root : Bytes
  pub encoded_merkle_root : Bytes
  pub encoded_length : ℕ

pub record ChunkView : Type 0 where
  pub author : AccountId
  pub header : ChunkHeaderView

pub record BlockHeaderView : Type 0 where
  pub height : ℕ
  pub epoch_id : Bytes
  pub next_epoch_id : Bytes
  pub hash : Bytes
  pub prev_hash : Bytes
  pub timestamp_nanosec : ℕ
  pub random_value : Bytes
  pub gas_price : ℕ
  pub block_ordinal : Option ℕ
  pub total_supply : ℕ
  pub last_final_block : Bytes
  pub last_ds_final_block : Bytes
  pub next_bp_hash : Bytes
  pub latest_protocol_version : ℕ
  pub prev_state_root : Bytes
  pub chunk_receipts_root : Bytes
  pub chunk_headers_root : Bytes
  pub chunk_tx_root : Bytes
  pub outcome_root : Bytes
  pub challenges_root : Bytes
  pub block_merkle_root : Bytes

pub record BlockView : Type 0 where
  pub author : AccountId
  pub header : BlockHeaderView
  pub chunks : List ChunkHeaderView

pub data ChunkReference : Type 0 where
  block_shard_id : BlockId → ℕ → ChunkReference
  chunk_hash : Bytes → ChunkReference

pub data Request : Type 0 where
  broadcast_tx_commit broadcast_tx_async : SignedTransaction → Request
  query : BlockReference → QueryRequest → Request
  block : BlockReference → Request
  chunk : ChunkReference → Request
  gas_price : Option BlockId → Request
  tx_status : AccountId → Bytes → Request
  status : Request
  patch_state : List StateRecord → Request
  fast_forward : ℕ → Request

abbrev pub Response : Request → Type 0
Response (broadcast_tx_commit tx) = FinalExecutionOutcomeView
Response (broadcast_tx_async tx) = Bytes
Response (query r q) = RpcQueryResponse
Response (block r) = BlockView
Response (chunk r) = ChunkView
Response (gas_price b) = ℕ
Response (tx_status a h) = FinalExecutionOutcomeView
Response status = Unit {0}
Response (patch_state rs) = Unit {0}
Response (fast_forward n) = Unit {0}

pub data InvalidTxError : Type 0 where
  invalid_nonce : ℕ → ℕ → InvalidTxError
  other_invalid : String → InvalidTxError

-- `RpcTransactionError`, and as text the handler errors of the other methods.
pub data HandlerError : Type 0 where
  invalid_transaction : InvalidTxError → HandlerError
  unknown_transaction : String → HandlerError
  other_handler : String → HandlerError

pub data JsonRpcServerError : Type 0 where
  handler_error : HandlerError → JsonRpcServerError
  other_server : String → JsonRpcServerError

pub data JsonRpcError : Type 0 where
  server_error : JsonRpcServerError → JsonRpcError
  transport_error : String → JsonRpcError

-- `JsonRpcClient::call`: the node answers and may change.
abbrev pub Call : Type 0 → Type 0
Call W = (r : Request) → W → Result (Response r) JsonRpcError × W
