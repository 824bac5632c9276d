-- ===== src/Primitives.antt =====
-- The types of the crates near_primitives and near_jsonrpc_client that workspaces/src takes apart
-- or builds. Identifiers, keys and errors that the code only carries are texts; bytes are numbers.
pub mod Rpc
use near_workspaces_rs.Prelude.{ℕ, String, List, Option}

abbrev pub AccountId : Type 0
AccountId = String

abbrev pub PublicKey : Type 0
PublicKey = String

abbrev pub SecretKey : Type 0
SecretKey = String

abbrev pub Bytes : Type 0
Bytes = List ℕ

abbrev pub TxExecutionError : Type 0
TxExecutionError = String

abbrev pub u64_mod : ℕ
u64_mod = 18446744073709551616

-- near_primitives::views
pub data FinalExecutionStatus : Type 0 where
  not_started started : FinalExecutionStatus
  failure : TxExecutionError → FinalExecutionStatus
  success_value : Bytes → FinalExecutionStatus

pub data ExecutionStatusView : Type 0 where
  unknown : ExecutionStatusView
  failure : TxExecutionError → ExecutionStatusView
  success_value : Bytes → ExecutionStatusView
  success_receipt_id : Bytes → ExecutionStatusView

pub record ExecutionOutcomeView : Type 0 where
  pub logs : List String
  pub receipt_ids : List Bytes
  pub gas_burnt : ℕ
  pub tokens_burnt : ℕ
  pub executor_id : AccountId
  pub status : ExecutionStatusView

pub record ExecutionOutcomeWithIdView : Type 0 where
  pub id : Bytes
  pub block_hash : Bytes
  pub outcome : ExecutionOutcomeView

pub record FinalExecutionOutcomeView : Type 0 where
  pub status : FinalExecutionStatus
  pub transaction_outcome : ExecutionOutcomeWithIdView
  pub receipts_outcome : List ExecutionOutcomeWithIdView

pub data AccessKeyPermissionView : Type 0 where
  function_call : Option ℕ → String → List String → AccessKeyPermissionView
  full_access : AccessKeyPermissionView

pub record AccessKeyView : Type 0 where
  pub nonce : ℕ
  pub permission : AccessKeyPermissionView

pub record AccessKeyInfoView : Type 0 where
  pub public_key : PublicKey
  pub access_key : AccessKeyView

pub record AccountView : Type 0 where
  pub amount : ℕ
  pub locked : ℕ
  pub code_hash : Bytes
  pub storage_usage : ℕ
  pub storage_paid_at : ℕ

pub record CallResult : Type 0 where
  pub result : Bytes
  pub logs : List String

-- near_primitives::account
pub record FunctionCallPermission : Type 0 where
  pub allowance : Option ℕ
  pub receiver_id : String
  pub method_names : List String

pub data AccessKeyPermission : Type 0 where
  function_call : FunctionCallPermission → AccessKeyPermission
  full_access : AccessKeyPermission

pub record AccessKey : Type 0 where
  pub nonce : ℕ
  pub permission : AccessKeyPermission

pub record NearAccount : Type 0 where
  pub amount : ℕ
  pub locked : ℕ
  pub code_hash : Bytes
  pub storage_usage : ℕ

-- near_primitives::transaction
pub data Action : Type 0 where
  create_account : Action
  deploy_contract : Bytes → Action
  function_call : String → Bytes → ℕ → ℕ → Action
  transfer : ℕ → Action
  stake : ℕ → PublicKey → Action
  add_key : PublicKey → AccessKey → Action
  delete_key : PublicKey → Action
  delete_account : AccountId → Action

-- What `SignedTransaction::from_actions` signs; the signature itself is not modelled.
pub record SignedTransaction : Type 0 where
  pub nonce : ℕ
  pub signer_id : AccountId
  pub receiver_id : AccountId
  pub signed_by : SecretKey
  pub actions : List Action
  pub block_hash : Bytes

-- near_primitives::state_record
pub data StateRecord : Type 0 where
  account : AccountId → NearAccount → StateRecord
  access_key : AccountId → PublicKey → AccessKey → StateRecord
  contract : AccountId → Bytes → StateRecord
  data_record : AccountId → Bytes → Bytes → StateRecord

-- near_primitives::types
pub data BlockId : Type 0 where
  height : ℕ → BlockId
  hash : Bytes → BlockId

pub data Finality : Type 0 where
  none_final doom_slug final : Finality

pub data SyncCheckpoint : Type 0 where
  genesis earliest_available : SyncCheckpoint

pub data BlockReference : Type 0 where
  block_id : BlockId → BlockReference
  finality : Finality → BlockReference
  sync_checkpoint : SyncCheckpoint → BlockReference
