-- ===== src/Handles/Experimental.antt =====
-- The methods of `Worker` behind the feature `experimental` (workspaces/src/worker/impls.rs), which
-- forward to those of its client.
use near_workspaces_rs.Prelude.{Option}
use near_workspaces_rs.Result.{Result, Exec}
use near_workspaces_rs.Primitives.{BlockReference, BlockId}
use near_workspaces_rs.Primitives.Rpc.{JsonRpcError}
use near_workspaces_rs.Error.{Error}
use near_workspaces_rs.Client.{Client}
use near_workspaces_rs.Client.Experimental as Ops
use near_workspaces_rs.Client.Experimental.{
  ExperimentalRequest, for_changes_in_block, for_changes, for_genesis_config, for_protocol_config,
  for_receipt, for_tx_status, for_validators_ordered,
}

module _ {C R T W : Type 0} (Answer : ExperimentalRequest C R T → Type 0)
    (ask : (r : ExperimentalRequest C R T) → W → Result (Answer r) JsonRpcError × W) where
  unfoldable changes_in_block :
      (block_reference : BlockReference)
      → Exec (Client W) (Answer (for_changes_in_block block_reference)) Error
  changes_in_block block_reference = Ops.changes_in_block Answer ask block_reference

  unfoldable changes :
      (block_reference : BlockReference) (state_changes_request : C)
      → Exec (Client W) (Answer (for_changes block_reference state_changes_request)) Error
  changes block_reference state_changes_request =
      Ops.changes Answer ask block_reference state_changes_request

  unfoldable genesis_config : Exec (Client W) (Answer for_genesis_config) Error
  genesis_config = Ops.genesis_config Answer ask

  unfoldable protocol_config :
      (block_reference : BlockReference)
      → Exec (Client W) (Answer (for_protocol_config block_reference)) Error
  protocol_config block_reference = Ops.protocol_config Answer ask block_reference

  unfoldable receipt :
      (receipt_reference : R) → Exec (Client W) (Answer (for_receipt receipt_reference)) Error
  receipt receipt_reference = Ops.receipt Answer ask receipt_reference

  unfoldable tx_status :
      (transaction_info : T) → Exec (Client W) (Answer (for_tx_status transaction_info)) Error
  tx_status transaction_info = Ops.tx_status Answer ask transaction_info

  unfoldable validators_ordered :
      (block_id : Option BlockId) → Exec (Client W) (Answer (for_validators_ordered block_id)) Error
  validators_ordered block_id = Ops.validators_ordered Answer ask block_id
