-- ===== src/Client/Experimental.antt =====
-- The methods of `Client` behind the feature `experimental` (workspaces/src/rpc/client.rs). The types that the code does not take
-- apart, and the answers of the node to these requests, are parameters.
use near_workspaces_rs.Prelude.{Option}
use near_workspaces_rs.Result.{Result, Exec, map_err}
use near_workspaces_rs.Primitives.{BlockReference, BlockId}
use near_workspaces_rs.Primitives.Rpc.{JsonRpcError}
use near_workspaces_rs.Error.{Error, rpc_custom, rpc_error, query_failure}
use near_workspaces_rs.Client.{Client}

-- The requests, over `StateChangesRequestView`, `ReceiptReference` and `TransactionInfo`
pub data ExperimentalRequest (C R T : Type 0) : Type 0 where
  for_changes_in_block for_protocol_config : BlockReference → ExperimentalRequest C R T
  for_changes : BlockReference → C → ExperimentalRequest C R T
  for_genesis_config : ExperimentalRequest C R T
  for_receipt : R → ExperimentalRequest C R T
  for_tx_status : T → ExperimentalRequest C R T
  for_validators_ordered : Option BlockId → ExperimentalRequest C R T

module _ {C R T W : Type 0} (Answer : ExperimentalRequest C R T → Type 0)
    (ask : (r : ExperimentalRequest C R T) → W → Result (Answer r) JsonRpcError × W) where
  -- `self.rpc_client.call(…).await.map_err(…)`, with no retry
  asked : (r : ExperimentalRequest C R T) → Exec (Client W) (Answer r) Error
  unfolding rpc_custom
  asked r c =
      let (resp, node) = ask r c.node in
      (map_err (λ e. rpc_custom query_failure (rpc_error e)) resp, record c { node = node })

  unfoldable pub changes_in_block :
      (block_reference : BlockReference)
      → Exec (Client W) (Answer (for_changes_in_block block_reference)) Error
  unfolding asked
  changes_in_block block_reference = asked (for_changes_in_block block_reference)

  unfoldable pub changes :
      (block_reference : BlockReference) (state_changes_request : C)
      → Exec (Client W) (Answer (for_changes block_reference state_changes_request)) Error
  unfolding asked
  changes block_reference state_changes_request =
      asked (for_changes block_reference state_changes_request)

  unfoldable pub genesis_config : Exec (Client W) (Answer for_genesis_config) Error
  unfolding asked
  genesis_config = asked for_genesis_config

  unfoldable pub protocol_config :
      (block_reference : BlockReference)
      → Exec (Client W) (Answer (for_protocol_config block_reference)) Error
  unfolding asked
  protocol_config block_reference = asked (for_protocol_config block_reference)

  unfoldable pub receipt :
      (receipt_reference : R) → Exec (Client W) (Answer (for_receipt receipt_reference)) Error
  unfolding asked
  receipt receipt_reference = asked (for_receipt receipt_reference)

  unfoldable pub tx_status :
      (transaction_info : T) → Exec (Client W) (Answer (for_tx_status transaction_info)) Error
  unfolding asked
  tx_status transaction_info = asked (for_tx_status transaction_info)

  unfoldable pub validators_ordered :
      (block_id : Option BlockId) → Exec (Client W) (Answer (for_validators_ordered block_id)) Error
  unfolding asked
  validators_ordered block_id = asked (for_validators_ordered block_id)
