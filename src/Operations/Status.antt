-- ===== src/Operations/Status.antt =====
-- `TransactionStatus` of workspaces/src/operations.rs: polling an asynchronous transaction. The
-- sleep between two polls is left out. The polls are bounded by fuel; `none` means that it ran out.
pub mod Waiting
use near_workspaces_rs.Prelude.{ℕ, zero, suc, Option, none, some}
use near_workspaces_rs.Result.{Result, ok, err, Exec}
use near_workspaces_rs.Primitives.{FinalExecutionOutcomeView}
use near_workspaces_rs.Primitives.Rpc.{
  Call, JsonRpcError, server_error, handler_error, unknown_transaction,
}
use near_workspaces_rs.Error.{Error, rpc_custom, rpc_error, broadcast_tx_failure}
use near_workspaces_rs.Execution.{ExecutionFinalResult, from_view}
use near_workspaces_rs.Client.Retry.{RetryLib}
use near_workspaces_rs.Client.{Client, TransactionStatus}
use near_workspaces_rs.Client.Calls.{tx_async_status}

-- `std::task::Poll`
pub data Poll (A : Type 0) : Type 0 where
  ready : A → Poll A
  pending : Poll A

-- The match on the error in `status`
failed_status : JsonRpcError → Result (Poll ExecutionFinalResult) Error
unfolding rpc_custom
failed_status (server_error (handler_error (unknown_transaction hash))) = ok pending
failed_status other = err (rpc_custom broadcast_tx_failure (rpc_error other))

poll_of : Result FinalExecutionOutcomeView JsonRpcError → Result (Poll ExecutionFinalResult) Error
unfolding failed_status
poll_of (ok view) = ok (ready (from_view view))
poll_of (err e) = failed_status e

module _ (lib : RetryLib) {W : Type 0} (call : Call W) where
  unfoldable pub status : TransactionStatus → Exec (Client W) (Poll ExecutionFinalResult) Error
  unfolding poll_of tx_async_status
  status self c =
      let (result, c') = tx_async_status lib call self.sender_id self.hash c in (poll_of result, c')

  -- One turn of the loop in `wait`: the poll's answer, and the further turns
  after_poll :
      Result (Poll ExecutionFinalResult) Error
      → Client W
      → (Client W → Option (Result ExecutionFinalResult Error × Client W))
      → Option (Result ExecutionFinalResult Error × Client W)
  after_poll (ok (ready val)) c again = some (ok val, c)
  after_poll (ok pending) c again = again c
  after_poll (err e) c again = some (err e, c)

  unfoldable pub wait :
      ℕ → TransactionStatus → Client W → Option (Result ExecutionFinalResult Error × Client W)
  unfolding after_poll
  wait zero self c = none
  wait (suc fuel) self c = let (result, c') = status self c in after_poll result c' (wait fuel self)
