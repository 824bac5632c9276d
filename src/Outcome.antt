-- ===== src/Outcome.antt =====
-- The data of workspaces/src/result.rs: `ExecutionOutcome`, `ExecutionDetails` and
-- `ExecutionResult`, with the accessors that need no error.
pub mod Failures
use near_workspaces_rs.Prelude.{
  ℕ, String, Bool, true, false, List, [], ◌∷◌, ◌++◌, map, if◌then◌else◌,
}
use near_workspaces_rs.Primitives.{
  AccountId, Bytes, TxExecutionError, ExecutionStatusView, ExecutionOutcomeWithIdView,
}

pub record ExecutionOutcome : Type 0 where
  pub transaction_hash : Bytes
  pub block_hash : Bytes
  pub logs : List String
  pub receipt_ids : List Bytes
  pub gas_burnt : ℕ
  pub tokens_burnt : ℕ
  pub executor_id : AccountId
  pub status : ExecutionStatusView

pub record ExecutionDetails : Type 0 where
  pub transaction : ExecutionOutcome
  pub receipts : List ExecutionOutcome

pub record ExecutionResult (T : Type 0) : Type 0 where
  pub total_gas_burnt : ℕ
  pub value : T
  pub details : ExecutionDetails

abbrev pub ExecutionFailure : Type 0
ExecutionFailure = ExecutionResult TxExecutionError

-- `From<ExecutionOutcomeWithIdView>`; `CryptoHash`, `NearGas` and `NearToken` wrap their contents.
unfoldable pub outcome_from_view : ExecutionOutcomeWithIdView → ExecutionOutcome
outcome_from_view view = record {
  transaction_hash = view.id;
  block_hash = view.block_hash;
  logs = view.outcome.logs;
  receipt_ids = view.outcome.receipt_ids;
  gas_burnt = view.outcome.gas_burnt;
  tokens_burnt = view.outcome.tokens_burnt;
  executor_id = view.outcome.executor_id;
  status = view.outcome.status;
}

-- `matches!(status, ExecutionStatusView::Failure(_))`
abbrev pub is_failure_status : ExecutionStatusView → Bool
is_failure_status (ExecutionStatusView.failure e) = true
is_failure_status _ = false

abbrev is_success_status : ExecutionStatusView → Bool
is_success_status (ExecutionStatusView.success_value v) = true
is_success_status (ExecutionStatusView.success_receipt_id h) = true
is_success_status _ = false

abbrev is_failed_or_unknown : ExecutionStatusView → Bool
is_failed_or_unknown (ExecutionStatusView.failure e) = true
is_failed_or_unknown ExecutionStatusView.unknown = true
is_failed_or_unknown _ = false

-- `ExecutionOutcome::is_success` and `is_failure`
unfoldable pub is_success : ExecutionOutcome → Bool
is_success o = is_success_status o.status

unfoldable pub is_failure : ExecutionOutcome → Bool
is_failure o = is_failed_or_unknown o.status

unfoldable pub outcomes : ExecutionDetails → List ExecutionOutcome
outcomes d = d.transaction ∷ [] ++ d.receipts

-- `.iter().filter(…).collect()`
failed : List ExecutionOutcome → List ExecutionOutcome
failed [] = []
failed (o ∷ os) = let rest = failed os in if is_failure_status o.status then o ∷ rest else rest

unfoldable pub receipt_failures : ExecutionDetails → List ExecutionOutcome
unfolding failed
receipt_failures d = failed d.receipts

unfoldable pub failures : ExecutionDetails → List ExecutionOutcome
unfolding receipt_failures
failures d =
    (if is_failure_status d.transaction.status then d.transaction ∷ [] else [])
    ++ receipt_failures d

-- `.iter().flat_map(|outcome| &outcome.logs)`
flat_logs : List ExecutionOutcome → List String
flat_logs [] = []
flat_logs (o ∷ os) = o.logs ++ flat_logs os

unfoldable pub logs : ExecutionDetails → List String
unfolding flat_logs outcomes
logs d = flat_logs (outcomes d)
