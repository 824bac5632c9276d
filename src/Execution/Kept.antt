-- ===== src/Execution/Kept.antt =====
-- The accessors of `ExecutionFinalResult`, `ExecutionResult` and `Execution`, and the outcomes that a
-- conversion keeps (workspaces/src/result.rs).
use near_workspaces_rs.Prelude.{String, Bool, none, some, List, ◌≡◌, refl}
use near_workspaces_rs.Result.{Result, ok, err, MayPanic}
use near_workspaces_rs.Primitives.{FinalExecutionStatus}
use near_workspaces_rs.Outcome
use near_workspaces_rs.Outcome.{
  ExecutionOutcome, ExecutionDetails, ExecutionResult, ExecutionFailure,
}
use near_workspaces_rs.Execution
use near_workspaces_rs.Execution.{
  Base64, Execution, ExecutionFinalResult, ExecutionSuccess, into_result, unwrapped,
  execution_into_result,
}

-- `ExecutionDetails::outcome` and `receipt_outcomes`
unfoldable pub outcome : ExecutionDetails → ExecutionOutcome
outcome self = self.transaction

unfoldable pub receipt_outcomes : ExecutionDetails → List ExecutionOutcome
receipt_outcomes self = self.receipts

-- The accessors of `ExecutionFinalResult`
unfoldable pub final_outcome : ExecutionFinalResult → ExecutionOutcome
unfolding outcome
final_outcome self = outcome self.details

unfoldable pub final_outcomes : ExecutionFinalResult → List ExecutionOutcome
final_outcomes self = Outcome.outcomes self.details

unfoldable pub final_receipt_outcomes : ExecutionFinalResult → List ExecutionOutcome
unfolding receipt_outcomes
final_receipt_outcomes self = receipt_outcomes self.details

unfoldable pub final_failures : ExecutionFinalResult → List ExecutionOutcome
final_failures self = Outcome.failures self.details

unfoldable pub final_receipt_failures : ExecutionFinalResult → List ExecutionOutcome
final_receipt_failures self = Outcome.receipt_failures self.details

unfoldable pub final_logs : ExecutionFinalResult → List String
final_logs self = Outcome.logs self.details

-- The accessors of `ExecutionResult<T>`
module _ {T : Type 0} where
  unfoldable pub result_outcome : ExecutionResult T → ExecutionOutcome
  unfolding outcome
  result_outcome self = outcome self.details

  unfoldable pub result_outcomes : ExecutionResult T → List ExecutionOutcome
  result_outcomes self = Outcome.outcomes self.details

  unfoldable pub result_receipt_outcomes : ExecutionResult T → List ExecutionOutcome
  unfolding receipt_outcomes
  result_receipt_outcomes self = receipt_outcomes self.details

  unfoldable pub result_failures : ExecutionResult T → List ExecutionOutcome
  result_failures self = Outcome.failures self.details

  unfoldable pub result_receipt_failures : ExecutionResult T → List ExecutionOutcome
  result_receipt_failures self = Outcome.receipt_failures self.details

  unfoldable pub result_logs : ExecutionResult T → List String
  result_logs self = Outcome.logs self.details

-- The methods of `Execution<T>`
module _ {T : Type 0} where
  unfoldable pub execution_unwrap : Base64 → Execution T → MayPanic T
  execution_unwrap b64 self = unwrapped b64 (execution_into_result b64 self)

  unfoldable pub execution_is_success : Execution T → Bool
  execution_is_success self = Execution.is_success self.details

  unfoldable pub execution_is_failure : Execution T → Bool
  execution_is_failure self = Execution.is_failure self.details

-- What a success or a failure shows of the result that it was converted from
abbrev pub Shows : {T : Type 0} → ExecutionFinalResult → ExecutionResult T → Type 0
Shows r s =
    (s.total_gas_burnt ≡ r.total_gas_burnt)
    × (result_outcome s ≡ final_outcome r)
    × (result_outcomes s ≡ final_outcomes r)
    × (result_receipt_outcomes s ≡ final_receipt_outcomes r)
    × (result_failures s ≡ final_failures r)
    × (result_receipt_failures s ≡ final_receipt_failures r)
    × (result_logs s ≡ final_logs r)

abbrev pub ShowsEither :
    ExecutionFinalResult → MayPanic (Result ExecutionSuccess ExecutionFailure) → Type 0
ShowsEither r none = Unit {0}
ShowsEither r (some (ok s)) = Shows r s
ShowsEither r (some (err e)) = Shows r e

-- The success or failure that a final result is converted into shows the same gas, outcomes, failures
-- and logs as the final result.
pub into_result_keeps :
    (b64 : Base64) (r : ExecutionFinalResult) → ShowsEither r (into_result b64 r)
unfolding into_result result_outcome result_outcomes result_receipt_outcomes result_failures
    result_receipt_failures result_logs final_outcome final_outcomes final_receipt_outcomes
    final_failures final_receipt_failures final_logs
into_result_keeps b64 r = from r.status
  where
    from :
        (status : FinalExecutionStatus)
        → ShowsEither r (Execution.from_status b64 status r.total_gas_burnt r.details)
    from (FinalExecutionStatus.success_value v) = (refl, refl, refl, refl, refl, refl, refl)
    from (FinalExecutionStatus.failure e) = (refl, refl, refl, refl, refl, refl, refl)
    from _ = tt
