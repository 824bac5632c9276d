-- ===== src/Execution/Statuses.antt =====
-- The status tests against the conversions into a `Result` (workspaces/src/result.rs).
use near_workspaces_rs.Prelude.{◌≡◌, Bool, true, false, not, some, arith}
use near_workspaces_rs.Result.{Result, ok, err, MayPanic, is_err}
use near_workspaces_rs.Outcome
use near_workspaces_rs.Outcome.{ExecutionOutcome, ExecutionDetails}
use near_workspaces_rs.Execution.{
  Base64, ExecutionFinalResult, is_success, is_failure, into_result, outcome_into_result,
}

abbrev pub returns_ok {ℓ} : {A E : Type ℓ} → MayPanic (Result A E) → Bool
returns_ok (some (ok a)) = true
returns_ok _ = false

abbrev pub returns_err {ℓ} : {A E : Type ℓ} → MayPanic (Result A E) → Bool
returns_err (some (err e)) = true
returns_err _ = false

module _ (b64 : Base64) where
  -- `into_result` returns `Ok` exactly for the results that `is_success` accepts and `Err` exactly
  -- for those that `is_failure` accepts; it panics on the others, which both tests refuse.
  pub into_result_by_status :
      (r : ExecutionFinalResult)
      → (returns_ok (into_result b64 r) ≡ is_success r)
        × (returns_err (into_result b64 r) ≡ is_failure r)
  unfolding into_result is_success is_failure
  into_result_by_status r = ground arith

  -- An outcome of a transaction or receipt is a success exactly if it is no failure, and exactly if
  -- its conversion into a result returns `Ok`.
  pub outcome_into_result_by_status :
      (o : ExecutionOutcome)
      → (Outcome.is_failure o ≡ not (Outcome.is_success o))
        × (is_err (outcome_into_result b64 o) ≡ Outcome.is_failure o)
  unfolding outcome_into_result Outcome.is_success Outcome.is_failure
  outcome_into_result_by_status o = ground arith
