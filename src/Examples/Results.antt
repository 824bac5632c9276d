-- ===== src/Examples/Results.antt =====
-- Execution results, hashes, keys, patches and gas meters on sample data.
use mathlib.Core.List.{Sublist, Mem}
use near_workspaces_rs.Prelude.{ℕ, ◌≡◌, ◌↔◌, refl, true, String, none, some, [], ◌∷◌, ◌++◌, arith}
use near_workspaces_rs.Result.{Result, ok, err}
use near_workspaces_rs.Primitives.{Bytes}
use near_workspaces_rs.Error.{BoxedError, text, custom, data_conversion}
use near_workspaces_rs.Outcome
use near_workspaces_rs.Outcome.{
  ExecutionOutcome, ExecutionDetails, outcomes, failures, receipt_failures, is_failure_status,
}
use near_workspaces_rs.Outcome.Failures.{failures_exactly}
use near_workspaces_rs.Execution
use near_workspaces_rs.Execution.{
  ExecutionFinalResult, from_view, into_result, raw_bytes, json, outcome_into_result,
}
use near_workspaces_rs.Execution.Gas.{gas_of_details, total_gas_exact}
use near_workspaces_rs.Execution.Values.{json-success_value}
use near_workspaces_rs.Execution.Statuses.{returns_ok, returns_err, into_result_by_status}
use near_workspaces_rs.Types.{zero_hash}
use near_workspaces_rs.Types.Keys.{serialize, deserialize_reader, deserialize_reader-serialize}
use near_workspaces_rs.Account.{AccountDetailsPatch, AccountDetails, details_from_view}
use near_workspaces_rs.Examples.{executed, account_view}
use near_workspaces_rs.Examples.Codes.{b64, codec}

total_gas_exact_example :
    (from_view executed).total_gas_burnt ≡ gas_of_details (from_view executed).details
unfolding from_view Outcome.outcomes Outcome.outcome_from_view
total_gas_exact_example = total_gas_exact executed (omega arith)

abbrev no_parser : Bytes → Result ℕ BoxedError
no_parser v = err (text "not JSON")

json-success_value_example :
    json b64 no_parser (from_view executed) ≡ some (err (custom data_conversion (text "not JSON")))
unfolding from_view
json-success_value_example = json-success_value b64 no_parser (from_view executed) (1 ∷ 2 ∷ []) refl

into_result_by_status_example :
    (returns_ok (into_result b64 (from_view executed)) ≡ Execution.is_success (from_view executed))
    × (returns_err (into_result b64 (from_view executed))
        ≡ Execution.is_failure (from_view executed))
into_result_by_status_example = into_result_by_status b64 (from_view executed)

abbrev details : ExecutionDetails
details = (from_view executed).details

failures_exactly_example :
    Sublist (failures details) (outcomes details)
    × (Mem details.transaction (failures details) ↔ (
        Mem details.transaction (outcomes details)
        × (is_failure_status details.transaction.status ≡ true)))
failures_exactly_example = failures_exactly details details.transaction

abbrev decoded : String → Result Bytes BoxedError
decoded s = ok zero_hash

deserialize_reader-serialize_example :
    deserialize_reader codec (serialize codec 7 ++ (9 ∷ [])) ≡ ok (7, 9 ∷ [])
deserialize_reader-serialize_example = deserialize_reader-serialize codec 7 (9 ∷ []) (omega arith)

abbrev richer : AccountDetailsPatch
richer = record {
  balance = some 900;
  locked = none;
  code_hash = none;
  storage_usage = none;
  storage_paid_at = none;
}

abbrev read_details : AccountDetails
read_details = details_from_view account_view
