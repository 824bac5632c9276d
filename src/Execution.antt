-- ===== src/Execution.antt =====
-- workspaces/src/result.rs: the final result of a transaction, its conversions and its values.
-- `unreachable!()` and `unwrap` on an error are panics. Sums of gas wrap at 64 bits.
pub mod Gas
pub mod Values
pub mod Statuses
pub mod Kept
pub mod Success
use near_workspaces_rs.Prelude.{
  ℕ, ◌+◌, ◌%◌, ◌≡◌, String, Bool, true, false, Option, none, some, List, [], ◌∷◌, map, ◌==◌, ◌&&◌,
  if◌then◌else◌, string_eq,
}
use near_workspaces_rs.Result
use near_workspaces_rs.Result.{Result, ok, err, MayPanic, and_then}
use near_workspaces_rs.Primitives.{
  Bytes, TxExecutionError, u64_mod, FinalExecutionStatus, ExecutionStatusView,
  FinalExecutionOutcomeView, ExecutionOutcomeWithIdView, CallResult,
}
use near_workspaces_rs.Outcome.{
  ExecutionOutcome, ExecutionDetails, ExecutionResult, ExecutionFailure, outcome_from_view,
}
use near_workspaces_rs.Error.{
  Error, ErrorKind, BoxedError, text, tx_error, kind, custom, message, data_conversion, execution,
  error_from_failure,
}

-- The base64 engine of the crate base64, `general_purpose::STANDARD`.
pub record Base64 : Type 0 where
  pub encode : Bytes → String
  pub decode : String → Result Bytes BoxedError
  pub decode-encode : (b : Bytes) → decode (encode b) ≡ ok b
  pub encode-nil : encode [] ≡ ""

pub record Value : Type 0 where
  pub repr : String

abbrev pub ExecutionSuccess : Type 0
ExecutionSuccess = ExecutionResult Value

pub record ExecutionFinalResult : Type 0 where
  pub total_gas_burnt : ℕ
  pub status : FinalExecutionStatus
  pub details : ExecutionDetails

pub record Execution (T : Type 0) : Type 0 where
  pub result : T
  pub details : ExecutionFinalResult

pub data ValueOrReceiptId : Type 0 where
  value : Value → ValueOrReceiptId
  receipt_id : Bytes → ValueOrReceiptId

-- `*err.kind() == ErrorKind::DataConversion`
abbrev is_data_conversion : ErrorKind → Bool
is_data_conversion data_conversion = true
is_data_conversion _ = false

abbrev wrapping_add : ℕ → ℕ → ℕ
wrapping_add a b = (a + b) % u64_mod

-- `.map(|t| t.outcome.gas_burnt).sum::<u64>()`, from the accumulator given
unfoldable pub sum_gas : ℕ → List ExecutionOutcomeWithIdView → ℕ
sum_gas acc [] = acc
sum_gas acc (t ∷ ts) = sum_gas (wrapping_add acc t.outcome.gas_burnt) ts

unfoldable pub total_gas : FinalExecutionOutcomeView → ℕ
unfolding sum_gas
total_gas view =
    wrapping_add view.transaction_outcome.outcome.gas_burnt (sum_gas 0 view.receipts_outcome)

unfoldable pub from_view : FinalExecutionOutcomeView → ExecutionFinalResult
unfolding total_gas
from_view view = record {
  total_gas_burnt = total_gas view;
  status = view.status;
  details = record {
    transaction = outcome_from_view view.transaction_outcome;
    receipts = map outcome_from_view view.receipts_outcome;
  };
}

abbrev is_success_value : FinalExecutionStatus → Bool
is_success_value (FinalExecutionStatus.success_value v) = true
is_success_value _ = false

abbrev is_failure_value : FinalExecutionStatus → Bool
is_failure_value (FinalExecutionStatus.failure e) = true
is_failure_value _ = false

unfoldable pub is_success : ExecutionFinalResult → Bool
is_success r = is_success_value r.status

unfoldable pub is_failure : ExecutionFinalResult → Bool
is_failure r = is_failure_value r.status

-- The error that `json` puts in the place of a parser's error on an empty value.
abbrev pub empty_message : Error
unfolding custom
empty_message =
    custom data_conversion
      (text "the function call returned an empty value, which cannot be parsed as JSON")

module _ (b64 : Base64) where
  from_status :
      FinalExecutionStatus
      → ℕ
      → ExecutionDetails
      → MayPanic (Result ExecutionSuccess ExecutionFailure)
  from_status (FinalExecutionStatus.success_value v) gas details = some (
      ok (record {
        total_gas_burnt = gas;
        value = record { repr = b64.encode v };
        details = details;
      }))
  from_status (FinalExecutionStatus.failure e) gas details =
      some (err (record { total_gas_burnt = gas; value = e; details = details }))
  from_status _ gas details = none

  -- `ExecutionFinalResult::into_result`
  unfoldable pub into_result :
      ExecutionFinalResult → MayPanic (Result ExecutionSuccess ExecutionFailure)
  unfolding from_status
  into_result r = from_status r.status r.total_gas_burnt r.details

  -- `Result::unwrap`
  abbrev unwrapped {ℓ} : {A E : Type ℓ} → MayPanic (Result A E) → MayPanic A
  unwrapped none = none
  unwrapped (some (ok a)) = some a
  unwrapped (some (err e)) = none

  unfoldable pub unwrap : ExecutionFinalResult → MayPanic ExecutionSuccess
  unwrap r = unwrapped (into_result r)

  -- `Value::raw_bytes`
  unfoldable pub value_raw_bytes : Value → Result Bytes Error
  unfolding custom
  value_raw_bytes v = Result.map_err (custom data_conversion) (b64.decode v.repr)

  -- `?` on `into_result` and then a conversion; `?` turns the failure into an `Error`.
  abbrev then_convert :
      {T : Type 0}
      → MayPanic (Result ExecutionSuccess ExecutionFailure)
      → (ExecutionSuccess → Result T Error)
      → MayPanic (Result T Error)
  then_convert none f = none
  then_convert (some r) f = some (and_then (Result.map_err error_from_failure r) f)

  unfoldable pub raw_bytes : ExecutionFinalResult → MayPanic (Result Bytes Error)
  raw_bytes r = then_convert (into_result r) (λ s. value_raw_bytes s.value)

  -- `Execution::into_result`
  abbrev keep_result :
      {T : Type 0}
      → T
      → MayPanic (Result ExecutionSuccess ExecutionFailure)
      → MayPanic (Result T ExecutionFailure)
  keep_result a none = none
  keep_result a (some r) = some (Result.map (λ _. a) r)

  unfoldable pub execution_into_result :
      {T : Type 0} → Execution T → MayPanic (Result T ExecutionFailure)
  execution_into_result e = keep_result e.result (into_result e.details)

  -- `ExecutionOutcome::into_result`
  outcome_result : ExecutionStatusView → Result ValueOrReceiptId Error
  unfolding custom message
  outcome_result (ExecutionStatusView.success_value v) = ok (value (record { repr = b64.encode v }))
  outcome_result (ExecutionStatusView.success_receipt_id h) = ok (receipt_id h)
  outcome_result (ExecutionStatusView.failure e) = err (custom execution (tx_error e))
  outcome_result ExecutionStatusView.unknown =
      err (message execution "Execution pending or unknown")

  unfoldable pub outcome_into_result : ExecutionOutcome → Result ValueOrReceiptId Error
  unfolding outcome_result
  outcome_into_result o = outcome_result o.status

  -- The two conversions of bytes, serde_json::from_slice and borsh's try_from_slice, are parameters.
  module _ {T : Type 0} (from_slice : Bytes → Result T BoxedError) where
    -- `Value::json` and `Value::borsh`
    unfoldable pub value_parsed : Value → Result T Error
    unfolding value_raw_bytes
    value_parsed v =
        and_then (value_raw_bytes v)
          (λ buf. Result.map_err (custom data_conversion) (from_slice buf))

    clearer_error : Value → Result T Error → Result T Error
    unfolding kind
    clearer_error v (ok a) = ok a
    clearer_error v (err e) =
        if is_data_conversion (kind e) && v.repr == "" then err empty_message else err e

    unfoldable pub json : ExecutionFinalResult → MayPanic (Result T Error)
    unfolding value_parsed clearer_error
    json r = then_convert (into_result r) (λ s. clearer_error s.value (value_parsed s.value))

    unfoldable pub borsh : ExecutionFinalResult → MayPanic (Result T Error)
    unfolding value_parsed
    borsh r = then_convert (into_result r) (λ s. value_parsed s.value)

pub record ViewResultDetails : Type 0 where
  pub result : Bytes
  pub logs : List String

-- `From<CallResult>`
unfoldable pub view_result_from_call : CallResult → ViewResultDetails
view_result_from_call r = record { result = r.result; logs = r.logs }

-- `ViewResultDetails::json` and `borsh`
unfoldable pub view_parsed :
    {T : Type 0} → (Bytes → Result T BoxedError) → ViewResultDetails → Result T Error
unfolding custom
view_parsed from_slice v = Result.map_err (custom data_conversion) (from_slice v.result)
