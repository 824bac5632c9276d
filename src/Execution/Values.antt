-- ===== src/Execution/Values.antt =====
-- The bytes, and the errors, that a final result converts to (workspaces/src/result.rs).
use near_workspaces_rs.Prelude.{◌≡◌, ◌↔◌, true, some, [], ◌∷◌, arith, string_eq, ◌==◌}
use near_workspaces_rs.Result.{Result, ok, err}
use near_workspaces_rs.Primitives.{Bytes, FinalExecutionStatus}
use near_workspaces_rs.Error.{Error, BoxedError, custom, data_conversion}
use near_workspaces_rs.Execution.{
  Base64, ExecutionFinalResult, into_result, raw_bytes, value_raw_bytes, json, empty_message,
}

module _ (b64 : Base64) where
  empty_of_encode : (v : Bytes) → b64.encode v ≡ "" → v ≡ []
  empty_of_encode v e = cc (b64.decode-encode v, b64.decode-encode [], b64.encode-nil)

  encode-is_empty : (v : Bytes) → ((b64.encode v == "") ≡ true) ↔ (v ≡ [])
  encode-is_empty v = (
    λ h. empty_of_encode v ((string_eq.eq_iff (b64.encode v) "").0 h),
    λ e. (string_eq.eq_iff (b64.encode v) "").1 (rw e b64.encode-nil),
  )

  -- The bytes of a successful result are those that the network returned.
  pub raw_bytes-success_value :
      (r : ExecutionFinalResult) (v : Bytes)
      → r.status ≡ FinalExecutionStatus.success_value v
      → raw_bytes b64 r ≡ some (ok v)
  unfolding raw_bytes into_result value_raw_bytes
  raw_bytes-success_value r v e = rw (e, into_result) (rw (b64.decode-encode v))

  -- What `json` makes of the bytes and of the parser's answer.
  abbrev pub parsed_or_message : {T : Type 0} → Bytes → Result T BoxedError → Result T Error
  parsed_or_message v (ok a) = ok a
  parsed_or_message [] (err e) = err empty_message
  parsed_or_message (x ∷ v) (err e) = err (custom data_conversion e)

  -- For a successful result, `json` parses the bytes that the network returned. If that fails,
  -- the error is the parser's, except for empty bytes, where it is the message on empty values.
  pub json-success_value :
      {T : Type 0} (from_slice : Bytes → Result T BoxedError) (r : ExecutionFinalResult) (v : Bytes)
      → r.status ≡ FinalExecutionStatus.success_value v
      → json b64 from_slice r ≡ some (parsed_or_message v (from_slice v))
  unfolding json into_result custom
  json-success_value from_slice r v s =
      rw (s, into_result) (rw (b64.decode-encode v) (ground (arith, encode-is_empty v)))
