-- ===== src/Execution/Success.antt =====
-- `ExecutionSuccess` (workspaces/src/result.rs): reading the value of a result that succeeded.
use near_workspaces_rs.Prelude.{◌≡◌, refl, false, some, string_eq, ◌==◌, arith}
use near_workspaces_rs.Result.{Result, ok, err, MayPanic}
use near_workspaces_rs.Primitives.{Bytes}
use near_workspaces_rs.Error.{Error, BoxedError}
use near_workspaces_rs.Execution.{
  Base64, ExecutionSuccess, ExecutionFinalResult, into_result, value_raw_bytes, value_parsed, json,
  borsh, raw_bytes, clearer_error,
}

module _ (b64 : Base64) where
  unfoldable success_raw_bytes : ExecutionSuccess → Result Bytes Error
  success_raw_bytes self = value_raw_bytes b64 self.value

  module _ {T : Type 0} (from_slice : Bytes → Result T BoxedError) where
    unfoldable success_json : ExecutionSuccess → Result T Error
    success_json self = value_parsed b64 from_slice self.value

    unfoldable success_borsh : ExecutionSuccess → Result T Error
    success_borsh self = value_parsed b64 from_slice self.value

    -- The conversions of a final result are those of its success, except that `json` has another error
    -- for a value that is empty.
    final-success :
        (r : ExecutionFinalResult) (s : ExecutionSuccess)
        → into_result b64 r ≡ some (ok s)
        → (raw_bytes b64 r ≡ some (success_raw_bytes s))
          × (borsh b64 from_slice r ≡ some (success_borsh s))
          × ((s.value.repr == "") ≡ false → json b64 from_slice r ≡ some (success_json s))
    unfolding raw_bytes borsh json success_raw_bytes success_borsh success_json clearer_error
    final-success r s e =
        (rw e refl, rw e refl, λ full. rw e (same (value_parsed b64 from_slice s.value) full))
      where
        same :
            (v : Result T Error)
            → (s.value.repr == "") ≡ false
            → ◌≡◌ {A = MayPanic (Result T Error)}
                (some (clearer_error b64 from_slice s.value v))
                (some v)
        same (ok a) full = refl
        same (err x) full = ground arith
