-- ===== src/Error.antt =====
-- workspaces/src/error/mod.rs, error/impls.rs and error/execution.rs.
pub mod Shown
use near_workspaces_rs.Prelude.{String}
use near_workspaces_rs.Result.{Result, ok, err}
use near_workspaces_rs.Primitives.{TxExecutionError}
use near_workspaces_rs.Primitives.Rpc.{JsonRpcError}
use near_workspaces_rs.Outcome.{ExecutionFailure}

pub data SandboxErrorCode : Type 0 where
  already_started init_failure run_failure patch_state_failure fast_forward_failure :
      SandboxErrorCode

pub data RpcErrorCode : Type 0 where
  helper_account_creation_failure connection_failure unable_to_retrieve_access_key
        broadcast_tx_failure view_function_failure query_failure query_returned_invalid_data :
      RpcErrorCode

pub data ErrorKind : Type 0 where
  rpc : RpcErrorCode → ErrorKind
  execution : ErrorKind
  sandbox : SandboxErrorCode → ErrorKind
  io : ErrorKind
  data_conversion : ErrorKind
  other : ErrorKind

-- `Box<dyn std::error::Error>`: what this crate boxes. An `Error` is boxed by its `repr`.
mutual
  pub data BoxedError : Type 0 where
    text : String → BoxedError
    rpc_error : JsonRpcError → BoxedError
    tx_error : TxExecutionError → BoxedError
    failed_execution : ExecutionFailure → BoxedError
    boxed_error : ErrorRepr → BoxedError

  pub data ErrorRepr : Type 0 where
    simple_repr : ErrorKind → ErrorRepr
    message_repr : ErrorKind → String → ErrorRepr
    custom_repr : ErrorKind → BoxedError → ErrorRepr
    full_repr : ErrorKind → String → BoxedError → ErrorRepr
    detailed_repr : ErrorKind → ExecutionFailure → ErrorRepr

pub record Error : Type 0 where
  pub repr : ErrorRepr

unfoldable pub detailed : ErrorKind → ExecutionFailure → Error
detailed k e = record { repr = detailed_repr k e }

unfoldable pub full : ErrorKind → String → BoxedError → Error
full k msg e = record { repr = full_repr k msg e }

unfoldable pub custom : ErrorKind → BoxedError → Error
custom k e = record { repr = custom_repr k e }

unfoldable pub message : ErrorKind → String → Error
message k msg = record { repr = message_repr k msg }

unfoldable pub simple : ErrorKind → Error
simple k = record { repr = simple_repr k }

kind_repr : ErrorRepr → ErrorKind
kind_repr (simple_repr k) = k
kind_repr (message_repr k m) = k
kind_repr (custom_repr k e) = k
kind_repr (full_repr k m e) = k
kind_repr (detailed_repr k e) = k

unfoldable pub kind : Error → ErrorKind
unfolding kind_repr
kind e = kind_repr e.repr

inner_repr : ErrorRepr → Result BoxedError Error
inner_repr (custom_repr k e) = ok e
inner_repr (full_repr k m e) = ok e
inner_repr (detailed_repr k e) = ok (failed_execution e)
inner_repr r = err (record { repr = r })

unfoldable pub into_inner : Error → Result BoxedError Error
unfolding inner_repr
into_inner e = inner_repr e.repr

-- `From<ExecutionFailure> for Error`
unfoldable pub error_from_failure : ExecutionFailure → Error
unfolding detailed
error_from_failure e = detailed execution e

-- `RpcErrorCode::custom`, `RpcErrorCode::message`, `SandboxErrorCode::custom`
unfoldable pub rpc_custom : RpcErrorCode → BoxedError → Error
unfolding custom
rpc_custom c e = custom (rpc c) e

unfoldable pub rpc_message : RpcErrorCode → String → Error
unfolding message
rpc_message c m = message (rpc c) m

unfoldable pub sandbox_custom : SandboxErrorCode → BoxedError → Error
unfolding custom
sandbox_custom c e = custom (sandbox c) e

unfoldable pub sandbox_message : SandboxErrorCode → String → Error
unfolding message
sandbox_message c m = message (sandbox c) m

-- `SandboxErrorCode::full`
unfoldable sandbox_full : SandboxErrorCode → String → BoxedError → Error
unfolding full
sandbox_full c m e = full (sandbox c) m e

-- `From<SandboxErrorCode>`, `From<RpcErrorCode>`
unfoldable error_from_sandbox_code : SandboxErrorCode → Error
unfolding simple
error_from_sandbox_code c = simple (sandbox c)

unfoldable error_from_rpc_code : RpcErrorCode → Error
unfolding simple
error_from_rpc_code c = simple (rpc c)
