-- ===== src/Error/Shown.antt =====
-- `Display` and `source` of errors (workspaces/src/error/mod.rs, impls.rs and execution.rs), which
-- thiserror derives from the attributes. The texts of the errors of other crates are parameters.
use near_workspaces_rs.Prelude.{String, Option, none, some, ◌≡◌, refl, ap, ◌⊎◌, inl, inr}
use near_workspaces_rs.Result.{Result, ok}
use near_workspaces_rs.Primitives.{TxExecutionError}
use near_workspaces_rs.Primitives.Rpc.{JsonRpcError}
use near_workspaces_rs.Outcome.{ExecutionFailure}
use near_workspaces_rs.Error.{
  SandboxErrorCode, already_started, init_failure, run_failure, patch_state_failure,
  fast_forward_failure, RpcErrorCode, helper_account_creation_failure, connection_failure,
  unable_to_retrieve_access_key, broadcast_tx_failure, view_function_failure, query_failure,
  query_returned_invalid_data, ErrorKind, rpc, execution, sandbox, io, data_conversion, other,
  BoxedError, text, rpc_error, tx_error, failed_execution, boxed_error, ErrorRepr, simple_repr,
  message_repr, custom_repr, full_repr, detailed_repr, Error, into_inner,
}

sandbox_code_text : SandboxErrorCode → String
sandbox_code_text already_started = "Sandbox has already been started"
sandbox_code_text init_failure = "Could not initialize sandbox node"
sandbox_code_text run_failure = "Could not startup and run sandbox node"
sandbox_code_text patch_state_failure = "Sandbox failed to patch state"
sandbox_code_text fast_forward_failure = "Sandbox failed to fast forward"

rpc_code_text : RpcErrorCode → String
rpc_code_text helper_account_creation_failure = "unable to create a new account via helper"
rpc_code_text connection_failure = "failed to connect to rpc service"
rpc_code_text unable_to_retrieve_access_key = "access key was unable to be retrieved"
rpc_code_text broadcast_tx_failure = "unable to broadcast the transaction to the network"
rpc_code_text view_function_failure = "unable to call into a view function"
rpc_code_text query_failure = "unable to fulfill the query request"
rpc_code_text query_returned_invalid_data =
    "incorrect variant retrieved while querying (maybe a bug in RPC code?)"

kind_text : ErrorKind → String
unfolding sandbox_code_text rpc_code_text
kind_text (rpc code) = rpc_code_text code
kind_text execution = "Execution"
kind_text (sandbox code) = sandbox_code_text code
kind_text io = "IO"
kind_text data_conversion = "DataConversion"
kind_text other = "Other"

source_repr : ErrorRepr → Option BoxedError
source_repr (custom_repr k error) = some error
source_repr (full_repr k message error) = some error
source_repr r = none

-- `std::error::Error::source`
unfoldable pub source : Error → Option BoxedError
unfolding source_repr
source self = source_repr self.repr

module _ (tx_text : TxExecutionError → String) (rpc_text : JsonRpcError → String) where
  -- `impl fmt::Display for ExecutionFailure`
  failure_text : ExecutionFailure → String
  failure_text self = tx_text self.value

  repr_text : ErrorRepr → String
  unfolding kind_text failure_text
  repr_text (simple_repr k) = kind_text k
  repr_text (message_repr k message) = message
  repr_text (custom_repr k error) = kind_text k
  repr_text (full_repr k message error) = message
  repr_text (detailed_repr k error) = failure_text error

  boxed_text : BoxedError → String
  unfolding failure_text repr_text
  boxed_text (text s) = s
  boxed_text (rpc_error e) = rpc_text e
  boxed_text (tx_error e) = tx_text e
  boxed_text (failed_execution e) = failure_text e
  boxed_text (boxed_error e) = repr_text e

  -- `impl fmt::Display for Error`
  unfoldable display : Error → String
  unfolding repr_text
  display self = repr_text self.repr

  -- If an error has a source, that is its inner error. If it has an inner error, then that is its source,
  -- or else the error has no source and is displayed as the inner error is.
  inner-source :
      (e : Error) (inner : BoxedError)
      → into_inner e ≡ ok inner
      → (source e ≡ some inner) ⊎ ((source e ≡ none) × (display e ≡ boxed_text inner))
  unfolding into_inner source display boxed_text
  inner-source e inner h = from e.repr h
    where
      inner_of : (x : BoxedError) → ◌≡◌ {A = Result BoxedError Error} (ok x) (ok inner) → x ≡ inner
      inner_of x h = cc

      from :
          (r : ErrorRepr)
          → (into_inner (record { repr = r })) ≡ ok inner
          → (source_repr r ≡ some inner)
            ⊎ ((source_repr r ≡ none) × (repr_text r ≡ boxed_text inner))
      from (simple_repr k) h = absurd (cc)
      from (message_repr k m) h = absurd (cc)
      from (custom_repr k x) h = inl (ap some (inner_of x h))
      from (full_repr k m x) h = inl (ap some (inner_of x h))
      from (detailed_repr k x) h = inr (refl, ap boxed_text (inner_of (failed_execution x) h))
