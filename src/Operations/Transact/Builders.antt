-- ===== src/Operations/Transact/Builders.antt =====
-- The builders of `CallTransaction` and `CreateAccountTransaction`, and `CallTransaction::view`
-- (workspaces/src/operations.rs).
use near_workspaces_rs.Prelude.{ℕ, some}
use near_workspaces_rs.Result.{Result, Exec}
use near_workspaces_rs.Primitives.{SecretKey, Bytes, BlockReference}
use near_workspaces_rs.Primitives.Rpc.{Call}
use near_workspaces_rs.Error.{Error, BoxedError}
use near_workspaces_rs.Execution.{ViewResultDetails}
use near_workspaces_rs.Client.Retry.{RetryLib}
use near_workspaces_rs.Client.{Client}
use near_workspaces_rs.Operations.Function as FunctionOps
use near_workspaces_rs.Operations.Transact.{CallTransaction, CreateAccountTransaction}
use near_workspaces_rs.Query
use near_workspaces_rs.Query.Kinds.{view_function}

unfoldable pub call_args : CallTransaction → Bytes → CallTransaction
call_args self bytes = record self { function = FunctionOps.args self.function bytes }

module _ {U : Type 0} (to_vec : U → Result Bytes BoxedError) where
  unfoldable pub call_args_json : CallTransaction → U → CallTransaction
  call_args_json self value = record self {
    function = FunctionOps.args_json to_vec self.function value;
  }

  unfoldable pub call_args_borsh : CallTransaction → U → CallTransaction
  call_args_borsh self value = record self {
    function = FunctionOps.args_borsh to_vec self.function value;
  }

unfoldable pub call_deposit : CallTransaction → ℕ → CallTransaction
call_deposit self deposit = record self { function = FunctionOps.set_deposit self.function deposit }

unfoldable pub call_gas : CallTransaction → ℕ → CallTransaction
call_gas self gas = record self { function = FunctionOps.set_gas self.function gas }

unfoldable pub call_max_gas : CallTransaction → CallTransaction
call_max_gas self = record self { function = FunctionOps.use_max_gas self.function }

-- `CallTransaction::view`: the same function, not sent as a transaction
unfoldable pub call_view :
    (lib : RetryLib) {W : Type 0} (call : Call W) (latest : BlockReference)
    → CallTransaction
    → Exec (Client W) ViewResultDetails Error
call_view lib call latest self =
    Query.run lib call latest view_function
      (Query.new (record { account_id = self.contract_id; function = self.function }))

-- `CreateAccountTransaction::initial_balance` and `keys`
unfoldable pub create_initial_balance : CreateAccountTransaction → ℕ → CreateAccountTransaction
create_initial_balance self initial_balance = record self { initial_balance = initial_balance }

unfoldable pub create_keys : CreateAccountTransaction → SecretKey → CreateAccountTransaction
create_keys self secret_key = record self { secret_key = some secret_key }
