-- ===== src/Operations/Batch.antt =====
-- The builder `Transaction` of workspaces/src/operations.rs, less its worker. An error in the
-- arguments of a call is kept in the place of the actions until the transaction is sent.
pub mod Deferred
use near_workspaces_rs.Prelude.{ℕ, List, [], ◌∷◌, ◌++◌}
use near_workspaces_rs.Result.{Result, ok, err}
use near_workspaces_rs.Primitives
use near_workspaces_rs.Primitives.{AccountId, PublicKey, Bytes, Action}
use near_workspaces_rs.Error.{Error}
use near_workspaces_rs.Types.{AccessKey, InMemorySigner, access_key_into_near}
use near_workspaces_rs.Operations.Function.{Function}

pub record Transaction : Type 0 where
  pub signer : InMemorySigner
  pub receiver_id : AccountId
  pub actions : Result (List Action) Error

unfoldable pub new : InMemorySigner → AccountId → Transaction
new signer receiver_id = record { signer = signer; receiver_id = receiver_id; actions = ok [] }

-- `if let Ok(actions) = &mut self.actions { actions.push(action) }`
abbrev pushed : Result (List Action) Error → Action → Result (List Action) Error
pushed (ok actions) action = ok (actions ++ action ∷ [])
pushed (err e) action = err e

push : Transaction → Action → Transaction
push self action = record self { actions = pushed self.actions action }

unfoldable pub add_key : Transaction → PublicKey → AccessKey → Transaction
unfolding push access_key_into_near
add_key self pk ak = push self (Action.add_key pk (access_key_into_near ak))

-- The match on `function.args` in `call`
call_with : Transaction → Function → Result Bytes Error → Transaction
unfolding push
call_with self function (ok args) =
    push self (Action.function_call function.name args function.deposit function.gas)
call_with self function (err e) = record self { actions = err e }

unfoldable pub call : Transaction → Function → Transaction
unfolding call_with
call self function = call_with self function function.args

unfoldable pub create_account : Transaction → Transaction
unfolding push
create_account self = push self Action.create_account

unfoldable pub delete_account : Transaction → AccountId → Transaction
unfolding push
delete_account self beneficiary_id = push self (Action.delete_account beneficiary_id)

unfoldable pub delete_key : Transaction → PublicKey → Transaction
unfolding push
delete_key self pk = push self (Action.delete_key pk)

unfoldable pub deploy : Transaction → Bytes → Transaction
unfolding push
deploy self code = push self (Action.deploy_contract code)

unfoldable pub stake : Transaction → ℕ → PublicKey → Transaction
unfolding push
stake self amount pk = push self (Action.stake amount pk)

unfoldable pub transfer : Transaction → ℕ → Transaction
unfolding push
transfer self deposit = push self (Action.transfer deposit)
