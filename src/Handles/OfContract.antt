-- ===== src/Handles/OfContract.antt =====
-- The methods of `Contract` (workspaces/src/types/account.rs).
use near_workspaces_rs.Prelude.{String}
use near_workspaces_rs.Primitives.{AccountId, SecretKey, PublicKey}
use near_workspaces_rs.Types
use near_workspaces_rs.Types.{InMemorySigner}
use near_workspaces_rs.Operations.Batch
use near_workspaces_rs.Operations.Batch.{Transaction}
use near_workspaces_rs.Operations.Transact.{Account, CallTransaction, new_call}
use near_workspaces_rs.Query.{Query}
use near_workspaces_rs.Query.Kinds.{
  ViewFunction, ViewCode, ViewState, ViewAccount, ViewAccessKey, ViewAccessKeyList,
}
use near_workspaces_rs.Network.{Contract}
use near_workspaces_rs.Handles.OfWorker as Worker
use near_workspaces_rs.Handles.OfAccount
use near_workspaces_rs.Result.{Exec}
use near_workspaces_rs.Primitives.Rpc.{Call}
use near_workspaces_rs.Error.{Error}
use near_workspaces_rs.Execution.{ExecutionFinalResult}
use near_workspaces_rs.Client.Retry.{RetryLib}
use near_workspaces_rs.Operations.Env.{Env}

unfoldable pub from_secret_key : AccountId → SecretKey → Contract
from_secret_key id sk = record { account = record { signer = Types.from_secret_key id sk } }

unfoldable pub id : Contract → AccountId
id self = self.account.signer.account_id

unfoldable pub call : Contract → String → CallTransaction
unfolding id
call self function = new_call (id self) self.account.signer function

unfoldable pub view : Contract → String → Query ViewFunction
unfolding id
view self function = Worker.view (id self) function

unfoldable pub view_code : Contract → Query ViewCode
unfolding id
view_code self = Worker.view_code (id self)

unfoldable pub view_state : Contract → Query ViewState
unfolding id
view_state self = Worker.view_state (id self)

unfoldable pub batch : Contract → Transaction
unfolding id
batch self = Batch.new self.account.signer (id self)

-- `as_account`
unfoldable pub as_account : Contract → Account
as_account self = self.account

unfoldable pub view_account : Contract → Query ViewAccount
unfolding id
view_account self = Worker.view_account (id self)

unfoldable pub view_access_key : Contract → PublicKey → Query ViewAccessKey
view_access_key self pk = OfAccount.view_access_key self.account pk

unfoldable pub view_access_keys : Contract → Query ViewAccessKeyList
view_access_keys self = OfAccount.view_access_keys self.account

unfoldable pub delete_contract :
    (lib : RetryLib) {W : Type 0} (node : Call W) (public_key : SecretKey → PublicKey)
    → Contract
    → AccountId
    → Exec (Env W) ExecutionFinalResult Error
delete_contract lib node public_key self beneficiary_id =
    OfAccount.delete_account lib node public_key self.account beneficiary_id
