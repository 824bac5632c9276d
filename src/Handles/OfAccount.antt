-- ===== src/Handles/OfAccount.antt =====
-- The methods of `Account` (workspaces/src/types/account.rs).
use near_workspaces_rs.Prelude.{ℕ, String}
use near_workspaces_rs.Result
use near_workspaces_rs.Result.{Result, Exec, ◌>>=◌, ◌>>◌, mapping_err}
use near_workspaces_rs.Primitives.{AccountId, PublicKey, SecretKey}
use near_workspaces_rs.Primitives.Rpc.{Call}
use near_workspaces_rs.Error.{Error, BoxedError}
use near_workspaces_rs.Execution.{ExecutionFinalResult}
use near_workspaces_rs.Types
use near_workspaces_rs.Types.{InMemorySigner}
use near_workspaces_rs.Client.Retry.{RetryLib}
use near_workspaces_rs.Operations.Batch
use near_workspaces_rs.Operations.Batch.{Transaction}
use near_workspaces_rs.Operations.Env.{Env}
use near_workspaces_rs.Operations.Transact.{
  Account, CallTransaction, new_call, CreateAccountTransaction, new_create,
}
use near_workspaces_rs.Query
use near_workspaces_rs.Query.{Query, QueryChunk, new_chunk}
use near_workspaces_rs.Query.Kinds.{ViewFunction, ViewAccount, ViewAccessKey, ViewAccessKeyList}
use near_workspaces_rs.Network
use near_workspaces_rs.Network.{Contract, ValidatorKey, from_file, root_signer}
use near_workspaces_rs.Handles.OfWorker as Worker

unfoldable pub account_from_file :
    (String → Result (AccountId × SecretKey) BoxedError) → String → Result Account Error
account_from_file read path =
    Result.map (λ signer. record { signer = signer }) (from_file read path)

unfoldable pub from_secret_key : AccountId → SecretKey → Account
from_secret_key id sk = record { signer = Types.from_secret_key id sk }

unfoldable pub id : Account → AccountId
id self = self.signer.account_id

unfoldable pub call : Account → AccountId → String → CallTransaction
call self contract_id function = new_call contract_id self.signer function

unfoldable pub view : Account → AccountId → String → Query ViewFunction
view self contract_id function = Worker.view contract_id function

unfoldable pub view_account : Account → Query ViewAccount
unfolding id
view_account self = Worker.view_account (id self)

unfoldable pub view_access_key : Account → PublicKey → Query ViewAccessKey
unfolding id
view_access_key self pk = Query.new (record { account_id = id self; public_key = pk })

unfoldable pub view_access_keys : Account → Query ViewAccessKeyList
unfolding id
view_access_keys self = Query.new (record { account_id = id self })

unfoldable pub create_subaccount : Account → String → CreateAccountTransaction
unfolding id
create_subaccount self new_account_id = new_create self.signer (id self) new_account_id

unfoldable pub batch : Account → AccountId → Transaction
batch self contract_id = Batch.new self.signer contract_id

unfoldable pub secret_key : Account → SecretKey
secret_key self = self.signer.secret_key

unfoldable pub set_secret_key : Account → SecretKey → Account
set_secret_key self sk = record self { signer = record self.signer { secret_key = sk } }

module _ (lib : RetryLib) {W : Type 0} (node : Call W) (public_key : SecretKey → PublicKey) where
  unfoldable pub transfer_near : Account → AccountId → ℕ → Exec (Env W) ExecutionFinalResult Error
  transfer_near self receiver_id amount =
      Network.transfer_near lib node public_key self.signer receiver_id amount

  unfoldable pub delete_account : Account → AccountId → Exec (Env W) ExecutionFinalResult Error
  unfolding id
  delete_account self beneficiary_id =
      Network.delete_account lib node public_key (id self) self.signer beneficiary_id
