-- ===== src/Handles/Credentials.antt =====
-- Storing an account's credentials: `store_credentials` of workspaces/src/types/account.rs and
-- `write_cred_to_file` of workspaces/src/rpc/tool.rs, as it is on Unix. Files are a parameter.
pub mod Stored
use Prim.Native.String.{◌++◌}
use near_workspaces_rs.Prelude.{ℕ, String, none, some}
use near_workspaces_rs.Result
use near_workspaces_rs.Result.{Result, Exec, ◌>>=◌, ◌>>◌, mapping_err}
use near_workspaces_rs.Primitives.{AccountId, PublicKey, SecretKey, Bytes}
use near_workspaces_rs.Primitives.Rpc.{Call}
use near_workspaces_rs.Error.{Error, BoxedError, full, custom, io}
use near_workspaces_rs.Execution.{Execution, ExecutionFinalResult}
use near_workspaces_rs.Types
use near_workspaces_rs.Types.{InMemorySigner}
use near_workspaces_rs.Client.Retry.{RetryLib}
use near_workspaces_rs.Operations.Function as FunctionOps
use near_workspaces_rs.Operations.Function.{Function}
use near_workspaces_rs.Operations.Batch
use near_workspaces_rs.Operations.Batch.{Transaction}
use near_workspaces_rs.Operations.Env.{Env}
use near_workspaces_rs.Operations.Transact.{
  Account, CallTransaction, new_call, CreateAccountTransaction, new_create,
}
use near_workspaces_rs.Query
use near_workspaces_rs.Query.{Query, QueryChunk, new_chunk}
use near_workspaces_rs.Query.Kinds.{
  ViewFunction, ViewCode, ViewState, ViewAccount, ViewAccessKey, ViewAccessKeyList, ViewBlock,
  GasPrice,
}
use near_workspaces_rs.Network
use near_workspaces_rs.Network.{Contract, ValidatorKey, from_file, root_signer}
use near_workspaces_rs.Import
use near_workspaces_rs.Import.{ImportContractTransaction}
use near_workspaces_rs.Patch
use near_workspaces_rs.Patch.{PatchTransaction}

-- What the storing of credentials asks of the system; a file is named by a number. `content` is the
-- text of serde_json.
pub record KeyFiles (W : Type 0) : Type 0 where
  pub create_dir_all : String → Exec W (Unit {0}) BoxedError
  pub join : String → String → String
  pub create : String → Exec W ℕ BoxedError
  pub metadata : ℕ → Exec W (Unit {0}) BoxedError
  pub set_permissions : ℕ → ℕ → Exec W (Unit {0}) BoxedError
  pub content : AccountId → SecretKey → Bytes
  pub write_all : ℕ → Bytes → Exec W (Unit {0}) BoxedError

-- `S_IWUSR | S_IRUSR`
abbrev pub owner_only : ℕ
owner_only = 384

module _ {W : Type 0} (files : KeyFiles W) where
  unfoldable pub write_cred_to_file : String → AccountId → SecretKey → Exec W (Unit {0}) Error
  unfolding full
  write_cred_to_file path id sk = do
    file ← mapping_err (full io "failed to open file for writing credentials") (files.create path)
    mapping_err (full io "Failed to retrieve key file metadata.") (files.metadata file)
    mapping_err (full io "Failed to set permissions for a key file.")
        (files.set_permissions file owner_only)
    mapping_err (full io "Failed to write a key file") (files.write_all file (files.content id sk))

  unfoldable pub store_credentials : Account → String → Exec W (Unit {0}) Error
  unfolding write_cred_to_file custom
  store_credentials self save_dir = do
    mapping_err (custom io) (files.create_dir_all save_dir)
    write_cred_to_file (files.join save_dir (self.signer.account_id ++ ".json"))
        self.signer.account_id self.signer.secret_key
