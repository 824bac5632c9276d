-- ===== src/Network.antt =====
-- Accounts and their creation: the wrappers of workspaces/src/worker/impls.rs and types/account.rs that
-- send at once, and workspaces/src/network/variants.rs with the creators of network/sandbox.rs and
-- network/testnet.rs. The key files, the helper's web service and random names are parameters.
pub mod Creation
pub mod Tla
pub mod Generated
use near_workspaces_rs.Prelude.{ℕ, String, Option, none, some, List, [], ◌∷◌}
use near_workspaces_rs.Result
use near_workspaces_rs.Result.{
  Result, ok, err, Exec, MayPanic, pure, lift, ◌>>=◌, ◌>>◌, mapping_err, map_err,
}
use near_workspaces_rs.Primitives.{
  AccountId, PublicKey, SecretKey, Bytes, FinalExecutionStatus, ExecutionStatusView,
}
use near_workspaces_rs.Primitives.Rpc.{Call}
use near_workspaces_rs.Outcome.{ExecutionFailure}
use near_workspaces_rs.Error.{
  Error, BoxedError, custom, data_conversion, rpc_custom, helper_account_creation_failure,
  error_from_failure, io,
}
use near_workspaces_rs.Execution.{
  Base64, Execution, ExecutionFinalResult, from_view, execution_into_result,
}
use near_workspaces_rs.Types.{InMemorySigner, from_secret_key, zero_hash}
use near_workspaces_rs.Client.Retry.{RetryLib}
use near_workspaces_rs.Client.Calls
use near_workspaces_rs.Operations.Env.{Env, Worker, on_client, callbacks, mapping}
use near_workspaces_rs.Operations.Transact.{Account}
use near_workspaces_rs.Import.{seed_key}

-- `Contract` wraps its account.
pub record Contract : Type 0 where
  pub account : Account

module _ (lib : RetryLib) {W : Type 0} (call : Call W) (public_key : SecretKey → PublicKey) where
  -- `Worker::transfer_near`
  unfoldable pub transfer_near :
      InMemorySigner → AccountId → ℕ → Exec (Env W) ExecutionFinalResult Error
  transfer_near signer receiver_id amount_yocto =
      mapping from_view
        (on_client (Calls.transfer_near lib call public_key signer receiver_id amount_yocto))

  -- `Worker::delete_account`
  unfoldable pub delete_account :
      AccountId → InMemorySigner → AccountId → Exec (Env W) ExecutionFinalResult Error
  delete_account account_id signer beneficiary_id =
      mapping from_view
        (on_client (Calls.delete_account lib call public_key signer account_id beneficiary_id))

  -- `Account::deploy`
  unfoldable pub deploy : Account → Bytes → Exec (Env W) (Execution Contract) Error
  deploy self wasm = do
    outcome ← on_client (Calls.deploy lib call public_key self.signer self.signer.account_id wasm)
    pure (record {
      result = record { account = record { signer = self.signer } };
      details = from_view outcome;
    })

-- The trait `TopLevelAccountCreator`; `none` is a panic.
pub record TopLevelAccountCreator (W : Type 0) : Type 0 where
  pub create_tla : AccountId → SecretKey → Exec (Env W) (Execution Account) Error
  pub create_tla_and_deploy :
      AccountId → SecretKey → Bytes → Exec (Env W) (MayPanic (Execution Contract)) Error

pub data ValidatorKey : Type 0 where
  home_dir : String → ValidatorKey
  known : AccountId → SecretKey → ValidatorKey

-- `InMemorySigner::from_file`; the reading by near_crypto is a parameter.
unfoldable pub from_file :
    (String → Result (AccountId × SecretKey) BoxedError) → String → Result InMemorySigner Error
unfolding custom from_secret_key
from_file read path = Result.map (λ s. from_secret_key s.0 s.1) (map_err (custom io) (read path))

-- `Sandbox::root_signer`; `join` is `home_dir.join("validator_key.json")`.
unfoldable pub root_signer :
    (String → Result (AccountId × SecretKey) BoxedError)
    → (String → String)
    → ValidatorKey
    → Result InMemorySigner Error
unfolding from_file from_secret_key
root_signer read join (home_dir dir) = from_file read (join dir)
root_signer read join (known account_id secret_key) = ok (from_secret_key account_id secret_key)

-- `DEFAULT_DEPOSIT`, `NearToken::from_near(100)`
abbrev pub default_deposit : ℕ
default_deposit = 100000000000000000000000000

module _ (lib : RetryLib) {W : Type 0} (call : Call W) (public_key : SecretKey → PublicKey) where
  -- `impl TopLevelAccountCreator for Sandbox`, with the result of `root_signer`
  unfoldable pub sandbox_creator : Result InMemorySigner Error → TopLevelAccountCreator W
  unfolding from_secret_key
  sandbox_creator root = record {
    create_tla = λ id sk. do
      signer ← lift root
      outcome ←
          on_client
            (Calls.create_account lib call public_key signer id (public_key sk) default_deposit)
      pure (record {
        result = record { signer = from_secret_key id sk };
        details = from_view outcome;
      });
    create_tla_and_deploy = λ id sk wasm. do
      signer ← lift root
      outcome ← on_client (
          Calls.create_account_and_deploy lib call public_key signer id (public_key sk)
            default_deposit wasm)
      pure (
          some (record {
            result = record { account = record { signer = from_secret_key id sk } };
            details = from_view outcome;
          }));
  }

-- What the helper of the testnet is asked with: serde_json's bytes, and the web request to a
-- service that may change the network.
pub record Helper (W : Type 0) : Type 0 where
  pub to_vec : AccountId → PublicKey → Result Bytes BoxedError
  pub post : Bytes → Exec W (Unit {0}) BoxedError

-- `url_create_account` of workspaces/src/rpc/tool.rs
unfoldable pub url_create_account :
    {W : Type 0} → Helper W → AccountId → PublicKey → Exec W (Unit {0}) Error
unfolding custom
url_create_account helper account_id pk = do
  body ← lift (map_err (custom data_conversion) (helper.to_vec account_id pk))
  mapping_err (rpc_custom helper_account_creation_failure) (helper.post body)

unfoldable pub on_node : {W A E : Type 0} → Exec W A E → Exec (Env W) A E
on_node m env =
    let (r, node) = m env.client.node in
    (r, record env { client = record env.client { node = node } })

-- The details that a testnet account is given, whose creation another account has paid
abbrev pub free_details : ExecutionFinalResult
free_details = record {
  total_gas_burnt = 0;
  status = FinalExecutionStatus.success_value [];
  details = record {
    transaction = record {
      transaction_hash = zero_hash;
      block_hash = zero_hash;
      logs = [];
      receipt_ids = [];
      gas_burnt = 0;
      tokens_burnt = 0;
      executor_id = "testnet";
      status = ExecutionStatusView.success_value [];
    };
    receipts = [];
  };
}

module _ {W A : Type 0} where
  -- `?` on a result that may have panicked
  unfoldable pub questioned : MayPanic (Result A ExecutionFailure) → Exec (Env W) (MayPanic A) Error
  unfolding error_from_failure
  questioned none = pure none
  questioned (some (ok a)) = pure (some a)
  questioned (some (err e)) = lift (err (error_from_failure e))

  -- The rest of a function, if it has not panicked
  abbrev pub unless_panicked :
      {B : Type 0}
      → MayPanic A
      → (A → Exec (Env W) (MayPanic B) Error)
      → Exec (Env W) (MayPanic B) Error
  unless_panicked none f = pure none
  unless_panicked (some a) f = f a

module _ (b64 : Base64) (lib : RetryLib) {W : Type 0} (call : Call W)
    (public_key : SecretKey → PublicKey) (helper : Helper W) where
  unfoldable pub testnet_create_tla : AccountId → SecretKey → Exec (Env W) (Execution Account) Error
  unfolding from_secret_key
  testnet_create_tla id sk = do
    on_node (url_create_account helper id (public_key sk))
    pure (record { result = record { signer = from_secret_key id sk }; details = free_details })

  -- `impl TopLevelAccountCreator for Testnet`
  unfoldable pub testnet_creator : TopLevelAccountCreator W
  unfolding testnet_create_tla
  testnet_creator = record {
    create_tla = testnet_create_tla;
    create_tla_and_deploy = λ id sk wasm. do
      account ← testnet_create_tla id sk
      outcome ← on_client (Calls.deploy lib call public_key (from_secret_key id sk) id wasm)
      created ← questioned (execution_into_result b64 account)
      unless_panicked created (λ a.
          pure (some (record { result = record { account = a }; details = from_view outcome })));
  }

module _ (b64 : Base64) {W : Type 0} (creator : TopLevelAccountCreator W) (worker : Worker) where
  -- `Worker::create_tla`
  unfoldable pub create_tla : AccountId → SecretKey → Exec (Env W) (Execution Account) Error
  create_tla id sk = do
    res ← creator.create_tla id sk
    callbacks worker res.details.total_gas_burnt
    pure res

  -- `Worker::create_tla_and_deploy`
  unfoldable pub create_tla_and_deploy :
      AccountId → SecretKey → Bytes → Exec (Env W) (MayPanic (Execution Contract)) Error
  create_tla_and_deploy id sk wasm = do
    created ← creator.create_tla_and_deploy id sk wasm
    unless_panicked created
        (λ res. do callbacks worker res.details.total_gas_burnt; pure (some res))

  -- `Worker::dev_create_account` and `Worker::dev_deploy` with the name that `random_account_id` gave
  module _ (from_seed : String → SecretKey) (id : AccountId) where
    unfoldable pub dev_create_account : Exec (Env W) (MayPanic Account) Error
    unfolding create_tla
    dev_create_account = do
      account ← create_tla id (seed_key from_seed)
      questioned (execution_into_result b64 account)

    unfoldable pub dev_deploy : Bytes → Exec (Env W) (MayPanic Contract) Error
    unfolding create_tla_and_deploy
    dev_deploy wasm = do
      created ← create_tla_and_deploy id (seed_key from_seed) wasm
      unless_panicked created (λ contract. questioned (execution_into_result b64 contract))
