-- ===== src/Operations/Transact.antt =====
-- The sending of transactions in workspaces/src/operations.rs, with the worker's hooks.
pub mod Builders
pub mod Creates
pub mod Hooks
pub mod Metered
use Prim.Native.String.{◌++◌}
use near_workspaces_rs.Prelude.{
  ℕ, ◌+◌, ◌%◌, String, Option, none, some, List, [], ◌∷◌, unwrap_or, Bool, true, false,
  if◌then◌else◌,
}
use near_workspaces_rs.Result.{Result, ok, err, Exec, pure, lift, ◌>>=◌, ◌>>◌, map_err}
use near_workspaces_rs.Primitives.{
  AccountId, PublicKey, SecretKey, Bytes, Action, FinalExecutionOutcomeView,
  ExecutionOutcomeWithIdView, u64_mod,
}
use near_workspaces_rs.Primitives.Rpc.{Call}
use near_workspaces_rs.Error.{Error, BoxedError, custom, data_conversion}
use near_workspaces_rs.Execution.{Execution, ExecutionFinalResult, from_view}
use near_workspaces_rs.Types.{InMemorySigner, from_secret_key}
use near_workspaces_rs.Client.Retry.{RetryLib}
use near_workspaces_rs.Client.{
  Client, TransactionStatus, send_batch_tx_and_retry, send_batch_tx_async_and_retry,
}
use near_workspaces_rs.Client.Calls
use near_workspaces_rs.Meter.{GasHook}
use near_workspaces_rs.Operations.Function as FunctionOps
use near_workspaces_rs.Operations.Function.{Function}
use near_workspaces_rs.Operations.Batch.{Transaction}
use near_workspaces_rs.Operations.Env.{Env, Worker, on_client, callbacks, mapping}

pub record CallTransaction : Type 0 where
  pub signer : InMemorySigner
  pub contract_id : AccountId
  pub function : Function

-- `CallTransaction::new`
unfoldable pub new_call : AccountId → InMemorySigner → String → CallTransaction
new_call contract_id signer function = record {
  signer = signer;
  contract_id = contract_id;
  function = FunctionOps.new function;
}

pub record CreateAccountTransaction : Type 0 where
  pub signer : InMemorySigner
  pub parent_id : AccountId
  pub new_account_id : String
  pub initial_balance : ℕ
  pub secret_key : Option SecretKey

-- `CreateAccountTransaction::new`
unfoldable pub new_create : InMemorySigner → AccountId → String → CreateAccountTransaction
new_create signer parent_id new_account_id = record {
  signer = signer;
  parent_id = parent_id;
  new_account_id = new_account_id;
  initial_balance = 100000000000000000000000;
  secret_key = none;
}

-- `Account`, less its worker
pub record Account : Type 0 where
  pub signer : InMemorySigner

abbrev is_empty : List GasHook → Bool
is_empty [] = true
is_empty (h ∷ hs) = false

-- `.iter().map(|t| t.outcome.gas_burnt).sum::<u64>()`, in `transact_raw`
pub burnt : ℕ → List ExecutionOutcomeWithIdView → ℕ
burnt acc [] = acc
burnt acc (t ∷ ts) = burnt ((acc + t.outcome.gas_burnt) % u64_mod) ts

module _ (lib : RetryLib) {W : Type 0} (call : Call W) (public_key : SecretKey → PublicKey) where
  -- The report to the hooks in `transact_raw`, which computes the total on its own
  unfoldable pub report : Worker → FinalExecutionOutcomeView → Exec (Env W) (Unit {0}) Error
  unfolding burnt
  report worker view =
      if is_empty worker.tx_callbacks
      then pure tt
      else callbacks worker
          ((view.transaction_outcome.outcome.gas_burnt + burnt 0 view.receipts_outcome) % u64_mod)

  unfoldable pub transact_raw : Worker → Transaction → Exec (Env W) FinalExecutionOutcomeView Error
  unfolding report
  transact_raw worker self = do
    actions ← lift self.actions
    view ←
        on_client (send_batch_tx_and_retry lib call public_key self.signer self.receiver_id actions)
    report worker view
    pure view

  -- `Transaction::transact`
  unfoldable pub transact : Worker → Transaction → Exec (Env W) ExecutionFinalResult Error
  unfolding transact_raw
  transact worker self = mapping from_view (transact_raw worker self)

  -- `Transaction::transact_async`
  unfoldable pub transact_async : Transaction → Exec (Env W) TransactionStatus Error
  transact_async self = do
    actions ← lift self.actions
    on_client
        (send_batch_tx_async_and_retry lib call public_key self.signer self.receiver_id actions)

  -- `CallTransaction::transact`
  unfoldable pub call_transact : Worker → CallTransaction → Exec (Env W) ExecutionFinalResult Error
  call_transact worker self = do
    args ← lift self.function.args
    txn ← mapping from_view (
        on_client (
          Calls.call_function lib call public_key self.signer self.contract_id self.function.name
            args self.function.gas self.function.deposit))
    callbacks worker txn.total_gas_burnt
    pure txn

  -- `CallTransaction::transact_async`
  unfoldable pub call_transact_async : CallTransaction → Exec (Env W) TransactionStatus Error
  call_transact_async self = do
    args ← lift self.function.args
    on_client (
        send_batch_tx_async_and_retry lib call public_key self.signer self.contract_id (
          Action.function_call self.function.name args self.function.deposit self.function.gas
          ∷ []))

  -- The crates' `SecretKey::from_seed(KeyType::ED25519, …)` and `AccountId::try_from` are parameters.
  module _ (from_seed : String → SecretKey)
      (parse_account_id : String → Result AccountId BoxedError) where
    pub new_id : CreateAccountTransaction → Result AccountId Error
    unfolding custom
    new_id self =
        map_err (custom data_conversion)
          (parse_account_id (self.new_account_id ++ "." ++ self.parent_id))

    pub key_or_seeded : CreateAccountTransaction → SecretKey
    key_or_seeded self = unwrap_or self.secret_key (from_seed "subaccount.seed")

    -- `CreateAccountTransaction::transact`
    unfoldable pub create_transact :
        Worker → CreateAccountTransaction → Exec (Env W) (Execution Account) Error
    unfolding new_id key_or_seeded from_secret_key
    create_transact worker self = do
      id ← lift (new_id self)
      outcome ← on_client (
          Calls.create_account lib call public_key self.signer id (public_key (key_or_seeded self))
            self.initial_balance)
      callbacks worker (from_view outcome).total_gas_burnt
      pure (record {
        result = record { signer = from_secret_key id (key_or_seeded self) };
        details = from_view outcome;
      })
