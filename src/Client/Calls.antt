-- ===== src/Client/Calls.antt =====
-- The transactions that `impl Client` of workspaces/src/rpc/client.rs sends by name, and the waits
-- on the node.
use Prim.Native.String.{◌++◌}
use mathlib.Core.List
use near_workspaces_rs.Prelude.{ℕ, ◌*◌, ◌%◌, String, Option, none, some, List, [], ◌∷◌, replicate}
use near_workspaces_rs.Result.{Result, ok, Exec, lift, ◌>>=◌, mapping_err, map_err}
use near_workspaces_rs.Primitives
use near_workspaces_rs.Primitives.{
  AccountId, PublicKey, SecretKey, Bytes, u64_mod, Action, FinalExecutionOutcomeView,
}
use near_workspaces_rs.Primitives.Rpc.{Request, Call, JsonRpcError}
use near_workspaces_rs.Error.{
  Error, BoxedError, rpc_error, rpc, full, data_conversion, connection_failure,
}
use near_workspaces_rs.Types.{InMemorySigner}
use near_workspaces_rs.Client.Retry.{RetryLib}
use near_workspaces_rs.Client.{Client, rpc_call, query, send_batch_tx_and_retry}

-- The three actions with which an account is created
creation : PublicKey → ℕ → List Action
creation new_account_pk amount =
    Action.create_account
    ∷ Action.add_key new_account_pk
        (record { nonce = 0; permission = Primitives.AccessKeyPermission.full_access })
    ∷ Action.transfer amount
    ∷ []

-- `std::env::var("NEAR_RPC_TIMEOUT_SECS")` and its parse; the parser of `usize` is a parameter.
unfoldable pub timeout_secs : (String → Result ℕ BoxedError) → Option String → Result ℕ Error
unfolding full
timeout_secs parse (some secs) =
    map_err (full data_conversion ("Failed to parse provided NEAR_RPC_TIMEOUT_SECS=" ++ secs))
      (parse secs)
timeout_secs parse none = ok 10

module _ (lib : RetryLib) {W : Type 0} (call : Call W) where
  -- `status`, with no retry
  unfoldable pub status : Exec (Client W) (Unit {0}) JsonRpcError
  unfolding rpc_call
  status = rpc_call lib call Request.status

  unfoldable pub tx_async_status :
      AccountId → Bytes → Exec (Client W) FinalExecutionOutcomeView JsonRpcError
  tx_async_status sender_id hash = query lib call (Request.tx_status sender_id hash)

  -- `Retry::spawn(retry_strategy, || self.status())`; the error's text names neither the address nor the
  -- seconds here.
  unfoldable pub spawn_status : ℕ → Exec (Client W) (Unit {0}) Error
  spawn_status secs =
      mapping_err
        (λ e. full (rpc connection_failure) "Failed to connect to RPC service" (rpc_error e))
        (lib.spawn (Client W) (Unit {0}) JsonRpcError (replicate ((2 * secs) % u64_mod) 500) status)

  unfoldable pub wait_for_rpc :
      (String → Result ℕ BoxedError) → Option String → Exec (Client W) (Unit {0}) Error
  unfolding spawn_status timeout_secs
  wait_for_rpc parse var = do secs ← lift (timeout_secs parse var); spawn_status secs

  module _ (public_key : SecretKey → PublicKey) where
    unfoldable pub send_tx_and_retry :
        InMemorySigner → AccountId → Action → Exec (Client W) FinalExecutionOutcomeView Error
    send_tx_and_retry signer receiver_id action =
        send_batch_tx_and_retry lib call public_key signer receiver_id (action ∷ [])

    unfoldable pub call_function :
        InMemorySigner
        → AccountId
        → String
        → Bytes
        → ℕ
        → ℕ
        → Exec (Client W) FinalExecutionOutcomeView Error
    unfolding send_tx_and_retry
    call_function signer contract_id method_name args gas deposit =
        send_tx_and_retry signer contract_id (Action.function_call method_name args deposit gas)

    unfoldable pub deploy :
        InMemorySigner → AccountId → Bytes → Exec (Client W) FinalExecutionOutcomeView Error
    unfolding send_tx_and_retry
    deploy signer contract_id wasm =
        send_tx_and_retry signer contract_id (Action.deploy_contract wasm)

    unfoldable pub transfer_near :
        InMemorySigner → AccountId → ℕ → Exec (Client W) FinalExecutionOutcomeView Error
    unfolding send_tx_and_retry
    transfer_near signer receiver_id amount =
        send_tx_and_retry signer receiver_id (Action.transfer amount)

    unfoldable pub delete_account :
        InMemorySigner → AccountId → AccountId → Exec (Client W) FinalExecutionOutcomeView Error
    unfolding send_tx_and_retry
    delete_account signer account_id beneficiary_id =
        send_tx_and_retry signer account_id (Action.delete_account beneficiary_id)

    unfoldable pub create_account :
        InMemorySigner → AccountId → PublicKey → ℕ → Exec (Client W) FinalExecutionOutcomeView Error
    unfolding creation
    create_account signer new_account_id new_account_pk amount =
        send_batch_tx_and_retry lib call public_key signer new_account_id
          (creation new_account_pk amount)

    unfoldable pub create_account_and_deploy :
        InMemorySigner
        → AccountId
        → PublicKey
        → ℕ
        → Bytes
        → Exec (Client W) FinalExecutionOutcomeView Error
    unfolding creation
    create_account_and_deploy signer new_account_id new_account_pk amount code =
        send_batch_tx_and_retry lib call public_key signer new_account_id
          (List.◌++◌ (creation new_account_pk amount) (Action.deploy_contract code ∷ []))
