-- ===== src/Network/Creation.antt =====
-- The creation of accounts, and the sending that stands outside the transaction builders
-- (workspaces/src/network and workspaces/src/worker/impls.rs).
use near_workspaces_rs.Prelude.{ℕ, String, ◌≡◌, refl, none, some}
use near_workspaces_rs.Result.{
  Result, ok, err, continue, continue-pure, MayPanic, pure, lift, ◌>>=◌, ◌>>◌,
}
use near_workspaces_rs.Primitives.{AccountId, PublicKey, SecretKey, Bytes, FinalExecutionStatus}
use near_workspaces_rs.Primitives.Rpc.{Call}
use near_workspaces_rs.Error.{Error, error_from_failure}
use near_workspaces_rs.Execution.{Base64, Execution, from_view, into_result, execution_into_result}
use near_workspaces_rs.Types.{InMemorySigner, from_secret_key}
use near_workspaces_rs.Client.Retry.{RetryLib}
use near_workspaces_rs.Client.Calls
use near_workspaces_rs.Operations.Env.{Env, Worker, on_client, callbacks, mapping}
use near_workspaces_rs.Operations.Transact.{Account}
use near_workspaces_rs.Import.{seed_key}
use near_workspaces_rs.Network.{
  TopLevelAccountCreator, Contract, Helper, transfer_near, delete_account, deploy,
  url_create_account, on_node, questioned, testnet_create_tla, testnet_creator, create_tla,
  dev_create_account,
}

module _ (lib : RetryLib) {W : Type 0} (call : Call W) (public_key : SecretKey → PublicKey) where
  deployed_meters :
      {A : Type 0} (r : Result A Error) (env : Env W) (f : A → Execution Contract)
      → (continue r env (λ a. pure (f a))).1.meters ≡ env.meters
  unfolding pure
  deployed_meters (ok a) env f = refl
  deployed_meters (err e) env f = refl

  -- Transfers, deletions of accounts and deployments that are sent at once run no hook: whatever the
  -- hooks are and however the sending ends, the gas meters are as before.
  pub sent_without_hooks :
      (self : Account) (signer : InMemorySigner) (id other : AccountId) (amount : ℕ) (wasm : Bytes)
      (env : Env W)
      → ((transfer_near lib call public_key signer id amount env).1.meters ≡ env.meters)
        × ((delete_account lib call public_key id signer other env).1.meters ≡ env.meters)
        × ((deploy lib call public_key self wasm env).1.meters ≡ env.meters)
  unfolding transfer_near delete_account deploy mapping on_client ◌>>=◌
  sent_without_hooks self signer id other amount wasm env = (
    refl,
    refl,
    deployed_meters
        (on_client (Calls.deploy lib call public_key self.signer self.signer.account_id wasm) env).0
        _ _,
  )

  module _ (b64 : Base64) (helper : Helper W) where
    -- The testnet's creation with a contract is the request to the helper, then the deployment that the
    -- new account signs, and it never panics: it returns the account with the deployment's details,
    -- or the error of the first step that fails.
    pub testnet_deploys :
        (id : AccountId) (sk : SecretKey) (wasm : Bytes) (env : Env W)
        → (testnet_creator b64 lib call public_key helper).create_tla_and_deploy id sk wasm env
          ≡ (do
            on_node (url_create_account helper id (public_key sk))
            outcome ← on_client (Calls.deploy lib call public_key (from_secret_key id sk) id wasm)
            pure (
                some (record {
                  result = record { account = record { signer = from_secret_key id sk } };
                  details = from_view outcome;
                })))
              env
    unfolding testnet_creator testnet_create_tla questioned execution_into_result into_result pure
        lift ◌>>=◌ ◌>>◌
    testnet_deploys id sk wasm env =
        continue-pure (on_node (url_create_account helper id (public_key sk)) env).0
          (on_node (url_create_account helper id (public_key sk)) env).1 _ _

-- What an account's creation comes to, by the status of its transaction: the account, an error, or a
-- panic if the transaction has no final status.
abbrev pub created_by_status : Execution Account → Result (MayPanic Account) Error
created_by_status res = elim res.details.status [
  | FinalExecutionStatus.success_value v ↦ ok (some res.result)
  | FinalExecutionStatus.failure e ↦ err (
      error_from_failure (record {
        total_gas_burnt = res.details.total_gas_burnt;
        value = e;
        details = res.details.details;
      }))
  | _ ↦ ok none
]

module _ (b64 : Base64) {W : Type 0} (creator : TopLevelAccountCreator W) (worker : Worker)
    (from_seed : String → SecretKey) (id : AccountId) where
  questioned_by_status :
      (res : Execution Account) (env : Env W)
      → questioned (execution_into_result b64 res) env ≡ (created_by_status res, env)
  unfolding questioned execution_into_result into_result pure lift
  questioned_by_status res env = from res.details.status
    where
      from :
          (s : FinalExecutionStatus)
          → questioned
              (execution_into_result b64
                (record res { details = record res.details { status = s } }))
              env
            ≡ (created_by_status (record res { details = record res.details { status = s } }), env)
      from (FinalExecutionStatus.success_value v) = refl
      from (FinalExecutionStatus.failure e) = refl
      from FinalExecutionStatus.not_started = refl
      from FinalExecutionStatus.started = refl

  reported :
      (res : Execution Account) (r : Result (Unit {0}) Error) (env : Env W)
      → continue
          (continue r env (λ _. pure res)).0
          (continue r env (λ _. pure res)).1
          (λ a. questioned (execution_into_result b64 a))
        ≡ continue r env (λ _. lift (created_by_status res))
  unfolding pure lift
  reported res (ok u) env = questioned_by_status res env
  reported res (err e) env = refl

  -- If the network creates the account, the hooks are given the gas of its creation, before its status
  -- is looked at. Then an error of a hook is returned, and if there is none the account, the error or
  -- the panic that the status tells.
  pub dev_create_account_by_status :
      (res : Execution Account) (env env' : Env W)
      → creator.create_tla id (seed_key from_seed) env ≡ (ok res, env')
      → dev_create_account b64 creator worker from_seed id env
        ≡ (do callbacks worker res.details.total_gas_burnt; lift (created_by_status res)) env'
  unfolding dev_create_account create_tla pure lift ◌>>=◌ ◌>>◌
  dev_create_account_by_status res env env' created = rw created (reported res _ _)
