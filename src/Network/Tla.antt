-- ===== src/Network/Tla.antt =====
-- The sandbox's creation of accounts against a batch of the root account (workspaces/src/network).
use near_workspaces_rs.Prelude.{◌≡◌, refl, ◌∙◌, some}
use near_workspaces_rs.Result.{Result, ok, err, continue-pure, pure, lift, ◌>>=◌, ◌>>◌}
use near_workspaces_rs.Primitives.{AccountId, PublicKey, SecretKey, Bytes}
use near_workspaces_rs.Primitives.Rpc.{Call}
use near_workspaces_rs.Error.{Error}
use near_workspaces_rs.Execution.{Execution, ExecutionFinalResult, Base64, from_view}
use near_workspaces_rs.Types.{InMemorySigner, from_secret_key, full_access, access_key_into_near}
use near_workspaces_rs.Client.Retry.{RetryLib, retry}
use near_workspaces_rs.Client.{send_batch_tx_and_retry}
use near_workspaces_rs.Operations.Batch
use near_workspaces_rs.Client.Calls
use near_workspaces_rs.Operations.Env.{Env, Worker, on_client, callbacks, mapping}
use near_workspaces_rs.Operations.Transact.{transact}
use near_workspaces_rs.Operations.Transact.Creates.{creating, execution_of, created, reported}
use near_workspaces_rs.Network.{
  Contract, create_tla_and_deploy, unless_panicked, sandbox_creator, create_tla, default_deposit,
}

-- `Execution` with the contract of this identifier and key
abbrev pub contract_of : AccountId → SecretKey → ExecutionFinalResult → Execution Contract
contract_of id sk details = record {
  result = record { account = record { signer = from_secret_key id sk } };
  details = details;
}

module _ (b64 : Base64) (lib : RetryLib) {W : Type 0} (call : Call W)
    (public_key : SecretKey → PublicKey) where
  -- The batch that also deploys a contract
  deployed :
      (worker : Worker) (signer : InMemorySigner) (id : AccountId) (sk : SecretKey) (wasm : Bytes)
      (env : Env W)
      → (do
        outcome ← on_client (
            Calls.create_account_and_deploy lib call public_key signer id
              (public_key sk)
              default_deposit
              wasm)
        callbacks worker (from_view outcome).total_gas_burnt
        pure (some (contract_of id sk (from_view outcome))))
          env
        ≡ mapping
            (λ details. some (contract_of id sk details))
            (transact lib call public_key worker
              (Batch.deploy (creating signer id (public_key sk) default_deposit) wasm))
            env
  unfolding transact on_client creating Calls.create_account_and_deploy Batch.new
      Batch.create_account Batch.add_key Batch.transfer Batch.deploy full_access
      access_key_into_near lift ◌>>=◌ ◌>>◌ send_batch_tx_and_retry retry mapping
  deployed worker signer id sk wasm env =
      reported lib call public_key worker (λ details. some (contract_of id sk details)) _ _

  -- Creating a top level account in the sandbox, alone or with a contract, is sending, as the root account
  -- and with the worker's hooks, the batch that creates the account, adds its key, transfers 100 NEAR to
  -- it and deploys the contract: with the same errors, requests and report. If the root account's key
  -- cannot be read, that is the error.
  pub create_tla-transact :
      (root : Result InMemorySigner Error) (worker : Worker) (id : AccountId) (sk : SecretKey)
      (wasm : Bytes) (env : Env W)
      → (create_tla b64 (sandbox_creator lib call public_key root) worker id sk env
          ≡ (do
            signer ← lift root
            mapping
                (λ details. execution_of id sk details)
                (transact lib call public_key worker
                  (creating signer id (public_key sk) default_deposit)))
              env)
        × (create_tla_and_deploy b64
              (sandbox_creator lib call public_key root)
              worker
              id
              sk
              wasm
              env
            ≡ (do
              signer ← lift root
              mapping
                  (λ details. some (contract_of id sk details))
                  (transact lib call public_key worker
                    (Batch.deploy (creating signer id (public_key sk) default_deposit) wasm)))
                env)
  unfolding create_tla create_tla_and_deploy sandbox_creator ◌>>=◌ lift
  create_tla-transact (err e) worker id sk wasm env = (refl, refl)
  create_tla-transact (ok signer) worker id sk wasm env = (
    continue-pure _ _ (λ outcome. execution_of id sk (from_view outcome))
          (λ res. do callbacks worker res.details.total_gas_burnt; pure res)
        ∙ created lib call public_key worker signer id sk default_deposit env,
    continue-pure _ _ (λ outcome. some (contract_of id sk (from_view outcome)))
          (λ made.
            unless_panicked made
              (λ res. do callbacks worker res.details.total_gas_burnt; pure (some res)))
        ∙ deployed worker signer id sk wasm env,
  )
