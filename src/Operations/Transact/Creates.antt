-- ===== src/Operations/Transact/Creates.antt =====
-- Creating an account against a batch that creates it (workspaces/src/operations.rs).
use near_workspaces_rs.Prelude.{ℕ, String, ◌≡◌, refl, arith}
use near_workspaces_rs.Result.{Result, ok, err, continue, pure, lift, ◌>>=◌, ◌>>◌}
use near_workspaces_rs.Primitives.{AccountId, SecretKey, PublicKey, FinalExecutionOutcomeView}
use near_workspaces_rs.Primitives.Rpc.{Call}
use near_workspaces_rs.Error.{Error, BoxedError}
use near_workspaces_rs.Execution.{Execution, ExecutionFinalResult, from_view}
use near_workspaces_rs.Types.{InMemorySigner, from_secret_key, full_access, access_key_into_near}
use near_workspaces_rs.Client.Retry.{RetryLib}
use near_workspaces_rs.Client.{send_batch_tx_and_retry}
use near_workspaces_rs.Client.Calls
use near_workspaces_rs.Operations.Batch
use near_workspaces_rs.Operations.Batch.{Transaction}
use near_workspaces_rs.Operations.Env.{Env, Worker, on_client, callbacks, mapping}
use near_workspaces_rs.Operations.Transact.{
  Account, CreateAccountTransaction, report, transact, new_id, key_or_seeded, create_transact,
}
use near_workspaces_rs.Operations.Transact.Hooks.{report-callbacks}

-- The batch that creates an account with a key of full access and an amount.
unfoldable pub creating : InMemorySigner → AccountId → PublicKey → ℕ → Transaction
creating signer id pk amount =
    Batch.transfer (Batch.add_key (Batch.create_account (Batch.new signer id)) pk full_access)
      amount

-- `Execution` with the account of this identifier and key
abbrev pub execution_of : AccountId → SecretKey → ExecutionFinalResult → Execution Account
execution_of id sk details = record {
  result = record { signer = from_secret_key id sk };
  details = details;
}

module _ (lib : RetryLib) {W : Type 0} (call : Call W) (public_key : SecretKey → PublicKey) where
  -- What a caller does with an outcome, reported before or after it is wrapped
  pub reported :
      {B : Type 0} (worker : Worker) (f : ExecutionFinalResult → B)
      (r : Result FinalExecutionOutcomeView Error) (env : Env W)
      → continue r env (λ outcome. do
        callbacks worker (from_view outcome).total_gas_burnt
        pure (f (from_view outcome)))
        ≡ mapping f
            (mapping from_view
              (λ s. continue r s (λ view. do report lib call public_key worker view; pure view)))
            env
  unfolding mapping pure ◌>>=◌ ◌>>◌
  reported worker f (err e) env = refl
  reported worker f (ok view) env =
      rw (report-callbacks lib call public_key worker view env) (ground arith)

  pub created :
      (worker : Worker) (signer : InMemorySigner) (id : AccountId) (sk : SecretKey) (amount : ℕ)
      (env : Env W)
      → (do
        outcome ←
            on_client (Calls.create_account lib call public_key signer id (public_key sk) amount)
        callbacks worker (from_view outcome).total_gas_burnt
        pure (execution_of id sk (from_view outcome)))
          env
        ≡ mapping
            (λ details. execution_of id sk details)
            (transact lib call public_key worker (creating signer id (public_key sk) amount))
            env
  unfolding transact on_client creating Calls.create_account Batch.new Batch.create_account
      Batch.add_key Batch.transfer full_access access_key_into_near lift ◌>>=◌ ◌>>◌
      send_batch_tx_and_retry near_workspaces_rs.Client.Retry.retry mapping
  created worker signer id sk amount env =
      reported worker (λ details. execution_of id sk details) _ _

  module _ (from_seed : String → SecretKey)
      (parse_account_id : String → Result AccountId BoxedError) where
    -- Creating an account is sending the batch that creates the account, adds the key and transfers the
    -- balance, to the identifier that is made of both names: with the same error, requests and report,
    -- and with the account of the key that was chosen. A malformed identifier is an error at once.
    pub create_transact-transact :
        (worker : Worker) (self : CreateAccountTransaction) (env : Env W)
        → create_transact lib call public_key from_seed parse_account_id worker self env
          ≡ (do
            id ← lift (new_id lib call public_key from_seed parse_account_id self)
            mapping
                (λ details.
                  execution_of id
                    (key_or_seeded lib call public_key from_seed parse_account_id self)
                    details)
                (transact lib call public_key worker (
                  creating self.signer id
                    (public_key (key_or_seeded lib call public_key from_seed parse_account_id self))
                    self.initial_balance)))
              env
    unfolding create_transact lift ◌>>=◌ ◌>>◌
    create_transact-transact worker self env =
        from (new_id lib call public_key from_seed parse_account_id self)
      where
        from :
            (r : Result AccountId Error)
            → continue r env (λ id. do
              outcome ← on_client (
                  Calls.create_account lib call public_key self.signer id
                    (public_key (key_or_seeded lib call public_key from_seed parse_account_id self))
                    self.initial_balance)
              callbacks worker (from_view outcome).total_gas_burnt
              pure (
                  execution_of id
                    (key_or_seeded lib call public_key from_seed parse_account_id self)
                    (from_view outcome)))
              ≡ continue r env (λ id.
                mapping
                  (λ details.
                    execution_of id
                      (key_or_seeded lib call public_key from_seed parse_account_id self)
                      details)
                  (transact lib call public_key worker (
                    creating self.signer id
                      (public_key
                        (key_or_seeded lib call public_key from_seed parse_account_id self))
                      self.initial_balance)))
        from (ok id) = created worker self.signer id _ self.initial_balance env
        from (err e) = refl
