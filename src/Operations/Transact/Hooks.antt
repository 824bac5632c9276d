-- ===== src/Operations/Transact/Hooks.antt =====
-- Errors, reports to hooks, and single calls against batches (workspaces/src/operations.rs).
use near_workspaces_rs.Prelude.{ℕ, ◌+◌, ◌%◌, ap, ◌≡◌, refl, List, [], ◌∷◌, arith}
use near_workspaces_rs.Result.{Result, ok, err, continue, pure, lift, ◌>>=◌, ◌>>◌, map}
use near_workspaces_rs.Primitives.{
  SecretKey, PublicKey, Bytes, Action, FinalExecutionOutcomeView, ExecutionOutcomeWithIdView,
  u64_mod,
}
use near_workspaces_rs.Primitives.Rpc.{Call}
use near_workspaces_rs.Error.{Error}
use near_workspaces_rs.Execution.{from_view, total_gas, sum_gas}
use near_workspaces_rs.Client.Retry.{RetryLib}
use near_workspaces_rs.Client.{Client, send_batch_tx_and_retry}
use near_workspaces_rs.Client.Calls
use near_workspaces_rs.Meter.{GasHook, run_callbacks}
use near_workspaces_rs.Operations.Batch
use near_workspaces_rs.Operations.Batch.{Transaction}
use near_workspaces_rs.Operations.Env.{Env, Worker, on_client, callbacks, mapping}
use near_workspaces_rs.Operations.Transact.{
  CallTransaction, burnt, report, transact, transact_async, call_transact, call_transact_async,
}

burnt-sum_gas : (acc : ℕ) (ts : List ExecutionOutcomeWithIdView) → burnt acc ts ≡ sum_gas acc ts
unfolding burnt sum_gas
burnt-sum_gas acc [] = refl
burnt-sum_gas acc (t ∷ ts) = burnt-sum_gas ((acc + t.outcome.gas_burnt) % u64_mod) ts

module _ (lib : RetryLib) {W : Type 0} (call : Call W) (public_key : SecretKey → PublicKey) where
  pub report-callbacks :
      (worker : Worker) (view : FinalExecutionOutcomeView) (env : Env W)
      → report lib call public_key worker view env
        ≡ callbacks worker (from_view view).total_gas_burnt env
  unfolding report callbacks pure from_view total_gas
  report-callbacks worker view env = from worker.tx_callbacks
    where
      from :
          (hooks : List GasHook)
          → report lib call public_key (record { tx_callbacks = hooks }) view env
            ≡ callbacks (record { tx_callbacks = hooks }) (from_view view).total_gas_burnt env
      from [] = refl
      from (hook ∷ hooks) =
          ap
            (λ gas.
              callbacks (record { tx_callbacks = hook ∷ hooks })
                ((view.transaction_outcome.outcome.gas_burnt + gas) % u64_mod) env)
            (burnt-sum_gas 0 view.receipts_outcome)

  -- A batch that holds an error returns it, sends nothing and runs no hook.
  pub transact_deferred_error :
      (worker : Worker) (self : Transaction) (env : Env W) (e : Error)
      → self.actions ≡ err e
      → (transact lib call public_key worker self env ≡ (err e, env))
        × (transact_async lib call public_key self env ≡ (err e, env))
  unfolding transact transact_async mapping lift ◌>>=◌ ◌>>◌
  transact_deferred_error worker self env e h = (rw h, rw h)

  -- If the batch is executed, the hooks are given the total gas of the result that `transact` returns, up
  -- to the first one that fails, whose error takes the place of that result.
  pub transact_reports :
      (worker : Worker) (self : Transaction) (env : Env W) (actions : List Action)
      (view : FinalExecutionOutcomeView) (c : Client W)
      → self.actions ≡ ok actions
      → send_batch_tx_and_retry lib call public_key self.signer self.receiver_id actions env.client
        ≡ (ok view, c)
      → transact lib call public_key worker self env ≡ (
        map
            (λ _. from_view view)
            (run_callbacks worker.tx_callbacks (from_view view).total_gas_burnt env.meters).0,
        record {
          client = c;
          meters =
              (run_callbacks worker.tx_callbacks (from_view view).total_gas_burnt env.meters).1;
        },
      )
  unfolding transact callbacks mapping on_client lift pure ◌>>=◌ ◌>>◌ from_view
  transact_reports worker self env actions view c h sent =
      rw h (rw sent (rw (report-callbacks worker view (record env { client = c })) (ground arith)))

  -- If the batch cannot be sent, its error is returned and no hook runs.
  pub transact_unsent :
      (worker : Worker) (self : Transaction) (env : Env W) (actions : List Action) (e : Error)
      (c : Client W)
      → self.actions ≡ ok actions
      → send_batch_tx_and_retry lib call public_key self.signer self.receiver_id actions env.client
        ≡ (err e, c)
      → transact lib call public_key worker self env
        ≡ (err e, record { client = c; meters = env.meters })
  unfolding transact mapping on_client lift ◌>>=◌ ◌>>◌
  transact_unsent worker self env actions e c h sent = rw h (rw sent)

  pub same_end :
      (worker : Worker) (r : Result FinalExecutionOutcomeView Error) (env : Env W)
      → continue (map from_view r) env (λ txn. do callbacks worker txn.total_gas_burnt; pure txn)
        ≡ mapping from_view
            (λ s. continue r s (λ view. do report lib call public_key worker view; pure view))
            env
  unfolding mapping pure ◌>>=◌ ◌>>◌
  same_end worker (err e) env = refl
  same_end worker (ok view) env = rw (report-callbacks worker view env) (ground arith)

  same_transact :
      (worker : Worker) (self : CallTransaction) (env : Env W) (args : Result Bytes Error)
      → call_transact lib call public_key worker
          (record self { function = record self.function { args = args } })
          env
        ≡ transact lib call public_key worker
            (Batch.call
              (Batch.new self.signer self.contract_id)
              (record self.function { args = args }))
            env
  unfolding call_transact transact mapping on_client lift ◌>>=◌ ◌>>◌ Batch.call Batch.new
      Calls.call_function
  same_transact worker self env (err e) = refl
  same_transact worker self env (ok args) = same_end worker _ _

  same_async :
      (self : CallTransaction) (env : Env W) (args : Result Bytes Error)
      → call_transact_async lib call public_key
          (record self { function = record self.function { args = args } })
          env
        ≡ transact_async lib call public_key
            (Batch.call
              (Batch.new self.signer self.contract_id)
              (record self.function { args = args }))
            env
  unfolding call_transact_async transact_async on_client lift ◌>>=◌ Batch.call Batch.new
  same_async self env (err e) = refl
  same_async self env (ok args) = refl

  -- A call transaction does what a batch with this one call does, with the same errors, requests
  -- and reports, whether it waits for the outcome or not.
  pub call_transact-transact :
      (worker : Worker) (self : CallTransaction) (env : Env W)
      → (call_transact lib call public_key worker self env
          ≡ transact lib call public_key worker
              (Batch.call (Batch.new self.signer self.contract_id) self.function)
              env)
        × (call_transact_async lib call public_key self env
            ≡ transact_async lib call public_key
                (Batch.call (Batch.new self.signer self.contract_id) self.function)
                env)
  call_transact-transact worker self env =
      (same_transact worker self env self.function.args, same_async self env self.function.args)
