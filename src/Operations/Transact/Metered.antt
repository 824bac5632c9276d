-- ===== src/Operations/Transact/Metered.antt =====
-- A gas meter over the transactions that report to it (workspaces/src/types/gas_meter.rs and
-- workspaces/src/operations.rs).
use mathlib.Core.List.{map-append}
use near_workspaces_rs.Prelude.{
  ℕ, ◌+◌, ◌*◌, ◌%◌, ◌<◌, ◌≡◌, refl, sym, ap, ◌∙◌, some, List, [], ◌∷◌, ◌++◌, length, arith, String,
}
use near_workspaces_rs.Prelude as Lists
use near_workspaces_rs.Result
use near_workspaces_rs.Result.{Result, ok, err, continue, lift, ◌>>=◌}
use near_workspaces_rs.Primitives.{
  u64_mod, SecretKey, PublicKey, AccountId, Action, FinalExecutionOutcomeView,
}
use near_workspaces_rs.Primitives.Rpc.{Call}
use near_workspaces_rs.Error.{Error, BoxedError}
use near_workspaces_rs.Execution.{ExecutionFinalResult, from_view}
use near_workspaces_rs.Client.Retry.{RetryLib}
use near_workspaces_rs.Client.{Client, send_batch_tx_and_retry}
use near_workspaces_rs.Meter.{Cell, Meters, cell_at, meter_hook, now, elapsed}
use near_workspaces_rs.Meter.Laws.{times, Sound, Sound-cell, run_meters}
use near_workspaces_rs.Meter.Totals.{AllBelow, times_fresh, cell_at-append, Sound-append, fresh}
use near_workspaces_rs.Operations.Batch.{Transaction}
use near_workspaces_rs.Operations.Env.{Env, Worker, mapping}
use near_workspaces_rs.Operations.Transact.{
  CallTransaction, CreateAccountTransaction, transact, call_transact, create_transact, new_id,
}
use near_workspaces_rs.Operations.Transact.Hooks.{
  transact_reports, transact_unsent, transact_deferred_error, call_transact-transact,
}
use near_workspaces_rs.Operations.Transact.Creates.{
  creating, execution_of, create_transact-transact,
}

-- What reports to the hooks when it is sent.
pub data Reporting : Type 0 where
  batch : Transaction → Reporting
  single : CallTransaction → Reporting
  creation : CreateAccountTransaction → Reporting

abbrev pub gas_of : Result ExecutionFinalResult Error → ℕ
gas_of (ok r) = r.total_gas_burnt
gas_of (err e) = 0

-- The gas of all results that were returned.
abbrev pub gas_of_all : List (Result ExecutionFinalResult Error) → ℕ
gas_of_all [] = 0
gas_of_all (r ∷ rs) = gas_of r + gas_of_all rs

abbrev pub metered : List ℕ → Worker
metered is = record { tx_callbacks = Lists.map meter_hook is }

module _ (lib : RetryLib) {W : Type 0} (call : Call W) (public_key : SecretKey → PublicKey) where
  -- A meter in the store has gained the result's gas, as often as it is among the hooks.
  abbrev Gained : List ℕ → ℕ → Cell → Result ExecutionFinalResult Error × Env W → Type 0
  Gained is j c (r, env) =
      Sound env.meters
      × (cell_at j env.meters ≡ some (record c { gas = (c.gas + times j is * gas_of r) % u64_mod }))

  failed_gains :
      (is : List ℕ) (j : ℕ) (c : Cell) (e : Error) (env : Env W)
      → Sound env.meters
      → cell_at j env.meters ≡ some c
      → Gained is j c (err e, env)
  failed_gains is j c e env s at = (s, ground (arith, at, Sound-cell j env.meters c s at))

  transact_gains :
      (is : List ℕ) (j : ℕ) (c : Cell) (self : Transaction) (env : Env W)
      → Sound env.meters
      → cell_at j env.meters ≡ some c
      → Gained is j c (transact lib call public_key (metered is) self env)
  transact_gains is j c self env s at = from self.actions refl
    where
      from :
          (actions : Result (List Action) Error)
          → self.actions ≡ actions
          → Gained is j c (transact lib call public_key (metered is) self env)
      from (err e) h =
          rw ((transact_deferred_error lib call public_key (metered is) self env e h).0)
            (failed_gains is j c e env s at)
      from (ok actions) h = sent _ refl
        where
          client : Client W
          client =
              (send_batch_tx_and_retry lib call public_key self.signer self.receiver_id actions
                env.client).1

          sent :
              (r : Result FinalExecutionOutcomeView Error)
              → (send_batch_tx_and_retry lib call public_key self.signer self.receiver_id actions
                  env.client).0
                ≡ r
              → Gained is j c (transact lib call public_key (metered is) self env)
          sent (err e) q =
              rw
                (transact_unsent lib call public_key (metered is) self env actions e client h
                  (λ i. (q i, client)))
                (failed_gains is j c e (record env { client = client }) s at)
          sent (ok view) q =
              let told : _ = run_meters is j (from_view view).total_gas_burnt env.meters c s at in
              rw
                (
                  transact_reports lib call public_key (metered is) self env actions view client h
                      (λ i. (q i, client)),
                  told.0,
                )
                (told.1, told.2)

  module _ (from_seed : String → SecretKey)
      (parse_account_id : String → Result AccountId BoxedError) where
    -- The result of sending one of them, less the account that a creation returns
    pub send_reporting : Worker → Reporting → Env W → Result ExecutionFinalResult Error × Env W
    send_reporting worker (batch self) = transact lib call public_key worker self
    send_reporting worker (single self) = call_transact lib call public_key worker self
    send_reporting worker (creation self) =
        mapping (λ created. created.details)
          (create_transact lib call public_key from_seed parse_account_id worker self)

    -- The results of sending all of them, one after the other, whatever the results are
    pub send_all :
        Worker → List Reporting → Env W → List (Result ExecutionFinalResult Error) × Env W
    send_all worker [] env = ([], env)
    send_all worker (t ∷ ts) env =
        let (r, env') = send_reporting worker t env in
        let (rs, end) = send_all worker ts env' in (r ∷ rs, end)

    details_lem :
        (id : AccountId) (sk : SecretKey) (r : Result ExecutionFinalResult Error)
        → Result.map (λ created. created.details) (Result.map (λ d. execution_of id sk d) r) ≡ r
    details_lem id sk (ok d) = refl
    details_lem id sk (err e) = refl

    created_gains :
        (is : List ℕ) (j : ℕ) (c : Cell) (self : CreateAccountTransaction) (sk : SecretKey)
        (id : Result AccountId Error) (env : Env W)
        → Sound env.meters
        → cell_at j env.meters ≡ some c
        → Gained is j c (
            mapping
              (λ created. created.details)
              (λ env. continue id env (λ id.
                mapping
                  (λ details. execution_of id sk details)
                  (transact lib call public_key
                    (metered is)
                    (creating self.signer id (public_key sk) self.initial_balance))))
              env)
    unfolding mapping
    created_gains is j c self sk (err e) env s at = failed_gains is j c e env s at
    created_gains is j c self sk (ok id) env s at =
        rw
          (details_lem id sk
            (transact lib call public_key (metered is)
              (creating self.signer id (public_key sk) self.initial_balance) env).0)
          (transact_gains is j c (creating self.signer id (public_key sk) self.initial_balance) env
            s at)

    send_gains :
        (is : List ℕ) (j : ℕ) (c : Cell) (t : Reporting) (env : Env W)
        → Sound env.meters
        → cell_at j env.meters ≡ some c
        → Gained is j c (send_reporting (metered is) t env)
    unfolding send_reporting mapping lift ◌>>=◌
    send_gains is j c (batch self) env s at = transact_gains is j c self env s at
    send_gains is j c (single self) env s at =
        rw ((call_transact-transact lib call public_key (metered is) self env).0)
          (transact_gains is j c _ env s at)
    send_gains is j c (creation self) env s at =
        rw
          (create_transact-transact lib call public_key from_seed parse_account_id (metered is) self
            env)
          (created_gains is j c self _ (new_id lib call public_key from_seed parse_account_id self)
            env s at)

    send_all_gains :
        (is : List ℕ) (j : ℕ) (c : Cell) (ts : List Reporting) (env : Env W)
        → Sound env.meters
        → cell_at j env.meters ≡ some c
        → times j is ≡ 1
        → cell_at j (send_all (metered is) ts env).1.meters
          ≡ some
              (record c { gas = (c.gas + gas_of_all (send_all (metered is) ts env).0) % u64_mod })
    unfolding send_all
    send_all_gains is j c [] env s at once = ground (arith, at, Sound-cell j env.meters c s at)
    send_all_gains is j c (t ∷ ts) env s at once =
        let sent : Result ExecutionFinalResult Error × Env W = send_reporting (metered is) t env in
        let one : Gained is j c sent = send_gains is j c t env s at in
        send_all_gains is j (record c { gas = (c.gas + times j is * gas_of sent.0) % u64_mod }) ts
          sent.1 one.0 one.1 once
        ∙ rw once (ground arith)

    -- If no meter of the store is poisoned and the worker's other hooks belong to meters of the store,
    -- alive or dropped, then a meter taken with `now` reads, after any batches, calls and creations of
    -- accounts that are sent one after the other, the sum of the gas totals of the results that they
    -- returned, modulo 2^64. Those that returned an error add nothing.
    pub now-elapsed :
        (is : List ℕ) (ts : List Reporting) (env : Env W)
        → Sound env.meters
        → AllBelow (length env.meters) is
        → let taken = now (Lists.map meter_hook is) env.meters in
          let done =
            send_all (record { tx_callbacks = taken.1 }) ts (record env { meters = taken.2 }) in
          (c : Cell) × (cell_at taken.0 done.1.meters ≡ some c)
          × (elapsed c ≡ ok (gas_of_all done.0 % u64_mod))
    unfolding now elapsed
    now-elapsed is ts env s b =
        let m : Meters = env.meters ++ some fresh ∷ [] in
        let start : Env W = record env { meters = m } in
        let hooks : Lists.map meter_hook is ++ meter_hook (length env.meters) ∷ []
            ≡ Lists.map meter_hook (is ++ length env.meters ∷ []) =
          sym (map-append meter_hook is (length env.meters ∷ [])) in
        let gained : _ =
          send_all_gains (is ++ length env.meters ∷ []) (length env.meters) fresh ts start
            (Sound-append env.meters fresh s refl (omega arith))
            (cell_at-append env.meters (some fresh)) (times_fresh (length env.meters) is b) in
        let total : ℕ =
          gas_of_all
            (send_all
              (record {
                tx_callbacks = Lists.map meter_hook is ++ meter_hook (length env.meters) ∷ [];
              })
              ts start).0 in
        (record fresh { gas = (0 + total) % u64_mod }, rw hooks gained, ground arith)
