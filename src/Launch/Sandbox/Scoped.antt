-- ===== src/Launch/Sandbox/Scoped.antt =====
-- A task that is run on a sandbox of its own: `with_sandbox` of workspaces/src/worker/mod.rs. The task
-- owns a worker, whose sandbox is behind an `Arc`: the server is dropped with the last copy. Panics of
-- the task are left out.
use mathlib.Core.Option
use near_workspaces_rs.Prelude.{ℕ, zero, suc, arith, String, none, some, ◌≡◌, refl, ◌⊎◌, inl, inr}
use near_workspaces_rs.Result.{Result, ok, err, Exec, MayPanic, continue, pure, ◌>>=◌}
use near_workspaces_rs.Error.{Error, BoxedError}
use near_workspaces_rs.Client.Retry.{RetryLib}
use near_workspaces_rs.Server.{System, SandboxServer}
use near_workspaces_rs.Config.{ℤ, Json, Files}
use near_workspaces_rs.Launch.{Outside, Worker, new_worker}
use near_workspaces_rs.Launch.Sandbox.{Processes, Sandbox, drop_server, sandbox_worker, sandbox}
use near_workspaces_rs.Launch.Sandbox.Quiet.{Lifetimes}
use near_workspaces_rs.Launch.Sandbox.Owned.{Owned, drop-ends}
use near_workspaces_rs.Launch.Sandbox.Killed.{from_builder_with_version-lives}

-- What a task returns when it is done, and how many copies of its worker there still are then: in its
-- output, or anywhere else.
pub record Finished (T : Type 0) : Type 0 where
  pub output : T
  pub copies : ℕ

module _ {W : Type 0} (ps : Processes W) {T : Type 0} where
  finished_with : MayPanic (Unit {0}) → T → MayPanic T
  finished_with none t = none
  finished_with (some u) t = some t

  -- The end of the worker that the task was given: with the last copy, the server is dropped.
  released : SandboxServer → T → ℕ → W → Result (MayPanic T) Error × W
  unfolding finished_with
  released server t zero w = let (d, w') = drop_server ps server w in (ok (finished_with d t), w')
  released server t (suc n) w = (ok (some t), w)

  run_scoped :
      (Worker Sandbox → W → Finished T × W) → MayPanic (Worker Sandbox) → Exec W (MayPanic T) Error
  unfolding released
  run_scoped task none w = (ok none, w)
  run_scoped task (some worker) w =
      let (done, w') = task worker w in released worker.workspace.server done.output done.copies w'

module _ (lib : RetryLib) {W V : Type 0} (outside : Outside W) (os : System W) (ps : Processes W)
    (json : Json V) (files : Files W V) (parse : String → Result ℤ BoxedError)
    (acquire : Exec W (ℕ × ℕ) Error) (default_version : String) {T : Type 0} where
  unfoldable pub with_sandbox : (Worker Sandbox → W → Finished T × W) → Exec W (MayPanic T) Error
  unfolding run_scoped
  with_sandbox task = do
    worker ← sandbox_worker lib outside os ps json files parse acquire sandbox default_version
    run_scoped ps task worker

module _ (lib : RetryLib) {W V : Type 0} {outside : Outside W} {os : System W} {ps : Processes W}
    {files : Files W V} {acquire : Exec W (ℕ × ℕ) Error}
    (lives : Lifetimes outside os ps files acquire) (json : Json V)
    (parse : String → Result ℤ BoxedError) (default_version : String) {T : Type 0} where
  open lives use {Lives}

  scoped-lives :
      (task : Worker Sandbox → W → Finished T × W) (p : ℕ) (w : W)
      → ((worker : Worker Sandbox) (v : W) → Lives p (task worker v).1 → Lives p v)
      → ((worker : Worker Sandbox) (v : W) → (task worker v).0.copies ≡ 0)
      → (r : Result (MayPanic Sandbox) Error) (v : W)
      → (Lives p v → Lives p w ⊎ Owned {X = Sandbox} (λ s. s.server.process) r p)
      → let end =
          continue
            (continue r v (λ network. pure (Option.map new_worker network))).0
            (continue r v (λ network. pure (Option.map new_worker network))).1
            (run_scoped ps task) in
        Lives p end.1 → Lives p w ⊎ (end.0 ≡ ok none)
  unfolding run_scoped released finished_with pure new_worker
  scoped-lives task p w quiet alone (err e) v h l = elim (h l) [ inl x ↦ inl x | inr y ↦ absurd y ]
  scoped-lives task p w quiet alone (ok none) v h l = inr refl
  scoped-lives task p w quiet alone (ok (some s)) v h l =
      elim (dropped (task (new_worker s) v).0.copies (alone (new_worker s) v) l) [
        | inl (a, b) ↦ elim (h (quiet (new_worker s) v a)) [ inl x ↦ inl x | inr y ↦ absurd (b y) ]
        | inr panics ↦ inr panics
      ]
    where
      from :
          (t : T) (d : MayPanic (Unit {0})) (v u : W)
          → (d ≡ some tt → Lives p u → Lives p v × ((s.server.process ≡ some p) → ⊥))
          → Lives p u
          → (Lives p v × ((s.server.process ≡ some p) → ⊥))
            ⊎ (◌≡◌ {A = Result (MayPanic T) Error} (ok (finished_with ps d t)) (ok none))
      from t none v u k l = inr refl
      from t (some x) v u k l = inl (k refl l)

      dropped :
          (n : ℕ)
          → n ≡ 0
          → let done = task (new_worker s) v in
            Lives p (released ps s.server done.0.output n done.1).1
            → (Lives p done.1 × ((s.server.process ≡ some p) → ⊥))
              ⊎ ((released ps s.server done.0.output n done.1).0 ≡ ok none)
      dropped zero e l =
          from _ (drop_server ps s.server _).0 _ _ (drop-ends lib lives json parse s.server _ p) l
      dropped (suc n) e l = absurd (omega arith)

  -- If only `run_with_options` starts a process of a sandbox, killing one ends it, the search for a free
  -- port ends, and the task starts no such process and leaves no copy of its worker behind, then running
  -- the task on a sandbox of its own leaves no process of a sandbox alive that did not live before,
  -- whether the start fails or the task is run, unless the code panics.
  pub with_sandbox-lives :
      (task : Worker Sandbox → W → Finished T × W) (w : W) (p : ℕ)
      → ((worker : Worker Sandbox) (v : W) → Lives p (task worker v).1 → Lives p v)
      → ((worker : Worker Sandbox) (v : W) → (task worker v).0.copies ≡ 0)
      → Lives p (with_sandbox lib outside os ps json files parse acquire default_version task w).1
      → Lives p w
        ⊎ ((with_sandbox lib outside os ps json files parse acquire default_version task w).0
            ≡ ok none)
  unfolding with_sandbox sandbox_worker ◌>>=◌
  with_sandbox-lives task w p quiet alone l =
      scoped-lives task p w quiet alone _ _
        (from_builder_with_version-lives lib lives json parse sandbox default_version w p) l
