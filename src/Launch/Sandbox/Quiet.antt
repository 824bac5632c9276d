-- ===== src/Launch/Sandbox/Quiet.antt =====
-- What the steps of the sandbox's start (workspaces/src/network/server.rs and network/config.rs) do to
-- the processes that live.
use near_workspaces_rs.Prelude.{
  ℕ, zero, suc, ◌*◌, ◌%◌, String, Bool, true, false, Option, none, some, List, [], replicate, ◌≡◌,
  refl, ◌∙◌, ◌⊎◌, ◌==◌, string_eq, if◌then◌else◌,
}
use near_workspaces_rs.Result.{
  Result, ok, err, Exec, continue, pure, lift, ◌>>=◌, ◌>>◌, mapping_err,
}
use near_workspaces_rs.Primitives.{u64_mod}
use near_workspaces_rs.Primitives.Rpc.{Request}
use near_workspaces_rs.Error.{Error, BoxedError}
use near_workspaces_rs.Client.Retry.{RetryLib, spawn_rule}
use near_workspaces_rs.Client.{Client, rpc_call}
use near_workspaces_rs.Client.Calls.{status, wait_for_rpc, spawn_status, timeout_secs}
use near_workspaces_rs.Server.{
  acquire_unused_port, attempt, after_attempt, pick_unused_port, locked, System, Running,
  unlock_lockfiles, release, release_rpc, release_net,
}
use near_workspaces_rs.Config.{ℤ, Json, Files, set_sandbox_configs, overwrite}
use near_workspaces_rs.Launch.{Outside, waited, JsonRpcClient}
use near_workspaces_rs.Launch.Sandbox.{
  Processes, configure, init_home_dir_with_version, suppress_sandbox_logs_if_required, suppressed,
}

-- An action that lets no process live that did not live before.
pub record Quiet {W A E : Type 0} (Lives : ℕ → W → Type 0) (m : Exec W A E) : Type 0 where
  pub at : (w : W) (p : ℕ) → Lives p (m w).1 → Lives p w

-- What the system's operations do to the lives of sandbox processes: only `run_with_options` starts
-- one, and killing a process ends it. The loop of `acquire_unused_port` ends, and `acquire` is what it
-- returns.
pub record Lifetimes {W V : Type 0} (outside : Outside W) (os : System W) (ps : Processes W)
    (files : Files W V) (acquire : Exec W (ℕ × ℕ) Error) : Type 1 where
  pub Lives : ℕ → W → Type 0
  pub tempdir : Quiet Lives ps.tempdir
  pub init : (dir version : String) → Quiet Lives (ps.init_with_version dir version)
  pub waits : (child : ℕ) → Quiet Lives (ps.wait_with_output child)
  pub sets : (name value : String) (w : W) (p : ℕ) → Lives p (ps.set_var name value w) → Lives p w
  pub opens : (path : String) → Quiet Lives (files.open_file path)
  pub reads : (file : ℕ) → Quiet Lives (files.from_reader file)
  pub creates : (path : String) → Quiet Lives (files.create path)
  pub writes : (file : ℕ) (v : V) → Quiet Lives (files.to_writer file v)
  pub binds : Quiet Lives os.bind
  pub ports : (listener : ℕ) → Quiet Lives (os.local_port listener)
  pub lockfiles : (port : ℕ) → Quiet Lives (os.create_lockfile port)
  pub locks : (file : ℕ) (w : W) (p : ℕ) → Lives p (os.try_lock_exclusive file w).1 → Lives p w
  pub acquires : (w : W) → (fuel : ℕ) × (acquire_unused_port os fuel w ≡ some (acquire w))
  pub unlocks : (file : ℕ) → Quiet Lives (os.unlock file)
  pub answers : (c : JsonRpcClient) → Quiet Lives (outside.call c Request.status)
  pub runs :
      (args : List String) (version : String) (w : W) (p : ℕ)
      → Lives p (ps.run_with_options args version w).1
      → Lives p w ⊎ ((ps.run_with_options args version w).0 ≡ ok p)
  pub kills :
      (child : ℕ) (w : W) (p : ℕ)
      → (ps.start_kill child w).0 ≡ ok tt
      → Lives p (ps.try_wait child (ps.start_kill child w).1)
      → Lives p w × ((p ≡ child) → ⊥)

module _ {W : Type 0} (Lives : ℕ → W → Type 0) where
  pub pure-Quiet : {A E : Type 0} (a : A) → Quiet {E = E} Lives (pure a)
  unfolding pure
  pure-Quiet a = record { at = λ w p l. l }

  pub lift-Quiet : {A E : Type 0} (r : Result A E) → Quiet Lives (lift r)
  unfolding lift
  lift-Quiet r = record { at = λ w p l. l }

  pub mapping_err-Quiet :
      {A E F : Type 0} (f : E → F) (m : Exec W A E) → Quiet Lives m → Quiet Lives (mapping_err f m)
  unfolding mapping_err
  mapping_err-Quiet f m q = record { at = q.at }

  -- A state from which no other process lives than in `w`
  pub bind-Quiet :
      {A B E : Type 0} {m : Exec W A E} {f : A → Exec W B E}
      → Quiet Lives m
      → ((a : A) → Quiet Lives (f a))
      → Quiet Lives (m >>= f)
  unfolding ◌>>=◌
  bind-Quiet {A} {B} {E} {m} {f} q k = record { at = λ w p l. q.at w p (from (m w).0 (m w).1 p l) }
    where
      from : (r : Result A E) (s : W) (p : ℕ) → Lives p (continue r s f).1 → Lives p s
      from (ok a) s p l = (k a).at s p l
      from (err e) s p l = l

module _ (lib : RetryLib) {W V : Type 0} {outside : Outside W} {os : System W} {ps : Processes W}
    {files : Files W V} {acquire : Exec W (ℕ × ℕ) Error}
    (lives : Lifetimes outside os ps files acquire) (json : Json V)
    (parse : String → Result ℤ BoxedError) where
  open lives use {
    binds, ports, lockfiles, locks, Lives, tempdir, init, waits, sets, opens, reads, creates,
    writes, acquires, unlocks, answers, runs, kills,
  }

  set_configs-Quiet :
      (var : String → Option String) (dir : String)
      → Quiet Lives (set_sandbox_configs json files parse var dir)
  unfolding set_sandbox_configs overwrite
  set_configs-Quiet var dir = bind-Quiet Lives (lift-Quiet Lives _) (λ m.
      bind-Quiet Lives (lift-Quiet Lives _) (λ n.
        bind-Quiet Lives (mapping_err-Quiet Lives _ _ (opens _)) (λ f.
          bind-Quiet Lives (mapping_err-Quiet Lives _ _ (reads f)) (λ c.
            bind-Quiet Lives (mapping_err-Quiet Lives _ _ (creates _))
              (λ g. mapping_err-Quiet Lives _ _ (writes g _))))))

  attempt-Quiet : Quiet Lives (attempt os)
  unfolding attempt pick_unused_port locked
  attempt-Quiet =
      bind-Quiet Lives
        (bind-Quiet Lives (mapping_err-Quiet Lives _ _ binds)
          (λ listener. mapping_err-Quiet Lives _ _ (ports listener)))
        (λ port.
          bind-Quiet Lives (mapping_err-Quiet Lives _ _ (lockfiles port))
            (λ file. record { at = λ w p l. locks file w p l }))

  acquired-Quiet :
      (fuel : ℕ) (w v : W) (r : Result (ℕ × ℕ) Error) (p : ℕ)
      → acquire_unused_port os fuel w ≡ some (r, v)
      → Lives p v
      → Lives p w
  unfolding acquire_unused_port
  acquired-Quiet zero w v r p e l = absurd (cc)
  acquired-Quiet (suc fuel) w v r p e l = (attempt-Quiet).at w p (
      turn (acquire_unused_port os fuel) (attempt os w).0 (attempt os w).1
        (λ u e l. acquired-Quiet fuel u v r p e l) e l)
    where
      turn :
          (again : W → Option (Result (ℕ × ℕ) Error × W)) (a : Result (Option (ℕ × ℕ)) Error)
          (u : W)
          → ((u : W) → again u ≡ some (r, v) → Lives p v → Lives p u)
          → after_attempt os a u again ≡ some (r, v)
          → Lives p v
          → Lives p u
      turn again (ok (some held)) u h e l = rw (same e) l
        where
          same :
              ◌≡◌ {A = Option (Result (ℕ × ℕ) Error × W)} (some (ok held, u)) (some (r, v)) → u ≡ v
          same e = cc
      turn again (ok none) u h e l = h u e l
      turn again (err x) u h e l = rw (same e) l
        where
          same : ◌≡◌ {A = Option (Result (ℕ × ℕ) Error × W)} (some (err x, u)) (some (r, v)) → u ≡ v
          same e = cc

  pub acquire-Quiet : Quiet Lives acquire
  acquire-Quiet = record {
    at = λ w p l. acquired-Quiet (acquires w).0 w (acquire w).1 (acquire w).0 p (acquires w).1 l;
  }

  pub configure-Quiet :
      (dir : String) → Quiet Lives (configure ps json files parse acquire outside.parse_url dir)
  unfolding configure
  configure-Quiet dir = record { at = λ w p l. (set_configs-Quiet _ dir).at w p l }

  pub home_dir-Quiet : (version : String) → Quiet Lives (init_home_dir_with_version ps version)
  unfolding init_home_dir_with_version ◌>>◌
  home_dir-Quiet version = bind-Quiet Lives (mapping_err-Quiet Lives _ _ tempdir) (λ dir.
      bind-Quiet Lives (mapping_err-Quiet Lives _ _ (init dir version)) (λ child.
        bind-Quiet Lives (mapping_err-Quiet Lives _ _ (waits child)) (λ u. pure-Quiet Lives dir)))

  pub waited-Quiet : (c : JsonRpcClient) → Quiet Lives (waited lib outside c)
  unfolding waited wait_for_rpc spawn_status ◌>>=◌ lift mapping_err status rpc_call
  waited-Quiet c = record {
    at = λ w p l.
        from w p (timeout_secs outside.parse_usize outside.timeout_var)
          (record { access_key_nonces = []; node = w }) (λ h. h) l;
  }
    where
      from :
          (w : W) (p : ℕ) (t : Result ℕ Error) (k : Client W)
          → (Lives p k.node → Lives p w)
          → Lives p (continue t k (spawn_status lib (outside.call c))).1.node
          → Lives p w
      from w p (err e) k h l = h l
      from w p (ok secs) k h l =
          (spawn_rule lib (status lib (outside.call c)) (λ s. Lives p s.node → Lives p w)
              (λ r s. Unit {0}) (λ s g. (λ l. g ((answers c).at s.node p l), tt))
              (replicate ((2 * secs) % u64_mod) 500) k h).0
            l

  release-Quiet :
      (msg : String) (lock : Option ℕ) (s : Running W) (p : ℕ)
      → (Lives p (release os msg lock s).1.system → Lives p s.system)
        × ((release os msg lock s).1.server.process ≡ s.server.process)
  unfolding release
  release-Quiet msg none s p = (λ l. l, refl)
  release-Quiet msg (some file) s p = ((unlocks file).at s.system p, refl)

  pub unlock-Quiet :
      (s : Running W) (p : ℕ)
      → (Lives p (unlock_lockfiles os s).1.system → Lives p s.system)
        × ((unlock_lockfiles os s).1.server.process ≡ s.server.process)
  unfolding unlock_lockfiles release_rpc release_net ◌>>=◌ ◌>>◌
  unlock-Quiet s p = from _ _ (release-Quiet _ s.server.rpc_port_lock _ p)
    where
      from :
          (r : Result (Unit {0}) Error) (s' : Running W)
          → (Lives p s'.system → Lives p s.system) × (s'.server.process ≡ s.server.process)
          → (Lives p (continue r s' (λ u. release_net os)).1.system → Lives p s.system)
            × ((continue r s' (λ u. release_net os)).1.server.process ≡ s.server.process)
      from (err e) s' h = h
      from (ok u) s' h =
          let (quiet, same) = release-Quiet _ s'.server.net_port_lock _ p in
          (λ l. h.0 (quiet l), same ∙ h.1)

  pub suppress-Quiet : {E : Type 0} → Quiet {E = E} Lives (suppress_sandbox_logs_if_required ps)
  unfolding suppress_sandbox_logs_if_required suppressed
  suppress-Quiet = record { at = λ w p l. from w p (ps.var "NEAR_ENABLE_SANDBOX_LOG" w) l }
    where
      set_if :
          (w : W) (p : ℕ) (b : Bool)
          → Lives p (
              if b
              then ps.set_var "NEAR_SANDBOX_LOG" "near=error,stats=error,network=error" w
              else w)
          → Lives p w
      set_if w p true l = sets _ _ w p l
      set_if w p false l = l

      from : (w : W) (p : ℕ) (v : Option String) → Lives p (suppressed ps v w) → Lives p w
      from w p none l = sets _ _ w p l
      from w p (some val) l = set_if w p (val == "0") l
