-- ===== src/Launch/Sandbox/Owned.antt =====
-- Which process the start of a server (workspaces/src/network/server.rs) adds to those that live.
use near_workspaces_rs.Prelude.{
  ℕ, String, Option, none, some, ◌≡◌, refl, ap, ◌⊎◌, inl, inr, string_eq,
}
use near_workspaces_rs.Result.{
  Result, ok, err, Exec, MayPanic, continue, pure, lift, ◌>>=◌, ◌>>◌, mapping_err, map_err,
}
use near_workspaces_rs.Network.{ValidatorKey}
use near_workspaces_rs.Error.{Error, BoxedError, sandbox_custom, run_failure}
use near_workspaces_rs.Client.Retry.{RetryLib}
use near_workspaces_rs.Server.{System, SandboxServer, choose_server}
use near_workspaces_rs.Config.{ℤ, Json, Files}
use near_workspaces_rs.Launch.{Outside, NetworkBuilder}
use near_workspaces_rs.Launch.Sandbox.{
  Processes, run_new_with_version, run_on, drop_process, drop_server,
}
use Prim.Native.String.{◌++◌}
use near_workspaces_rs.Launch.Sandbox.{options, rpc_socket, server_at, after_kill}
use near_workspaces_rs.Launch.Sandbox.Quiet.{
  acquire-Quiet, Quiet, Lifetimes, configure-Quiet, home_dir-Quiet, suppress-Quiet,
}

-- The process that the value returned owns. Of a panic nothing is said.
abbrev pub Owned : {X : Type 0} → (X → Option ℕ) → Result (MayPanic X) Error → ℕ → Type 0
Owned process (ok none) p = Unit {0}
Owned process (ok (some x)) p = process x ≡ some p
Owned process (err e) p = ⊥

-- An action that lets no process live but those that did and the one that its value owns.
pub record Owns {W X : Type 0} (Lives : ℕ → W → Type 0) (process : X → Option ℕ)
    (m : Exec W (MayPanic X) Error) : Type 0 where
  pub at : (w : W) (p : ℕ) → Lives p (m w).1 → Lives p w ⊎ Owned process (m w).0 p

module _ {W : Type 0} {Lives : ℕ → W → Type 0} where
  bind-Owns :
      {A X : Type 0} {process : X → Option ℕ} {m : Exec W A Error}
      {f : A → Exec W (MayPanic X) Error}
      → Quiet Lives m
      → ((a : A) → Owns Lives process (f a))
      → Owns Lives process (m >>= f)
  unfolding ◌>>=◌
  bind-Owns {A} {X} {process} {m} {f} q k = record {
    at = λ w p l. from w p (m w).0 (m w).1 (q.at w p) l;
  }
    where
      from :
          (w : W) (p : ℕ) (r : Result A Error) (s : W)
          → (Lives p s → Lives p w)
          → Lives p (continue r s f).1
          → Lives p w ⊎ Owned process (continue r s f).0 p
      from w p (err e) s h l = inl (h l)
      from w p (ok a) s h l = elim ((k a).at s p l) [ inl x ↦ inl (h x) | inr y ↦ inr y ]

module _ (lib : RetryLib) {W V : Type 0} {outside : Outside W} {os : System W} {ps : Processes W}
    {files : Files W V} {acquire : Exec W (ℕ × ℕ) Error}
    (lives : Lifetimes outside os ps files acquire) (json : Json V)
    (parse : String → Result ℤ BoxedError) where
  open lives use {Lives, acquires, runs, kills}

  run_on-Owns :
      (version dir : String) (rpc net : ℕ × ℕ) (name : Option String)
      → Owns Lives (λ s. s.process) (run_on ps outside.parse_url version dir rpc net name)
  unfolding run_on ◌>>=◌ mapping_err pure server_at
  run_on-Owns version dir rpc net none = record { at = λ w p l. inl l }
  run_on-Owns version dir rpc net (some name) = record {
    at = λ w p l.
        from w p _ _ (outside.parse_url ("http://" ++ rpc_socket ps rpc.0))
          (runs (options ps name (rpc_socket ps rpc.0) (rpc_socket ps net.0)) version w p) l;
  }
    where
      made :
          (child p : ℕ) (url : Result String BoxedError)
          → child ≡ p
          → Owned {X = SandboxServer} (λ s. s.process) (ok (server_at ps dir rpc net child url)) p
      made child p (err e) h = tt
      made child p (ok url) h = ap some h

      child_of : {child p : ℕ} → ◌≡◌ {A = Result ℕ BoxedError} (ok child) (ok p) → child ≡ p
      child_of h = cc

      from :
          (w : W) (p : ℕ) (r : Result ℕ BoxedError) (s : W) (url : Result String BoxedError)
          → (Lives p s → Lives p w ⊎ (r ≡ ok p))
          → Lives p
              (continue
                (map_err (sandbox_custom run_failure) r)
                s
                (λ child s. (ok (server_at ps dir rpc net child url), s))).1
          → Lives p w
            ⊎ Owned {X = SandboxServer}
                (λ s. s.process)
                (continue
                  (map_err (sandbox_custom run_failure) r)
                  s
                  (λ child s. (ok (server_at ps dir rpc net child url), s))).0
                p
      from w p (err e) s url h l = elim (h l) [ inl x ↦ inl x | inr y ↦ absurd (cc) ]
      from w p (ok child) s url h l = elim (h l) [
        | inl x ↦ inl x
        | inr y ↦ inr (made child p url (child_of y))
      ]

  run_new-Owns :
      (version : String)
      → Owns Lives
          (λ s. s.process)
          (run_new_with_version ps json files parse acquire outside.parse_url version)
  unfolding run_new_with_version ◌>>◌
  run_new-Owns version = bind-Owns (suppress-Quiet lib lives json parse) (λ u.
      bind-Owns (home_dir-Quiet lib lives json parse version) (λ dir.
        bind-Owns (configure-Quiet lib lives json parse dir) (λ u.
          bind-Owns (acquire-Quiet lib lives json parse) (λ rpc.
            bind-Owns (acquire-Quiet lib lives json parse)
              (λ net. run_on-Owns version dir rpc net (ps.to_str dir))))))

  -- The process that is dropped does not live on.
  pub drop-ends :
      (server : SandboxServer) (w : W) (p : ℕ)
      → (drop_server ps server w).0 ≡ some tt
      → Lives p (drop_server ps server w).1
      → Lives p w × ((server.process ≡ some p) → ⊥)
  unfolding drop_server drop_process after_kill
  drop-ends server w p h l = from server.process h l
    where
      killed :
          (child : ℕ) (r : Result (Unit {0}) BoxedError) (s : W)
          → (r ≡ ok tt → Lives p (ps.try_wait child s) → Lives p w × ((p ≡ child) → ⊥))
          → (after_kill ps r child s).0 ≡ some tt
          → Lives p (after_kill ps r child s).1
          → Lives p w × ((some child ≡ some p) → ⊥)
      killed child (err e) s k h l = absurd (cc)
      killed child (ok u) s k h l = let (a, b) = k refl l in (a, λ e. b (cc))

      from :
          (process : Option ℕ)
          → (drop_process ps process w).0 ≡ some tt
          → Lives p (drop_process ps process w).1
          → Lives p w × ((process ≡ some p) → ⊥)
      from none h l = (l, λ e. cc)
      from (some child) h l = killed child _ _ (kills child w p) h l

  pub chosen-Owns :
      (build : NetworkBuilder) (version : String)
      → Owns Lives
          (λ s. s.process)
          (choose_server os outside.parse_url
            (run_new_with_version ps json files parse acquire outside.parse_url version)
            build.rpc_addr
            build.validator_key)
  unfolding choose_server lift
  chosen-Owns build version = from build.rpc_addr build.validator_key
    where
      from :
          (addr : Option String) (key : Option ValidatorKey)
          → Owns Lives
              (λ s. s.process)
              (choose_server os outside.parse_url
                (run_new_with_version ps json files parse acquire outside.parse_url version)
                addr
                key)
      from none none = run_new-Owns version
      from (some a) none = record { at = λ w p l. inl l }
      from none (some k) = record { at = λ w p l. inl l }
      from (some a) (some k) = record { at = λ w p l. inl l }
