-- ===== src/Launch/Sandbox/Killed.antt =====
-- The process of a sandbox whose start fails (workspaces/src/network/sandbox.rs and
-- workspaces/src/network/server.rs).
use near_workspaces_rs.Prelude.{ℕ, String, none, some, ◌≡◌, refl, ◌∙◌, ap, ◌⊎◌, inl, inr, string_eq}
use near_workspaces_rs.Result.{Result, ok, err, Exec, MayPanic, continue, lift, ◌>>=◌, ◌>>◌}
use near_workspaces_rs.Client.Nonces.{NonceMap}
use near_workspaces_rs.Error.{Error, BoxedError}
use near_workspaces_rs.Client.Retry.{RetryLib}
use near_workspaces_rs.Server.{System, SandboxServer, Running, unlock_lockfiles}
use near_workspaces_rs.Config.{ℤ, Json, Files}
use near_workspaces_rs.Launch.{Outside, NetworkBuilder, waited, JsonRpcClient, new_client}
use near_workspaces_rs.Launch.Sandbox.{
  Processes, Sandbox, from_builder_with_version, connected, ended, with_server, on_system,
}
use near_workspaces_rs.Launch.Sandbox.{opened, after_drop}
use near_workspaces_rs.Launch.Sandbox.Quiet.{Lifetimes, waited-Quiet, unlock-Quiet}
use near_workspaces_rs.Launch.Sandbox.Owned.{Owned, drop-ends, chosen-Owns}

module _ (lib : RetryLib) {W V : Type 0} {outside : Outside W} {os : System W} {ps : Processes W}
    {files : Files W V} {acquire : Exec W (ℕ × ℕ) Error}
    (lives : Lifetimes outside os ps files acquire) (json : Json V)
    (parse : String → Result ℤ BoxedError) where
  open lives use {Lives, acquires, runs, kills}

  -- What the steps that use the server do to the lives, to the server's process, and whose process the
  -- returned sandbox has.
  Kept : ℕ → Running W → Result (MayPanic Sandbox) Error × Running W → Type 0
  Kept p s (r, t) =
      (Lives p t.system → Lives p s.system)
      × (t.server.process ≡ s.server.process)
      × ((sandbox : Sandbox) → r ≡ ok (some sandbox) → sandbox.server.process ≡ s.server.process)

  failed-Kept :
      (p : ℕ) (s t : Running W) (e : Error)
      → (Lives p t.system → Lives p s.system)
      → t.server.process ≡ s.server.process
      → Kept p s (err e, t)
  unfolding Kept
  failed-Kept p s t e l same = (l, same, λ sandbox h. absurd (cc))

  opened-Kept :
      (build : NetworkBuilder) (version : String) (client : JsonRpcClient) (nonces : NonceMap)
      (url : Result String BoxedError) (p : ℕ) (s t : Running W)
      → (Lives p t.system → Lives p s.system)
      → t.server.process ≡ s.server.process
      → Kept p s (opened lib outside os ps build version client nonces url t)
  unfolding opened Kept
  opened-Kept build version client nonces (err e) p s t l same = (l, same, λ sandbox h. absurd (cc))
  opened-Kept build version client nonces (ok url) p s t l same =
      (l, same, λ sandbox h. ap (λ x. x.server.process) (returned h) ∙ same)
    where
      returned :
          {a b : Sandbox}
          → ◌≡◌ {A = Result (MayPanic Sandbox) Error} (ok (some a)) (ok (some b))
          → b ≡ a
      returned h = cc

  connected-Kept :
      (build : NetworkBuilder) (version : String) (s : Running W) (p : ℕ)
      → Kept p s (connected lib outside os ps build version s)
  unfolding connected lift ◌>>=◌ ◌>>◌
  connected-Kept build version s p = built (new_client lib outside s.server.rpc_addr build.api_key)
    where
      after_unlock :
          (client : JsonRpcClient) (nonces : NonceMap) (r : Result (Unit {0}) Error) (t : Running W)
          → (Lives p t.system → Lives p s.system)
          → t.server.process ≡ s.server.process
          → Kept p s (
              continue r t (λ u.
                opened lib outside os ps build version client nonces
                  (outside.parse_url s.server.rpc_addr)))
      after_unlock client nonces (err e) t l same = failed-Kept p s t e l same
      after_unlock client nonces (ok u) t l same =
          opened-Kept build version client nonces _ p s t l same

      after_wait :
          (client : JsonRpcClient) (r : Result NonceMap Error) (w : W)
          → (Lives p w → Lives p s.system)
          → Kept p s (
              continue r
                (record s { system = w })
                (λ nonces.
                  unlock_lockfiles os
                  >> opened lib outside os ps build version client nonces
                      (outside.parse_url s.server.rpc_addr)))
      after_wait client (err e) w l = failed-Kept p s _ e l refl
      after_wait client (ok nonces) w l =
          let (quiet, same) = unlock-Quiet lib lives json parse (record s { system = w }) p in
          after_unlock client nonces _ _ (λ x. l (quiet x)) same

      built :
          (r : Result JsonRpcClient Error)
          → Kept p s (
              continue r s (λ client.
                on_system lib outside os ps (waited lib outside client) >>= λ nonces.
                unlock_lockfiles os
                >> opened lib outside os ps build version client nonces
                    (outside.parse_url s.server.rpc_addr)))
      built (err e) = failed-Kept p s s e (λ l. l) refl
      built (ok client) =
          after_wait client _ _ ((waited-Quiet lib lives json parse client).at s.system p)

  -- The lives at the end, if those when the server was there are those before or its own.
  ended-Owned :
      (s : Running W) (w : W) (p : ℕ) (r : Result (MayPanic Sandbox) Error) (t : Running W)
      → Kept p s (r, t)
      → (Lives p s.system → Lives p w ⊎ (s.server.process ≡ some p))
      → Lives p (ended lib outside os ps r t).1
      → Lives p w ⊎ Owned (λ sandbox. sandbox.server.process) (ended lib outside os ps r t).0 p
  unfolding Kept ended
  ended-Owned s w p r t (quiet, same, own) before l = from r own l
    where
      dropped :
          (r : Result (MayPanic Sandbox) Error) (d : MayPanic (Unit {0})) (v : W)
          → (d ≡ some tt → Lives p v → Lives p t.system × ((t.server.process ≡ some p) → ⊥))
          → Lives p (after_drop lib outside os ps d r v).1
          → Lives p w
            ⊎ Owned (λ sandbox. sandbox.server.process) (after_drop lib outside os ps d r v).0 p
      dropped r none v k l = inr tt
      dropped r (some u) v k l =
          let (a, b) = k refl l in
          elim (before (quiet a)) [ inl x ↦ inl x | inr y ↦ absurd (b (same ∙ y)) ]

      from :
          (r : Result (MayPanic Sandbox) Error)
          → ((sandbox : Sandbox)
              → r ≡ ok (some sandbox)
              → sandbox.server.process ≡ s.server.process)
          → Lives p (ended lib outside os ps r t).1
          → Lives p w ⊎ Owned (λ sandbox. sandbox.server.process) (ended lib outside os ps r t).0 p
      from (ok (some sandbox)) own l = elim (before (quiet l)) [
        | inl x ↦ inl x
        | inr y ↦ inr (own sandbox refl ∙ y)
      ]
      from (ok none) own l =
          dropped (ok none) _ _ (drop-ends lib lives json parse t.server t.system p) l
      from (err e) own l =
          dropped (err e) _ _ (drop-ends lib lives json parse t.server t.system p) l

  -- If only `run_with_options` starts a process of a sandbox, killing one ends it, and the search for a
  -- free port ends, then: if the sandbox's start returns an error, at whatever step, no process of a
  -- sandbox lives that did not before, so the one that was started is killed; if it returns a sandbox,
  -- no new process lives but that of the sandbox. Of a start that panics nothing is said.
  pub from_builder_with_version-lives :
      (build : NetworkBuilder) (version : String) (w : W) (p : ℕ)
      → Lives p
          (from_builder_with_version lib outside os ps json files parse acquire build version w).1
      → Lives p w
        ⊎ Owned
            (λ sandbox. sandbox.server.process)
            (from_builder_with_version lib outside os ps json files parse acquire build version w).0
            p
  unfolding from_builder_with_version with_server ◌>>=◌
  from_builder_with_version-lives build version w p l =
      from _ _ ((chosen-Owns lib lives json parse build version).at w p) l
    where
      from :
          (r : Result (MayPanic SandboxServer) Error) (v : W)
          → (Lives p v → Lives p w ⊎ Owned {X = SandboxServer} (λ s. s.process) r p)
          → Lives p (continue r v (with_server lib outside os ps build version)).1
          → Lives p w
            ⊎ Owned
                (λ sandbox. sandbox.server.process)
                (continue r v (with_server lib outside os ps build version)).0
                p
      from (err e) v h l = elim (h l) [ inl x ↦ inl x | inr y ↦ inr y ]
      from (ok none) v h l = inr tt
      from (ok (some server)) v h l =
          ended-Owned (record { server = server; system = v }) w p _ _
            (connected-Kept build version (record { server = server; system = v }) p) h l
