-- ===== src/Launch/Sandbox/Ready.antt =====
-- The sandbox that its start returns (workspaces/src/network/sandbox.rs).
use near_workspaces_rs.Prelude.{ℕ, String, none, some, ◌≡◌, refl, ◌∙◌, ap, arith}
use near_workspaces_rs.Result
use near_workspaces_rs.Result.{
  Result, ok, err, Exec, MayPanic, continue, bind_ok, lift, ◌>>=◌, ◌>>◌,
}
use near_workspaces_rs.Primitives.Rpc.{Request}
use near_workspaces_rs.Error.{Error, BoxedError}
use near_workspaces_rs.Client.Retry.{RetryLib}
use near_workspaces_rs.Client.Nonces.{NonceMap}
use near_workspaces_rs.Server.{
  System, SandboxServer, Running, unlock_lockfiles, release, release_rpc, release_net,
  choose_server,
}
use near_workspaces_rs.Server.Locks.{unlock_again, Unlocking, Freed, unlocked_Freed}
use near_workspaces_rs.Config.{ℤ, Json, Files}
use near_workspaces_rs.Launch.{Outside, NetworkBuilder, JsonRpcClient, new_client, waited}
use near_workspaces_rs.Launch.Answered.{waited_call}
use near_workspaces_rs.Launch.Sandbox.{
  Processes, Sandbox, opened, connected, on_system, ended, after_drop, with_server,
  from_builder_with_version, run_new_with_version,
}

module _ (lib : RetryLib) {W : Type 0} (outside : Outside W) (os : System W) (ps : Processes W)
    (unlocking : Unlocking os) where
  -- The sandbox, and the system `end`, that come of the server that was chosen or started.
  pub record IsReady (build : NetworkBuilder) (server : SandboxServer) (sandbox : Sandbox) (end : W)
      : Type 0 where
    pub same_address : sandbox.server.rpc_addr ≡ server.rpc_addr
    pub connects : new_client lib outside server.rpc_addr build.api_key ≡ ok sandbox.rpc_client
    -- The status call that is answered comes right before the release of the locks.
    pub asked : W
    pub told : W
    pub answers : outside.call sandbox.rpc_client Request.status asked ≡ (ok tt, told)
    pub unlocks : end ≡ (unlock_lockfiles os (record { server = server; system = told })).1.system
    pub no_rpc_lock : sandbox.server.rpc_port_lock ≡ none
    pub no_net_lock : sandbox.server.net_port_lock ≡ none
    pub rpc_freed : Freed os unlocking server.rpc_port_lock end
    pub net_freed : Freed os unlocking server.net_port_lock end

  unlock-rpc_addr : (s : Running W) → (unlock_lockfiles os s).1.server.rpc_addr ≡ s.server.rpc_addr
  unfolding unlock_lockfiles release_rpc release_net release ◌>>=◌ ◌>>◌
  unlock-rpc_addr s = ground arith

  waited_answered :
      (client : JsonRpcClient) (w : W) (nonces : NonceMap)
      → (waited lib outside client w).0 ≡ ok nonces
      → (v : W) × (outside.call client Request.status v ≡ (ok tt, (waited lib outside client w).1))
  unfolding waited
  waited_answered client w nonces h =
      waited_call lib (outside.call client) outside.parse_usize outside.timeout_var _ (mapped _ _ h)
    where
      mapped :
          (m : NonceMap) (r : Result (Unit {0}) Error)
          → Result.map (λ u. m) r ≡ ok nonces
          → r ≡ ok tt
      mapped m (ok u) h = refl
      mapped m (err e) h = absurd (cc)

  opened_sandbox :
      (build : NetworkBuilder) (version : String) (client : JsonRpcClient) (nonces : NonceMap)
      (url : Result String BoxedError) (s : Running W) (sandbox : Sandbox)
      → (opened lib outside os ps build version client nonces url s).0 ≡ ok (some sandbox)
      → (sandbox.server ≡ s.server)
        × (sandbox.rpc_client ≡ client)
        × ((opened lib outside os ps build version client nonces url s).1 ≡ s)
  unfolding opened
  opened_sandbox build version client nonces (err e) s sandbox h = absurd (cc)
  opened_sandbox build version client nonces (ok url) s sandbox h =
      (ap (λ x. x.server) (same h), ap (λ x. x.rpc_client) (same h), refl)
    where
      same :
          {a b : Sandbox}
          → ◌≡◌ {A = Result (MayPanic Sandbox) Error} (ok (some a)) (ok (some b))
          → b ≡ a
      same h = cc

  ended-some :
      (r : Result (MayPanic Sandbox) Error) (s : Running W) (sandbox : Sandbox)
      → (ended lib outside os ps r s).0 ≡ ok (some sandbox)
      → (r ≡ ok (some sandbox)) × ((ended lib outside os ps r s).1 ≡ s.system)
  unfolding ended
  ended-some (ok (some x)) s sandbox h = (h, refl)
  ended-some (ok none) s sandbox h = absurd (dropped _ _ h)
    where
      dropped :
          (d : MayPanic (Unit {0})) (w : W)
          → (after_drop lib outside os ps d (ok none) w).0 ≡ ok (some sandbox)
          → ⊥
      dropped none w h = cc
      dropped (some u) w h = cc
  ended-some (err e) s sandbox h = absurd (dropped _ _ h)
    where
      dropped :
          (d : MayPanic (Unit {0})) (w : W)
          → (after_drop lib outside os ps d (err e) w).0 ≡ ok (some sandbox)
          → ⊥
      dropped none w h = cc
      dropped (some u) w h = cc

  unlocked-IsReady :
      (build : NetworkBuilder) (version : String) (client : JsonRpcClient) (nonces : NonceMap)
      (url : Result String BoxedError) (server : SandboxServer) (asked told : W) (sandbox : Sandbox)
      → new_client lib outside server.rpc_addr build.api_key ≡ ok client
      → outside.call client Request.status asked ≡ (ok tt, told)
      → let step =
          (unlock_lockfiles os >> opened lib outside os ps build version client nonces url)
            (record { server = server; system = told }) in
        step.0 ≡ ok (some sandbox) → IsReady build server sandbox step.1.system
  unfolding ◌>>◌
  unlocked-IsReady build version client nonces url server asked told sandbox connects answers h =
      let s : Running W = record { server = server; system = told } in
      let (u, unlocks, h1, q) = bind_ok (unlock_lockfiles os) _ s h in
      let (same, used, kept) = opened_sandbox build version client nonces url _ sandbox h1 in
      let (rpc, net, again) = unlock_again os s unlocks in
      let ends : ((unlock_lockfiles os >> opened lib outside os ps build version client nonces url)
            s).1.system
          ≡ (unlock_lockfiles os s).1.system =
        ap (λ x. x.1.system) q ∙ ap (λ x. x.system) kept in
      let (rpc_freed, net_freed) = unlocked_Freed os unlocking s unlocks in
      record {
        same_address = ap (λ x. x.rpc_addr) same ∙ unlock-rpc_addr s;
        connects = rw used connects;
        asked = asked;
        told = told;
        answers = rw used answers;
        unlocks = ends;
        no_rpc_lock = ap (λ x. x.rpc_port_lock) same ∙ rpc;
        no_net_lock = ap (λ x. x.net_port_lock) same ∙ net;
        rpc_freed = rw ends rpc_freed;
        net_freed = rw ends net_freed;
      }

  connected-IsReady :
      (build : NetworkBuilder) (version : String) (server : SandboxServer) (w : W)
      (sandbox : Sandbox)
      → let step =
          connected lib outside os ps build version (record { server = server; system = w }) in
        step.0 ≡ ok (some sandbox) → IsReady build server sandbox step.1.system
  unfolding connected lift
  connected-IsReady build version server w sandbox h =
      let s : Running W = record { server = server; system = w } in
      let (client, connects, h1, q1) =
        bind_ok (lift (new_client lib outside server.rpc_addr build.api_key)) _ s h in
      let (nonces, waits, h2, q2) =
        bind_ok (on_system lib outside os ps (waited lib outside client)) _ s h1 in
      let (asked, answers) = waited_answered client w nonces waits in
      rw (q1 ∙ q2) (
        unlocked-IsReady build version client nonces (outside.parse_url server.rpc_addr) server
          asked _ sandbox connects answers h2)

  module _ {V : Type 0} (json : Json V) (files : Files W V) (parse : String → Result ℤ BoxedError)
      (acquire : Exec W (ℕ × ℕ) Error) where
    -- If unlocking a file ends its lock and takes no other, and the start of the sandbox returns one,
    -- then there is the server that was chosen or started, and the locks of both its ports are held no
    -- longer, nor kept in its fields. The sandbox's client is the connection to that server's address with
    -- the builder's key, and right before the locks were released the server answered its status call.
    pub from_builder-IsReady :
        (build : NetworkBuilder) (version : String) (w : W) (sandbox : Sandbox)
        → (from_builder_with_version lib outside os ps json files parse acquire build version w).0
          ≡ ok (some sandbox)
        → (server : SandboxServer) × (v : W) × (choose_server os outside.parse_url
              (run_new_with_version ps json files parse acquire outside.parse_url version)
              build.rpc_addr
              build.validator_key
              w
            ≡ (ok (some server), v))
          × IsReady build server sandbox
              (from_builder_with_version lib outside os ps json files parse acquire build version
                w).1
    unfolding from_builder_with_version with_server
    from_builder-IsReady build version w sandbox h =
        let step : Result (MayPanic SandboxServer) Error × W =
          choose_server os outside.parse_url
            (run_new_with_version ps json files parse acquire outside.parse_url version)
            build.rpc_addr build.validator_key w in
        let (server, chosen, h1, q) = bind_ok _ _ w h in
        let (found, same, ready) = from server _ h1 in
        (found, step.1, λ i. ((chosen ∙ ap ok same) i, step.1), rw q ready)
      where
        from :
            (server : MayPanic SandboxServer) (w : W)
            → (with_server lib outside os ps build version server w).0 ≡ ok (some sandbox)
            → (found : SandboxServer) × (server ≡ some found)
              × IsReady build found sandbox (with_server lib outside os ps build version server w).1
        from none w h = absurd (cc)
        from (some server) w h =
            let (returned, kept) = ended-some _ _ sandbox h in
            (server, refl, rw kept (connected-IsReady build version server w sandbox returned))
