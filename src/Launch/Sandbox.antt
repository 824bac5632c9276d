-- ===== src/Launch/Sandbox.antt =====
-- Starting the sandbox: workspaces/src/network/server.rs and `from_builder_with_version` of
-- network/sandbox.rs. The processes, the environment and the directories of the system are parameters.
-- `acquire` stands for what the loop of `acquire_unused_port` of Server returns. When a server's lifetime ends, its process is
-- killed; the closing of its lock files is left out.
pub mod Quiet
pub mod Owned
pub mod Killed
pub mod Ready
pub mod Scoped
use Prim.Native.String.{◌++◌}
use mathlib.Core.Option
use near_workspaces_rs.Prelude.{
  ℕ, String, Option, none, some, List, [], ◌∷◌, if◌then◌else◌, ◌==◌, string_eq,
}
use near_workspaces_rs.Result
use near_workspaces_rs.Result.{
  Result, ok, err, Exec, MayPanic, pure, lift, ◌>>=◌, ◌>>◌, mapping_err,
}
use near_workspaces_rs.Error.{
  Error, BoxedError, custom, io, sandbox_custom, init_failure, run_failure,
}
use near_workspaces_rs.Client.Retry.{RetryLib}
use near_workspaces_rs.Client.Nonces.{NonceMap}
use near_workspaces_rs.Network.{ValidatorKey, home_dir}
use near_workspaces_rs.Server.{System, SandboxServer, Running, unlock_lockfiles, choose_server}
use near_workspaces_rs.Config.{ℤ, Json, Files, set_sandbox_configs}
use near_workspaces_rs.Launch.{
  JsonRpcClient, Outside, NetworkBuilder, Info, Worker, new, new_worker, new_client, waited,
}

-- The crates tempfile and near_sandbox_utils, processes, the environment, and the printing of a port.
-- A process is named by a number.
pub record Processes (W : Type 0) : Type 0 where
  pub tempdir : Exec W String BoxedError
  pub init_with_version : String → String → Exec W ℕ BoxedError
  pub wait_with_output : ℕ → Exec W (Unit {0}) BoxedError
  pub run_with_options : List String → String → Exec W ℕ BoxedError
  pub start_kill : ℕ → Exec W (Unit {0}) BoxedError
  pub try_wait : ℕ → W → W
  pub var : String → W → Option String
  pub set_var : String → String → W → W
  pub to_str : String → Option String
  pub to_string : ℕ → String

-- `Sandbox`
pub record Sandbox : Type 0 where
  pub server : SandboxServer
  pub rpc_client : JsonRpcClient
  pub access_key_nonces : NonceMap
  pub info : Info
  pub version : Option String

module _ {W : Type 0} (ps : Processes W) where
  unfoldable pub rpc_socket : ℕ → String
  rpc_socket port = "127.0.0.1:" ++ ps.to_string port

  suppressed : Option String → W → W
  suppressed none w = ps.set_var "NEAR_SANDBOX_LOG" "near=error,stats=error,network=error" w
  suppressed (some val) w =
      if val == "0"
      then ps.set_var "NEAR_SANDBOX_LOG" "near=error,stats=error,network=error" w
      else w

  unfoldable pub suppress_sandbox_logs_if_required : {E : Type 0} → Exec W (Unit {0}) E
  unfolding suppressed
  suppress_sandbox_logs_if_required w = (ok tt, suppressed (ps.var "NEAR_ENABLE_SANDBOX_LOG" w) w)

  unfoldable pub init_home_dir_with_version : String → Exec W String Error
  unfolding custom sandbox_custom
  init_home_dir_with_version version = do
    dir ← mapping_err (custom io) ps.tempdir
    child ← mapping_err (sandbox_custom init_failure) (ps.init_with_version dir version)
    mapping_err (sandbox_custom init_failure) (ps.wait_with_output child)
    pure dir

  after_kill : Result (Unit {0}) BoxedError → ℕ → W → MayPanic (Unit {0}) × W
  after_kill (ok u) child w = (some tt, ps.try_wait child w)
  after_kill (err e) child w = (none, w)

  -- `impl Drop for SandboxServer`; `none` is the panic of `expect`.
  drop_process : Option ℕ → W → MayPanic (Unit {0}) × W
  unfolding after_kill
  drop_process none w = (some tt, w)
  drop_process (some child) w = let (r, w') = ps.start_kill child w in after_kill r child w'

  unfoldable pub drop_server : SandboxServer → W → MayPanic (Unit {0}) × W
  unfolding drop_process
  drop_server self w = drop_process self.process w

  options : String → String → String → List String
  options dir rpc_addr net_addr =
      "--home" ∷ dir ∷ "run" ∷ "--rpc-addr" ∷ rpc_addr ∷ "--network-addr" ∷ net_addr ∷ []

  server_at : String → ℕ × ℕ → ℕ × ℕ → ℕ → Result String BoxedError → MayPanic SandboxServer
  server_at dir rpc net child (err e) = none
  server_at dir rpc net child (ok url) = some (record {
    validator_key = home_dir dir;
    rpc_addr = url;
    net_port = some net.0;
    rpc_port_lock = some rpc.1;
    net_port_lock = some net.1;
    process = some child;
  })

  -- The start of the process on the two locked ports, once the directory's name is text
  run_on :
      (String → Result String BoxedError)
      → String
      → String
      → ℕ × ℕ
      → ℕ × ℕ
      → Option String
      → Exec W (MayPanic SandboxServer) Error
  unfolding options sandbox_custom rpc_socket server_at
  run_on parse_url version dir rpc net none = pure none
  run_on parse_url version dir rpc net (some name) = do
    child ←
        mapping_err (sandbox_custom run_failure)
          (ps.run_with_options (options name (rpc_socket rpc.0) (rpc_socket net.0)) version)
    pure (server_at dir rpc net child (parse_url ("http://" ++ rpc_socket rpc.0)))

  module _ {V : Type 0} (json : Json V) (files : Files W V) (parse : String → Result ℤ BoxedError)
      (acquire : Exec W (ℕ × ℕ) Error) (parse_url : String → Result String BoxedError) where
    pub configure : String → Exec W (Unit {0}) Error
    configure dir w = set_sandbox_configs json files parse (λ name. ps.var name w) dir w

    -- `SandboxServer::run_new_with_version`
    unfoldable pub run_new_with_version : String → Exec W (MayPanic SandboxServer) Error
    unfolding run_on configure
    run_new_with_version version = do
      suppress_sandbox_logs_if_required
      dir ← init_home_dir_with_version version
      configure dir
      rpc ← acquire
      net ← acquire
      run_on parse_url version dir rpc net (ps.to_str dir)

unfoldable pub sandbox : NetworkBuilder
sandbox = new "sandbox"

-- `validator_key` of the sandbox's builder
unfoldable pub set_validator_key : NetworkBuilder → ValidatorKey → NetworkBuilder
set_validator_key self validator_key = record self { validator_key = some validator_key }

module _ (lib : RetryLib) {W : Type 0} (outside : Outside W) (os : System W)
    (ps : Processes W) where
  abbrev pub on_system : {A E : Type 0} → Exec W A E → Exec (Running W) A E
  on_system m s = let (r, w) = m s.system in (r, record s { system = w })

  info_of : String → String → Info
  info_of name url = record {
    name = name;
    root_id = "test.near";
    keystore_path = ".near-credentials/sandbox/";
    rpc_url = url;
  }

  opened :
      NetworkBuilder
      → String
      → JsonRpcClient
      → NonceMap
      → Result String BoxedError
      → Exec (Running W) (MayPanic Sandbox) Error
  unfolding info_of
  opened build version client nonces (err e) s = (ok none, s)
  opened build version client nonces (ok url) s = (
    ok (
        some (record {
          server = s.server;
          rpc_client = client;
          access_key_nonces = nonces;
          info = info_of build.name url;
          version = some version;
        })),
    s,
  )

  -- The steps of `from_builder_with_version` that use the server
  connected : NetworkBuilder → String → Exec (Running W) (MayPanic Sandbox) Error
  unfolding opened
  connected build version s =
      (do
        client ← lift (new_client lib outside s.server.rpc_addr build.api_key)
        nonces ← on_system (waited lib outside client)
        unlock_lockfiles os
        opened build version client nonces (outside.parse_url s.server.rpc_addr))
        s

  after_drop :
      MayPanic (Unit {0})
      → Result (MayPanic Sandbox) Error
      → W
      → Result (MayPanic Sandbox) Error × W
  after_drop none r w = (ok none, w)
  after_drop (some u) r w = (r, w)

  -- The end of the server's lifetime, unless it is returned: an error or a panic drops it.
  ended : Result (MayPanic Sandbox) Error → Running W → Result (MayPanic Sandbox) Error × W
  unfolding after_drop
  ended (ok (some sandbox)) s = (ok (some sandbox), s.system)
  ended r s = let (dropped, w) = drop_server ps s.server s.system in after_drop dropped r w

  with_server : NetworkBuilder → String → MayPanic SandboxServer → Exec W (MayPanic Sandbox) Error
  unfolding connected ended
  with_server build version none w = (ok none, w)
  with_server build version (some server) w =
      let (r, s) = connected build version (record { server = server; system = w }) in ended r s

  module _ {V : Type 0} (json : Json V) (files : Files W V) (parse : String → Result ℤ BoxedError)
      (acquire : Exec W (ℕ × ℕ) Error) where
    -- `Sandbox::from_builder_with_version`
    unfoldable pub from_builder_with_version :
        NetworkBuilder → String → Exec W (MayPanic Sandbox) Error
    unfolding with_server
    from_builder_with_version build version = do
      server ←
          choose_server os outside.parse_url
            (run_new_with_version ps json files parse acquire outside.parse_url version)
            build.rpc_addr build.validator_key
      with_server build version server

    -- `NetworkBuilder::into_future`, with the default version of near_sandbox_utils, and `sandbox_with_version`
    unfoldable pub sandbox_worker :
        NetworkBuilder → String → Exec W (MayPanic (Worker Sandbox)) Error
    unfolding new_worker
    sandbox_worker build version = do
      network ← from_builder_with_version build version
      pure (Option.map new_worker network)
