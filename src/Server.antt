-- ===== src/Server.antt =====
-- The sandbox server's ports and locks of workspaces/src/network/server.rs, and the choice of a server
-- in workspaces/src/network/sandbox.rs. What the system does is a parameter: sockets, lock files and
-- the start of the process. The attempts to lock a port are bounded by fuel; `none` means that it
-- ran out. The texts of errors show no ports, paths or keys here.
pub mod Locks
use Prim.Native.String.{◌++◌}
use near_workspaces_rs.Prelude.{ℕ, zero, suc, String, Bool, Option, none, some, if◌then◌else◌}
use near_workspaces_rs.Result
use near_workspaces_rs.Result.{
  Result, ok, err, Exec, MayPanic, pure, lift, ◌>>=◌, ◌>>◌, mapping_err, map_err,
}
use near_workspaces_rs.Error.{Error, BoxedError, full, io, sandbox, init_failure, sandbox_message}
use near_workspaces_rs.Network.{ValidatorKey}

-- Sockets and files of the system; a port, a listener and a file are named by numbers.
pub record System (W : Type 0) : Type 0 where
  pub bind : Exec W ℕ BoxedError
  pub local_port : ℕ → Exec W ℕ BoxedError
  pub create_lockfile : ℕ → Exec W ℕ BoxedError
  pub try_lock_exclusive : ℕ → W → Bool × W
  pub unlock : ℕ → Exec W (Unit {0}) BoxedError

pub record SandboxServer : Type 0 where
  pub validator_key : ValidatorKey
  pub rpc_addr : String
  pub net_port : Option ℕ
  pub rpc_port_lock : Option ℕ
  pub net_port_lock : Option ℕ
  pub process : Option ℕ

-- `SandboxServer::connect`; the parser of the crate url is a parameter.
unfoldable pub connect :
    (String → Result String BoxedError) → String → ValidatorKey → Result SandboxServer Error
unfolding full
connect parse rpc_addr validator_key =
    map_err (full (sandbox init_failure) "Invalid rpc_url") (server_at (parse rpc_addr))
  where
    server_at : Result String BoxedError → Result SandboxServer BoxedError
    server_at (ok url) = ok (record {
      validator_key = validator_key;
      rpc_addr = url;
      net_port = none;
      rpc_port_lock = none;
      net_port_lock = none;
      process = none;
    })
    server_at (err e) = err e

module _ {W : Type 0} (os : System W) where
  unfoldable pub pick_unused_port : Exec W ℕ Error
  unfolding full
  pick_unused_port = do
    listener ← mapping_err (full io "failed to bind to random port") os.bind
    mapping_err (full io "failed to get local address for random port") (os.local_port listener)

  unfoldable pub locked : ℕ → ℕ → W → Result (Option (ℕ × ℕ)) Error × W
  locked port lockfile w =
      let (got, w') = os.try_lock_exclusive lockfile w in
      (ok (if got then some (port, lockfile) else none), w')

  -- One turn of the loop in `acquire_unused_port`
  unfoldable pub attempt : Exec W (Option (ℕ × ℕ)) Error
  unfolding pick_unused_port locked full
  attempt = do
    port ← pick_unused_port
    lockfile ← mapping_err (full io "failed to create lockfile for port") (os.create_lockfile port)
    locked port lockfile

  abbrev pub after_attempt :
      Result (Option (ℕ × ℕ)) Error
      → W
      → (W → Option (Result (ℕ × ℕ) Error × W))
      → Option (Result (ℕ × ℕ) Error × W)
  after_attempt (ok (some held)) w again = some (ok held, w)
  after_attempt (ok none) w again = again w
  after_attempt (err e) w again = some (err e, w)

  unfoldable pub acquire_unused_port : ℕ → W → Option (Result (ℕ × ℕ) Error × W)
  acquire_unused_port zero w = none
  acquire_unused_port (suc fuel) w =
      let (r, w') = attempt w in after_attempt r w' (acquire_unused_port fuel)

-- A server and the system that holds its locks
pub record Running (W : Type 0) : Type 0 where
  pub server : SandboxServer
  pub system : W

module _ {W : Type 0} (os : System W) where
  -- The unlocking of a lock that was taken out of its field
  unfoldable pub release : String → Option ℕ → Exec (Running W) (Unit {0}) Error
  unfolding full
  release msg none s = (ok tt, s)
  release msg (some lock) s =
      let (r, w) = os.unlock lock s.system in (map_err (full io msg) r, record s { system = w })

  unfoldable pub release_rpc : Exec (Running W) (Unit {0}) Error
  unfolding release
  release_rpc s =
      release "failed to unlock lockfile for rpc_port" s.server.rpc_port_lock
        (record s { server = record s.server { rpc_port_lock = none } })

  unfoldable pub release_net : Exec (Running W) (Unit {0}) Error
  unfolding release
  release_net s =
      release "failed to unlock lockfile for net_port" s.server.net_port_lock
        (record s { server = record s.server { net_port_lock = none } })

  -- `SandboxServer::unlock_lockfiles`
  unfoldable pub unlock_lockfiles : Exec (Running W) (Unit {0}) Error
  unfolding release_rpc release_net
  unlock_lockfiles = do release_rpc; release_net

  -- The match on the builder in `Sandbox::from_builder_with_version`; the start of a new server,
  -- `run_new_with_version`, is given. The last error's text does not show the key here.
  unfoldable pub choose_server :
      (String → Result String BoxedError)
      → Exec W (MayPanic SandboxServer) Error
      → Option String
      → Option ValidatorKey
      → Exec W (MayPanic SandboxServer) Error
  unfolding connect sandbox_message
  choose_server parse run_new (some rpc_url) (some validator_key) =
      lift (Result.map some (connect parse rpc_url validator_key))
  choose_server parse run_new none none = run_new
  choose_server parse run_new (some rpc_url) none = lift (
      err (
        sandbox_message init_failure
          ("Custom rpc_url=" ++ rpc_url ++ " requires validator_key set.")))
  choose_server parse run_new none (some validator_key) =
      lift (err (sandbox_message init_failure "Custom validator_key requires rpc_url set."))
