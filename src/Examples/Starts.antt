-- ===== src/Examples/Starts.antt =====
-- Opening networks, starting the sandbox, and its configuration.
use near_workspaces_rs.Prelude.{
  ℕ, String, Option, none, some, List, [], ◌∷◌, ◌≡◌, refl, inr, Bool, true, false, ◌⊎◌, inl,
  Bool-cases, arith, ◌+◌, ◌==◌, nat_eq, if◌then◌else◌,
}
use near_workspaces_rs.Result.{Result, ok, err, ◌>>=◌, ◌>>◌, lift, pure, mapping_err}
use near_workspaces_rs.Primitives.Rpc.{Request, Call, transport_error}
use near_workspaces_rs.Error.{Error, BoxedError}
use near_workspaces_rs.Client.Retry.{state_after}
use near_workspaces_rs.Client.{rpc_call}
use near_workspaces_rs.Client.Calls.{status, wait_for_rpc, spawn_status, timeout_secs}
use near_workspaces_rs.Server.{
  acquire_unused_port, attempt, pick_unused_port, System, SandboxServer, choose_server,
}
use near_workspaces_rs.Config.{ℤ, pos, Files, set_sandbox_configs, overwrite, parse_env}
use near_workspaces_rs.Config.Paths.{at, Apart, payload_path, files_path}
use near_workspaces_rs.Config.Overwritten.{Chosen, set_sandbox_configs_written}
use near_workspaces_rs.Launch.{
  Outside, Worker, JsonRpcClient, Info, Network, from_builder, opened, new_client, waited,
}
use near_workspaces_rs.Launch.Opened.{
  on_custom, Setting, addr, key, started, apply, type_of, last_addr, last_key, address, described,
  from_builder-apply,
}
use near_workspaces_rs.Launch.Answered.{wait_for_rpc-answered}
use near_workspaces_rs.Launch.Sandbox.{
  Processes, Sandbox, from_builder_with_version, sandbox, sandbox_worker, run_new_with_version,
}
use near_workspaces_rs.Launch.Sandbox.Quiet.{Lifetimes}
use near_workspaces_rs.Launch.Sandbox.Owned.{Owned}
use near_workspaces_rs.Launch.Sandbox.Scoped.{Finished, with_sandbox, with_sandbox-lives}
use near_workspaces_rs.Server.Locks.{Unlocking}
use near_workspaces_rs.Launch.Sandbox.Ready.{IsReady, from_builder-IsReady}
use near_workspaces_rs.Network.{home_dir}
use near_workspaces_rs.Launch.Sandbox.Killed.{from_builder_with_version-lives}
use near_workspaces_rs.Examples.{lib, call, client}
use near_workspaces_rs.Examples.Configs.{JsonValue, null_value, json_lib, config_file}

-- A node that is known by its status from the second look on, at any address.
abbrev pub waking : Call ℕ
waking Request.status n = (if n == 0 then err (transport_error "closed") else ok tt, n + 1)
waking r n = call r n

abbrev outside : Outside ℕ
outside = record {
  new_api_key = λ k. ok k;
  call = λ c. waking;
  parse_url = λ url. ok url;
  parse_usize = λ s. ok 3;
  timeout_var = some "3";
}

abbrev settings : List Setting
settings = key "secret" ∷ addr "http://node" ∷ key "other" ∷ []

from_builder-apply_example :
    from_builder lib outside
      (type_of (on_custom "http://first"))
      (apply (started (on_custom "http://first")) settings)
    ≡ opened lib outside
        (last_addr (address (on_custom "http://first")) settings)
        (last_key none settings)
        (described (on_custom "http://first"))
from_builder-apply_example = from_builder-apply lib outside (on_custom "http://first") settings

wait_for_rpc-answered_example :
    wait_for_rpc lib waking (λ s. ok 3) (some "3") client
    ≡ (ok tt, state_after 2 (status lib waking) client)
unfolding timeout_secs status rpc_call
wait_for_rpc-answered_example =
    wait_for_rpc-answered lib waking (λ s. ok 3) (some "3") 3 1 client refl (omega arith) (refl, tt)
      refl

-- A machine with one file, at most one process that was started on it, and one other.
record Machine : Type 0 where
  config : Option JsonValue
  live : Option ℕ
  other : Option ℕ
  locked : Bool

abbrev without : ℕ → Option ℕ → Option ℕ
without child none = none
without child (some p) = if p == child then none else some p

abbrev files : Files Machine JsonValue
files = config_file (λ w. w.config) (λ w v. record w { config = some v }) (λ w v. refl)

abbrev machine : Machine
machine = record { config = some null_value; live = none; other = some 3; locked = false }

abbrev no_variables : String → Option String
no_variables name = none

set_sandbox_configs_written_example :
    (old : JsonValue) × (new : JsonValue) × (m : ℤ) × (n : ℤ) × (files.content
        (files.join "/tmp" "config.json")
        machine
      ≡ some old)
    × (files.content
          (files.join "/tmp" "config.json")
          (set_sandbox_configs json_lib files (λ s. ok (pos 7)) no_variables "/tmp" machine).1
        ≡ some new)
    × Chosen (λ s. ok (pos 7)) none (pos 1073741824) m
    × Chosen (λ s. ok (pos 7)) none (pos 3000) n
    × (at json_lib payload_path (some new) ≡ some (json_lib.number m))
    × (at json_lib files_path (some new) ≡ some (json_lib.number n))
    × ((ks : List String)
        → Apart json_lib ks payload_path
        → Apart json_lib ks files_path
        → at json_lib ks (some new) ≡ at json_lib ks (some old))
unfolding set_sandbox_configs overwrite parse_env lift mapping_err ◌>>=◌
set_sandbox_configs_written_example =
    set_sandbox_configs_written json_lib files (λ s. ok (pos 7)) no_variables "/tmp" machine refl

abbrev os : System Machine
os = record {
  bind = λ w. (ok 1, w);
  local_port = λ l w. (ok l, w);
  create_lockfile = λ p w. (ok p, w);
  try_lock_exclusive = λ f w. (true, record w { locked = true });
  unlock = λ f w. (ok tt, record w { locked = false });
}

abbrev processes : Processes Machine
processes = record {
  tempdir = λ w. (ok "/tmp", w);
  init_with_version = λ dir version w. (ok 1, w);
  wait_with_output = λ child w. (ok tt, w);
  run_with_options = λ args version w. (ok 7, record w { live = some 7 });
  start_kill = λ child w. (ok tt, record w { live = none; other = without child w.other });
  try_wait = λ child w. w;
  var = λ name w. none;
  set_var = λ name value w. w;
  to_str = λ dir. some dir;
  to_string = λ port. "1";
}

abbrev ready_node : Call Machine
ready_node r w = ((call r 1).0, w)

abbrev reached : Outside Machine
reached = record {
  new_api_key = λ k. ok k;
  call = λ c. ready_node;
  parse_url = λ url. ok url;
  parse_usize = λ s. ok 0;
  timeout_var = some "0";
}

started_as :
    (p : ℕ) → ◌≡◌ {A = Option ℕ} (some 7) (some p) → ◌≡◌ {A = Result ℕ BoxedError} (ok 7) (ok p)
started_as p l = cc

abbrev Alive : ℕ → Machine → Type 0
Alive p w = (w.live ≡ some p) ⊎ (w.other ≡ some p)

started-Alive :
    (p : ℕ) (w : Machine)
    → Alive p (record w { live = some 7 })
    → Alive p w ⊎ (◌≡◌ {A = Result ℕ BoxedError} (ok 7) (ok p))
started-Alive p w (inl l) = inr (started_as p l)
started-Alive p w (inr l) = inl (inr l)

without_child :
    (child p : ℕ) (o : Option ℕ) → without child o ≡ some p → (o ≡ some p) × ((p ≡ child) → ⊥)
without_child child p none l = absurd (cc)
without_child child p (some x) l = elim (Bool-cases (x == child)) [
  | inl same ↦ absurd (ground arith)
  | inr differ ↦ (ground arith, λ e. ground arith)
]

killed-Alive :
    (child p : ℕ) (w : Machine)
    → Alive p (record w { live = none; other = without child w.other })
    → Alive p w × ((p ≡ child) → ⊥)
killed-Alive child p w (inl l) = absurd (cc)
killed-Alive child p w (inr l) = let (a, b) = without_child child p w.other l in (inr a, b)

abbrev acquired : Machine → Result (ℕ × ℕ) Error × Machine
acquired w = (ok (1, 1), record w { locked = true })

first_port : (w : Machine) → acquire_unused_port os 1 w ≡ some (acquired w)
unfolding acquire_unused_port attempt pick_unused_port ◌>>=◌ mapping_err
first_port w = refl

abbrev lives : Lifetimes reached os processes files acquired
lives = record {
  Lives = Alive;
  tempdir = record { at = λ w p l. l };
  init = λ dir version. record { at = λ w p l. l };
  waits = λ child. record { at = λ w p l. l };
  sets = λ name value w p l. l;
  opens = λ path. record { at = λ w p l. l };
  reads = λ file. record { at = λ w p l. l };
  creates = λ path. record { at = λ w p l. l };
  writes = λ file v. record { at = λ w p l. l };
  binds = record { at = λ w p l. l };
  ports = λ listener. record { at = λ w p l. l };
  lockfiles = λ port. record { at = λ w p l. l };
  locks = λ file w p l. l;
  acquires = λ w. (1, first_port w);
  unlocks = λ file. record { at = λ w p l. l };
  answers = λ c. record { at = λ w p l. l };
  runs = λ args version w p l. started-Alive p w l;
  kills = λ child w p h l. killed-Alive child p w l;
}

from_builder_with_version-lives_example :
    Alive 7 machine
    ⊎ Owned
        (λ s. s.server.process)
        (from_builder_with_version lib reached os processes json_lib files
          (λ s. ok (pos 7))
          acquired
          sandbox
          "1.0"
          machine).0
        7
unfolding from_builder_with_version near_workspaces_rs.Server.choose_server sandbox
    near_workspaces_rs.Launch.new near_workspaces_rs.Launch.Sandbox.run_new_with_version ◌>>◌
    near_workspaces_rs.Launch.Sandbox.suppress_sandbox_logs_if_required
    near_workspaces_rs.Launch.Sandbox.init_home_dir_with_version mapping_err pure
    set_sandbox_configs lift new_client waited wait_for_rpc ◌>>=◌ spawn_status timeout_secs status
    rpc_call near_workspaces_rs.Server.unlock_lockfiles parse_env overwrite
from_builder_with_version-lives_example =
    from_builder_with_version-lives lib lives json_lib (λ s. ok (pos 7)) sandbox "1.0" machine 7
      (inl refl)

-- A task that reads the version, while a process lives that the sandbox has not started.
abbrev version_of : Worker Sandbox → Machine → Finished (Option String) × Machine
version_of worker w = (record { output = worker.workspace.version; copies = 0 }, w)

with_sandbox-lives_example :
    Alive 3 machine
    ⊎ ((with_sandbox lib reached os processes json_lib files
          (λ s. ok (pos 7))
          acquired
          "1.0"
          version_of
          machine).0
        ≡ ok none)
unfolding with_sandbox sandbox_worker near_workspaces_rs.Launch.new_worker
    near_workspaces_rs.Launch.Sandbox.drop_server from_builder_with_version
    near_workspaces_rs.Server.choose_server sandbox near_workspaces_rs.Launch.new
    near_workspaces_rs.Launch.Sandbox.run_new_with_version ◌>>◌
    near_workspaces_rs.Launch.Sandbox.suppress_sandbox_logs_if_required
    near_workspaces_rs.Launch.Sandbox.init_home_dir_with_version mapping_err pure
    set_sandbox_configs lift new_client waited wait_for_rpc ◌>>=◌ spawn_status timeout_secs status
    rpc_call near_workspaces_rs.Server.unlock_lockfiles parse_env overwrite
    near_workspaces_rs.Server.release_rpc near_workspaces_rs.Server.release_net
with_sandbox-lives_example =
    with_sandbox-lives lib lives json_lib (λ s. ok (pos 7)) "1.0" version_of machine 3
      (λ worker v l. l) (λ worker v. refl) (inr refl)

-- What the start of the sandbox returns: its process is number 7, on port 1.
abbrev started_sandbox : Sandbox
started_sandbox = record {
  server = record {
    validator_key = home_dir "/tmp";
    rpc_addr = "http://127.0.0.1:1";
    net_port = some 1;
    rpc_port_lock = none;
    net_port_lock = none;
    process = some 7;
  };
  rpc_client = record { server_addr = "http://127.0.0.1:1"; header = none };
  access_key_nonces = [];
  info = record {
    name = "sandbox";
    root_id = "test.near";
    keystore_path = ".near-credentials/sandbox/";
    rpc_url = "http://127.0.0.1:1";
  };
  version = some "1.0";
}

not_locked : ◌≡◌ {A = Bool} false true → ⊥
not_locked h = cc

-- One lock, of file 1 and of all others.
abbrev unlocking : Unlocking os
unlocking = record {
  Held = λ l w. w.locked ≡ true;
  ends = λ l w e h. not_locked h;
  takes_none = λ l m w h. absurd (not_locked h);
}

from_builder-IsReady_example :
    (server : SandboxServer) × (v : Machine) × (choose_server os reached.parse_url
        (run_new_with_version processes json_lib files
          (λ s. ok (pos 7))
          acquired
          reached.parse_url
          "1.0")
        sandbox.rpc_addr
        sandbox.validator_key
        machine
      ≡ (ok (some server), v))
    × IsReady lib reached os processes unlocking sandbox server started_sandbox
        (from_builder_with_version lib reached os processes json_lib files
          (λ s. ok (pos 7))
          acquired
          sandbox
          "1.0"
          machine).1
unfolding from_builder_with_version near_workspaces_rs.Server.choose_server sandbox
    near_workspaces_rs.Launch.new near_workspaces_rs.Launch.Sandbox.run_new_with_version ◌>>◌
    near_workspaces_rs.Launch.Sandbox.suppress_sandbox_logs_if_required
    near_workspaces_rs.Launch.Sandbox.init_home_dir_with_version mapping_err pure
    set_sandbox_configs lift new_client waited wait_for_rpc ◌>>=◌ spawn_status timeout_secs status
    rpc_call near_workspaces_rs.Server.unlock_lockfiles parse_env overwrite
    near_workspaces_rs.Launch.Sandbox.rpc_socket near_workspaces_rs.Server.release_rpc
    near_workspaces_rs.Server.release_net
from_builder-IsReady_example =
    from_builder-IsReady lib reached os processes unlocking json_lib files (λ s. ok (pos 7))
      acquired sandbox "1.0" machine started_sandbox refl
