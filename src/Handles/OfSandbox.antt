-- ===== src/Handles/OfSandbox.antt =====
-- The methods of `Worker<Sandbox>` that use the sandbox (workspaces/src/worker/impls.rs), and the ports
-- and the address of its server (workspaces/src/network/server.rs). The crate url is a parameter.
use near_workspaces_rs.Prelude.{ℕ, String, Option}
use near_workspaces_rs.Result.{Exec}
use near_workspaces_rs.Primitives.{AccountId, Bytes}
use near_workspaces_rs.Primitives.Rpc.{Call}
use near_workspaces_rs.Error.{Error}
use near_workspaces_rs.Client.Retry.{RetryLib}
use near_workspaces_rs.Client.{Client}
use near_workspaces_rs.Patch as PatchOps
use near_workspaces_rs.Server.{SandboxServer}
use near_workspaces_rs.Launch.{Worker}
use near_workspaces_rs.Launch.Sandbox.{Sandbox}

module _ (lib : RetryLib) {W : Type 0} (call : Call W) where
  unfoldable patch_state : AccountId → Bytes → Bytes → Exec (Client W) (Unit {0}) Error
  patch_state contract_id key value = PatchOps.patch_state lib call contract_id key value

  unfoldable fast_forward : ℕ → Exec (Client W) (Unit {0}) Error
  fast_forward delta_height = PatchOps.fast_forward lib call delta_height

-- `Url::port`
module _ (port : String → Option ℕ) where
  unfoldable server_rpc_port : SandboxServer → Option ℕ
  server_rpc_port self = port self.rpc_addr

  unfoldable rpc_port : Worker Sandbox → Option ℕ
  unfolding server_rpc_port
  rpc_port self = server_rpc_port self.workspace.server

unfoldable server_net_port : SandboxServer → Option ℕ
server_net_port self = self.net_port

unfoldable server_rpc_addr : SandboxServer → String
server_rpc_addr self = self.rpc_addr

unfoldable rpc_addr : Worker Sandbox → String
unfolding server_rpc_addr
rpc_addr self = server_rpc_addr self.workspace.server
