-- ===== src/Operations/Env.antt =====
-- What a running program holds beside its values: the client of its network, whose node may change,
-- and the cells of its gas meters. A worker adds its hooks (workspaces/src/worker/mod.rs).
use near_workspaces_rs.Prelude.{ℕ, List}
use near_workspaces_rs.Result.{Exec, map}
use near_workspaces_rs.Error.{Error}
use near_workspaces_rs.Client.{Client}
use near_workspaces_rs.Meter.{GasHook, Meters, run_callbacks}

pub record Env (W : Type 0) : Type 0 where
  pub client : Client W
  pub meters : Meters

-- `Worker`, less the network behind its `Arc`, which is the `client` of the environment
pub record Worker : Type 0 where
  pub tx_callbacks : List GasHook

module _ {W : Type 0} where
  unfoldable pub on_client : {A E : Type 0} → Exec (Client W) A E → Exec (Env W) A E
  on_client m env = let (r, client) = m env.client in (r, record env { client = client })

  -- `for callback in self.tx_callbacks { callback(gas)?; }`
  unfoldable pub callbacks : Worker → ℕ → Exec (Env W) (Unit {0}) Error
  unfolding run_callbacks
  callbacks worker gas env =
      let (r, meters) = run_callbacks worker.tx_callbacks gas env.meters in
      (r, record env { meters = meters })

-- `.map(f)` on the result of an action.
unfoldable pub mapping : {S A B E : Type 0} → (A → B) → Exec S A E → Exec S B E
mapping f m s = let (r, s') = m s in (map f r, s')
