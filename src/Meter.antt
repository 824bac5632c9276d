-- ===== src/Meter.antt =====
-- workspaces/src/types/gas_meter.rs: gas meters, and the hooks by which a worker reports the gas of
-- a transaction. The cells behind the `Arc<Mutex<Gas>>`s stand in a store; a meter is a place in it.
pub mod Laws
pub mod Totals
use near_workspaces_rs.Prelude.{
  ℕ, zero, suc, ◌+◌, ◌%◌, Bool, true, false, Option, none, some, List, [], ◌∷◌, ◌++◌, length,
  if◌then◌else◌,
}
use near_workspaces_rs.Result.{Result, ok, err, Exec, pure, ◌>>=◌, ◌>>◌}
use near_workspaces_rs.Primitives.{u64_mod}
use near_workspaces_rs.Error.{Error, custom, text, other}

-- A mutex. A panic under the lock poisons it.
pub record Cell : Type 0 where
  pub gas : ℕ
  pub poisoned : Bool

-- `none` is a meter that has been dropped.
abbrev pub Meters : Type 0
Meters = List (Option Cell)

abbrev pub cell_at : ℕ → Meters → Option Cell
cell_at i [] = none
cell_at zero (c ∷ cs) = c
cell_at (suc i) (c ∷ cs) = cell_at i cs

abbrev pub set_cell : ℕ → Option Cell → Meters → Meters
set_cell i new [] = []
set_cell zero new (c ∷ cs) = new ∷ cs
set_cell (suc i) new (c ∷ cs) = c ∷ set_cell i new cs

-- `GasHook`
abbrev pub GasHook : Type 0
GasHook = ℕ → Exec Meters (Unit {0}) Error

-- `From<PoisonError<T>> for Error`
abbrev pub poison_error : Error
unfolding custom
poison_error = custom other (text "poisoned lock: another task failed inside")

add_gas : ℕ → ℕ → Option Cell → Exec Meters (Unit {0}) Error
add_gas i gas none m = (ok tt, m)
add_gas i gas (some c) m =
    if c.poisoned
    then (err poison_error, m)
    else (ok tt, set_cell i (some (record c { gas = (c.gas + gas) % u64_mod })) m)

-- The closure that `GasMeter::now` pushes
unfoldable pub meter_hook : ℕ → GasHook
unfolding add_gas
meter_hook i gas m = add_gas i gas (cell_at i m) m

-- `GasMeter::now`: a new cell, and its hook behind the worker's other hooks
unfoldable pub now : List GasHook → Meters → ℕ × List GasHook × Meters
now tx_callbacks m = (
  length m,
  tx_callbacks ++ meter_hook (length m) ∷ [],
  m ++ some (record { gas = 0; poisoned = false }) ∷ [],
)

-- `elapsed` and `reset` are called on a meter that is alive, so on its cell.
unfoldable pub elapsed : Cell → Result ℕ Error
elapsed c = if c.poisoned then err poison_error else ok c.gas

unfoldable pub reset : ℕ → Cell → Exec Meters (Unit {0}) Error
reset i c m =
    if c.poisoned
    then (err poison_error, m)
    else (ok tt, set_cell i (some (record c { gas = 0 })) m)

-- `for callback in tx_callbacks { callback(gas)?; }`
unfoldable pub run_callbacks : List GasHook → ℕ → Exec Meters (Unit {0}) Error
run_callbacks [] gas = pure tt
run_callbacks (hook ∷ hooks) gas = do hook gas; run_callbacks hooks gas
