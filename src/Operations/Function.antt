-- ===== src/Operations/Function.antt =====
-- `Function` of workspaces/src/operations.rs. Gas counts units, deposits count yoctoNEAR.
use near_workspaces_rs.Prelude.{ℕ, String, [], if◌then◌else◌}
use near_workspaces_rs.Result.{Result, ok, is_err, map_err}
use near_workspaces_rs.Primitives.{Bytes}
use near_workspaces_rs.Error.{Error, BoxedError, custom, data_conversion}

-- `NearGas::from_tgas(10)`, `NearGas::from_tgas(300)` and `NearToken::from_near(0)`
abbrev pub default_call_fn_gas : ℕ
default_call_fn_gas = 10000000000000

abbrev pub max_gas : ℕ
max_gas = 300000000000000

abbrev pub default_call_deposit : ℕ
default_call_deposit = 0

pub record Function : Type 0 where
  pub name : String
  pub args : Result Bytes Error
  pub deposit : ℕ
  pub gas : ℕ

unfoldable pub new : String → Function
new name = record {
  name = name;
  args = ok [];
  deposit = default_call_deposit;
  gas = default_call_fn_gas;
}

unfoldable pub args : Function → Bytes → Function
args self bytes = if is_err self.args then self else record self { args = ok bytes }

-- The serializers serde_json::to_vec and borsh's try_to_vec are parameters.
module _ {U : Type 0} (to_vec : U → Result Bytes BoxedError) where
  unfoldable pub args_json : Function → U → Function
  unfolding custom
  args_json self value = record self { args = map_err (custom data_conversion) (to_vec value) }

  unfoldable pub args_borsh : Function → U → Function
  unfolding custom
  args_borsh self value = record self { args = map_err (custom data_conversion) (to_vec value) }

unfoldable pub set_deposit : Function → ℕ → Function
set_deposit self deposit = record self { deposit = deposit }

unfoldable pub set_gas : Function → ℕ → Function
set_gas self gas = record self { gas = gas }

unfoldable pub use_max_gas : Function → Function
unfolding set_gas
use_max_gas self = set_gas self max_gas
