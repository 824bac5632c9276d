-- ===== src/Network/Generated.antt =====
-- The name and the key of a development account: `random_account_id` of workspaces/src/rpc/tool.rs and
-- `dev_generate` of workspaces/src/network/variants.rs. Random numbers, the clock and the parser of
-- account identifiers are parameters.
use Prim.Native.String.{◌++◌}
use near_workspaces_rs.Prelude.{ℕ, String, none, some}
use near_workspaces_rs.Result.{Result, ok, err, MayPanic}
use near_workspaces_rs.Primitives.{AccountId, SecretKey}
use near_workspaces_rs.Error.{BoxedError}
use near_workspaces_rs.Import.{seed_key}

-- `now` is formatted as year, month, day, hour, minute and second.
pub record Randoms (W : Type 0) : Type 0 where
  pub gen_range : ℕ → ℕ → W → ℕ × W
  pub now : W → String
  pub to_string : ℕ → String
  pub parse_account_id : String → Result AccountId BoxedError

-- `Result::expect`
expect : {A : Type 0} → Result A BoxedError → MayPanic A
expect (ok a) = some a
expect (err e) = none

with_key : (String → SecretKey) → MayPanic AccountId → MayPanic (AccountId × SecretKey)
with_key from_seed none = none
with_key from_seed (some id) = some (id, seed_key from_seed)

module _ {W : Type 0} (randoms : Randoms W) where
  unfoldable random_account_id : W → MayPanic AccountId × W
  unfolding expect
  random_account_id w =
      let (random_num, w') = randoms.gen_range 10000000000000 99999999999999 w in
      (
        expect (
            randoms.parse_account_id
              ("dev-" ++ randoms.now w' ++ "-" ++ randoms.to_string random_num)),
        w',
      )

  -- `Worker::dev_generate`
  unfoldable dev_generate : (String → SecretKey) → W → MayPanic (AccountId × SecretKey) × W
  unfolding random_account_id with_key
  dev_generate from_seed w = let (id, w') = random_account_id w in (with_key from_seed id, w')
