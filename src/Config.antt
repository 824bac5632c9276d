-- ===== src/Config.antt =====
-- The configuration of the sandbox (workspaces/src/network/config.rs). Files, the crates serde_json and
-- json_patch, and the environment's variables are parameters, with what their documentation says of
-- them.
pub mod Paths
pub mod Overwritten
use near_workspaces_rs.Prelude.{
  ℕ, String, Option, none, some, unwrap_or, List, [], ◌∷◌, ◌≡◌, ◌≢◌, if◌then◌else◌, ◌==◌, string_eq,
}
use near_workspaces_rs.Result.{
  Result, ok, err, Exec, pure, lift, ◌>>=◌, mapping_err, map_err, and_then,
}
use near_workspaces_rs.Error.{Error, BoxedError, custom, io, data_conversion}

-- `i32`, the type of the two settings: integer literals of no other type have it.
pub data ℤ : Type 0 where
  pos negsuc : ℕ → ℤ

abbrev pub field : {V : Type 0} → String → List (String × V) → Option V
field k [] = none
field k ((name, v) ∷ fields) = if name == k then some v else field k fields

-- What a field of a merged object holds: its old value, changed by the patch's field if there is one.
abbrev pub merged : {V : Type 0} → (V → V → V) → V → Option V → Option V → Option V
merged merge null old none = old
merged merge null old (some v) = some (merge (unwrap_or old null) v)

-- `serde_json::Value`, and `json_patch::merge` as RFC 7396 describes it: a number takes the place of
-- what it is merged into, an object is merged into field by field. A field that is null is not used.
pub record Json (V : Type 0) : Type 0 where
  pub null : V
  pub number : ℤ → V
  pub object : List (String × V) → V
  pub lookup : String → V → Option V
  pub merge : V → V → V
  pub number-null : (n : ℤ) → number n ≢ null
  pub object-null : (fields : List (String × V)) → object fields ≢ null
  pub lookup-null : (k : String) → lookup k null ≡ none
  pub merge-number : (config : V) (n : ℤ) → merge config (number n) ≡ number n
  pub lookup-merge :
      (k : String) (config : V) (fields : List (String × V))
      → field k fields ≢ some null
      → lookup k (merge config (object fields))
        ≡ merged merge null (lookup k config) (field k fields)

-- Files of the system: a file is named by a number. `content` is what a file at a path holds when it
-- is read as JSON.
pub record Files (W V : Type 0) : Type 0 where
  pub open_file : String → Exec W ℕ BoxedError
  pub from_reader : ℕ → Exec W V BoxedError
  pub create : String → Exec W ℕ BoxedError
  pub to_writer : ℕ → V → Exec W (Unit {0}) BoxedError
  pub join : String → String → String
  pub content : String → W → Option V
  pub read :
      (path : String) (w : W) (file : ℕ) (v : V)
      → (open_file path w).0 ≡ ok file
      → (from_reader file (open_file path w).1).0 ≡ ok v
      → content path w ≡ some v
  pub written :
      (path : String) (w : W) (file : ℕ) (v : V)
      → (create path w).0 ≡ ok file
      → (to_writer file v (create path w).1).0 ≡ ok tt
      → content path (to_writer file v (create path w).1).1 ≡ some v

-- `parse_env`, with the value of the variable
unfoldable pub parse_env :
    {T : Type 0} → (String → Result T BoxedError) → Option String → Result (Option T) Error
unfolding custom
parse_env parse (some val) =
    and_then (map_err (custom data_conversion) (parse val)) (λ v. ok (some v))
parse_env parse none = ok none

-- The object of `json!`
unfoldable pub sandbox_config : {V : Type 0} → Json V → ℤ → ℤ → V
sandbox_config json max_payload max_files = json.object (
    (
      "rpc",
      json.object (
          ("limits_config", json.object (("json_payload_max_size", json.number max_payload) ∷ []))
          ∷ []),
    )
    ∷ ("store", json.object (("max_open_files", json.number max_files) ∷ []))
    ∷ [])

module _ {W V : Type 0} (json : Json V) (files : Files W V) where
  unfoldable pub overwrite : String → V → Exec W (Unit {0}) Error
  unfolding custom
  overwrite home_dir value = do
    config_file ← mapping_err (custom io) (files.open_file (files.join home_dir "config.json"))
    config ← mapping_err (custom data_conversion) (files.from_reader config_file)
    new_file ← mapping_err (custom io) (files.create (files.join home_dir "config.json"))
    mapping_err (custom io) (files.to_writer new_file (json.merge config value))

  module _ (parse : String → Result ℤ BoxedError) (var : String → Option String) where
    unfoldable pub set_sandbox_configs : String → Exec W (Unit {0}) Error
    unfolding overwrite sandbox_config parse_env
    set_sandbox_configs home_dir = do
      max_payload ← lift (parse_env parse (var "NEAR_SANDBOX_MAX_PAYLOAD_SIZE"))
      max_files ← lift (parse_env parse (var "NEAR_SANDBOX_MAX_FILES"))
      overwrite home_dir (
          sandbox_config json (unwrap_or max_payload (pos 1073741824))
            (unwrap_or max_files (pos 3000)))
