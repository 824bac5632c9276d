-- ===== src/Compile.antt =====
-- `compile_project` of workspaces/src/cargo/mod.rs. Paths, files and the crate cargo_near are parameters.
use near_workspaces_rs.Prelude.{String, Bool, true, false, Option, some, none}
use near_workspaces_rs.Result.{Result, Exec, lift, ◌>>=◌, mapping_err, map_err}
use near_workspaces_rs.Primitives.{Bytes}
use near_workspaces_rs.Error.{Error, BoxedError, custom, message, io}

-- `std::io::Error`, by its kind
pub data FileError : Type 0 where
  not_found : FileError
  other_failure : BoxedError → FileError

-- `cargo_near::BuildCommand`, less its colors
pub record BuildCommand : Type 0 where
  pub release : Bool
  pub embed_abi : Bool
  pub doc : Bool
  pub no_abi : Bool
  pub out_dir : Option String
  pub manifest_path : Option String

pub record Builds (W : Type 0) : Type 0 where
  pub canonicalize : String → Exec W String FileError
  pub join : String → String → String
  pub utf8_path : String → Result String BoxedError
  pub build : BuildCommand → Exec W String BoxedError
  pub read : String → Exec W Bytes BoxedError
  pub boxed : FileError → BoxedError

module _ {W : Type 0} (builds : Builds W) where
  path_error : FileError → Error
  unfolding custom message
  path_error not_found = message io "Incorrect file supplied to compile_project"
  path_error (other_failure e) = custom io e

  abbrev command : String → BuildCommand
  command manifest = record {
    release = true;
    embed_abi = true;
    doc = false;
    no_abi = true;
    out_dir = none;
    manifest_path = some manifest;
  }

  unfoldable pub compile_project : String → Exec W Bytes Error
  unfolding path_error custom
  compile_project project_path = do
    path ← mapping_err path_error (builds.canonicalize project_path)
    manifest ← lift (map_err (custom io) (builds.utf8_path (builds.join path "Cargo.toml")))
    artifact ← mapping_err (custom io) (builds.build (command manifest))
    file ← mapping_err (λ e. custom io (builds.boxed e)) (builds.canonicalize artifact)
    mapping_err (custom io) (builds.read file)
