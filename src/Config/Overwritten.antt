-- ===== src/Config/Overwritten.antt =====
-- What the sandbox's configuration holds once it is set (workspaces/src/network/config.rs).
use near_workspaces_rs.Prelude.{String, Option, none, some, unwrap_or, List, ◌≡◌, refl, string_eq}
use near_workspaces_rs.Result.{
  Result, ok, err, bind_ok, map_err-ok, lift, mapping_err, map_err, and_then,
}
use near_workspaces_rs.Error.{Error, BoxedError, custom, data_conversion}
use near_workspaces_rs.Config.{ℤ, pos, Json, Files, parse_env, overwrite, set_sandbox_configs}
use near_workspaces_rs.Config.Paths.{at, Apart, payload_path, files_path, configured}

-- The value of a variable: what it parses to, or the default if it is not set.
abbrev pub Chosen : (String → Result ℤ BoxedError) → Option String → ℤ → ℤ → Type 0
Chosen parse none default n = n ≡ default
Chosen parse (some val) default n = parse val ≡ ok n

module _ {W V : Type 0} (json : Json V) (files : Files W V) (parse : String → Result ℤ BoxedError)
    (var : String → Option String) where
  overwrite_written :
      (home_dir : String) (value : V) (w : W)
      → (overwrite json files home_dir value w).0 ≡ ok tt
      → (old : V) × (files.content (files.join home_dir "config.json") w ≡ some old)
        × (files.content
              (files.join home_dir "config.json")
              (overwrite json files home_dir value w).1
            ≡ some (json.merge old value))
  unfolding overwrite mapping_err
  overwrite_written home_dir value w h =
      let (file, opened, after_open, q1) = bind_ok _ _ w h in
      let (old, was_read, after_read, q2) = bind_ok _ _ _ after_open in
      let (new_file, was_created, after_create, q3) = bind_ok _ _ _ after_read in
      (
        old,
        files.read _ w file old (map_err-ok _ _ opened) (map_err-ok _ _ was_read),
        rw (q1, q2, q3)
            (files.written _ _ new_file _ (map_err-ok _ _ was_created)
              (map_err-ok _ _ after_create)),
      )

  parse_env-Chosen :
      (val : Option String) (default : ℤ) (o : Option ℤ)
      → parse_env parse val ≡ ok o
      → Chosen parse val default (unwrap_or o default)
  unfolding parse_env
  parse_env-Chosen none default none h = refl
  parse_env-Chosen none default (some x) h = absurd (cc)
  parse_env-Chosen (some val) default o h = from (parse val) o h
    where
      from :
          (r : Result ℤ BoxedError) (o : Option ℤ)
          → ◌≡◌ {A = Result (Option ℤ) Error}
              (and_then (map_err (custom data_conversion) r) (λ v. ok (some v)))
              (ok o)
          → r ≡ ok (unwrap_or o default)
      from (ok v) none h = absurd (cc)
      from (ok v) (some x) h = cc
      from (err e) o h = absurd (cc)

  -- If the configuration is set without an error, then the file held a configuration before, and holds
  -- one after: with the payload size of NEAR_SANDBOX_MAX_PAYLOAD_SIZE, or 1 GiB if that is not set, and
  -- the number of files of NEAR_SANDBOX_MAX_FILES, or 3000 if that is not set, and as before at all paths that are
  -- apart from these two.
  pub set_sandbox_configs_written :
      (home_dir : String) (w : W)
      → (set_sandbox_configs json files parse var home_dir w).0 ≡ ok tt
      → (old : V) × (new : V) × (m : ℤ) × (n : ℤ) × (files.content
            (files.join home_dir "config.json")
            w
          ≡ some old)
        × (files.content
              (files.join home_dir "config.json")
              (set_sandbox_configs json files parse var home_dir w).1
            ≡ some new)
        × Chosen parse (var "NEAR_SANDBOX_MAX_PAYLOAD_SIZE") (pos 1073741824) m
        × Chosen parse (var "NEAR_SANDBOX_MAX_FILES") (pos 3000) n
        × (at json payload_path (some new) ≡ some (json.number m))
        × (at json files_path (some new) ≡ some (json.number n))
        × ((ks : List String)
            → Apart json ks payload_path
            → Apart json ks files_path
            → at json ks (some new) ≡ at json ks (some old))
  unfolding set_sandbox_configs lift
  set_sandbox_configs_written home_dir w h =
      let (payload, p, after_p, q1) = bind_ok _ _ w h in
      let (max_files, f, after_f, q2) = bind_ok _ _ w after_p in
      let (old, before, now) = overwrite_written home_dir _ w after_f in
      let (a, b, c) =
        configured json old (unwrap_or payload (pos 1073741824)) (unwrap_or max_files (pos 3000)) in
      (
        old,
        _,
        _,
        _,
        before,
        rw (q1, q2) now,
        parse_env-Chosen _ _ payload p,
        parse_env-Chosen _ _ max_files f,
        a,
        b,
        c,
      )
