-- ===== src/Handles/Credentials/Stored.antt =====
-- Who may read the file when an account's secret is written (workspaces/src/rpc/tool.rs).
use Prim.Native.String.{◌++◌}
use near_workspaces_rs.Prelude.{ℕ, String, ◌≡◌, refl}
use near_workspaces_rs.Result.{Result, ok, err, Exec, continue, ◌>>=◌, ◌>>◌, mapping_err, map_err}
use near_workspaces_rs.Primitives.{Bytes}
use near_workspaces_rs.Error.{Error, BoxedError, full, custom, io}
use near_workspaces_rs.Operations.Transact.{Account}
use near_workspaces_rs.Handles.Credentials.{
  KeyFiles, owner_only, write_cred_to_file, store_credentials,
}

-- The mode of each file, which a successful change of its permissions sets.
pub record Modes {W : Type 0} (files : KeyFiles W) : Type 0 where
  pub mode : ℕ → W → ℕ
  pub set :
      (file m : ℕ) (w : W)
      → (files.set_permissions file m w).0 ≡ ok tt
      → mode file (files.set_permissions file m w).1 ≡ m

module _ {W : Type 0} (files : KeyFiles W) (modes : Modes files) where
  -- A property of the file system that is kept by creating directories and files, by reading metadata and by
  -- setting permissions, and by writing to a file that only its owner may read and write, is kept by
  -- storing an account's credentials, whatever fails on the way: the secret is never written to a
  -- file with another mode.
  pub store_credentials-owner_only :
      (P : W → Type 0)
      → ((dir : String) (w : W) → P w → P (files.create_dir_all dir w).1)
      → ((path : String) (w : W) → P w → P (files.create path w).1)
      → ((file : ℕ) (w : W) → P w → P (files.metadata file w).1)
      → ((file m : ℕ) (w : W) → P w → P (files.set_permissions file m w).1)
      → ((file : ℕ) (bytes : Bytes) (w : W)
          → modes.mode file w ≡ owner_only
          → P w
          → P (files.write_all file bytes w).1)
      → (self : Account) (save_dir : String) (w : W) → P w
      → P (store_credentials files self save_dir w).1
  unfolding store_credentials write_cred_to_file ◌>>=◌ ◌>>◌ mapping_err
  store_credentials-owner_only P dirs creates reads sets writes self save_dir w p =
      in_dir _ _ (dirs save_dir w p)
    where
      path : String
      path = files.join save_dir (self.signer.account_id ++ ".json")

      secret : Bytes
      secret = files.content self.signer.account_id self.signer.secret_key

      written : ℕ → Exec W (Unit {0}) Error
      written file =
          mapping_err (full io "Failed to write a key file") (files.write_all file secret)

      in_mode :
          (file : ℕ) (r : Result (Unit {0}) BoxedError) (v : W)
          → (r ≡ ok tt → modes.mode file v ≡ owner_only)
          → P v
          → P
              (continue
                (map_err (full io "Failed to set permissions for a key file.") r)
                v
                (λ u. written file)).1
      in_mode file (err e) v m p = p
      in_mode file (ok u) v m p = writes file secret v (m refl) p

      read :
          (file : ℕ) (r : Result (Unit {0}) BoxedError) (v : W)
          → P v
          → P
              (continue (map_err (full io "Failed to retrieve key file metadata.") r) v (λ u.
                mapping_err
                  (full io "Failed to set permissions for a key file.")
                  (files.set_permissions file owner_only)
                >> written file)).1
      read file (err e) v p = p
      read file (ok u) v p =
          in_mode file _ _ (modes.set file owner_only v) (sets file owner_only v p)

      created :
          (r : Result ℕ BoxedError) (v : W)
          → P v
          → P
              (continue
                (map_err (full io "failed to open file for writing credentials") r)
                v
                (λ file.
                  mapping_err
                    (full io "Failed to retrieve key file metadata.")
                    (files.metadata file)
                  >> (mapping_err
                        (full io "Failed to set permissions for a key file.")
                        (files.set_permissions file owner_only)
                      >> written file))).1
      created (err e) v p = p
      created (ok file) v p = read file _ _ (reads file v p)

      in_dir :
          (r : Result (Unit {0}) BoxedError) (v : W)
          → P v
          → P
              (continue (map_err (custom io) r) v (λ u.
                write_cred_to_file files path self.signer.account_id self.signer.secret_key)).1
      in_dir (err e) v p = p
      in_dir (ok u) v p = created _ _ (creates path v p)
