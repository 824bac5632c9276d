-- ===== src/Import/Written.antt =====
-- What importing a contract writes to the sandbox (workspaces/src/rpc/patch.rs).
use near_workspaces_rs.Prelude.{
  if◌then◌else◌, ◌⊎◌, inl, inr, ◌≡◌, refl, ◌∙◌, ap, String, true, false, Option, none, some, List,
  [], ◌∷◌, ◌++◌, map, ◌==◌, list_eq, nat_eq,
}
use near_workspaces_rs.Result
use near_workspaces_rs.Result.{Result, ok, err, continue, pure, ◌>>=◌, ◌>>◌}
use near_workspaces_rs.Primitives.{PublicKey, SecretKey, Bytes, BlockReference, StateRecord}
use near_workspaces_rs.Primitives.Rpc.{Call}
use near_workspaces_rs.Error.{Error}
use near_workspaces_rs.Types.{
  CryptoHash, zero_hash, full_access, access_key_into_near, InMemorySigner, from_secret_key,
}
use near_workspaces_rs.Account.{AccountDetails, patch_from_details}
use near_workspaces_rs.Client.Retry.{RetryLib}
use near_workspaces_rs.Client.{Client}
use near_workspaces_rs.Patch
use near_workspaces_rs.Patch.{PatchTransaction, send_records}
use near_workspaces_rs.Patch.Records.{patched_account, transact_patches}
use near_workspaces_rs.Import.{
  ImportContractTransaction, Networks, on_from, on_into, destination, seed_key, account_of, code_of,
  states_of, started, add_code, add_states, worker_account, with_balance, transact,
}

abbrev pub signer_of : (String → SecretKey) → ImportContractTransaction → InMemorySigner
signer_of from_seed self = from_secret_key (destination self) (seed_key from_seed)

-- The account and its one access key, written with these details and the hash of new code.
abbrev pub account_records :
    (String → SecretKey)
    → (SecretKey → PublicKey)
    → ImportContractTransaction
    → AccountDetails
    → Option CryptoHash
    → List StateRecord
account_records from_seed public_key self d code_hash_update =
    patched_account (destination self)
      (patch_from_details (with_balance d self.initial_balance) ∷ []) code_hash_update
    ∷ StateRecord.access_key (destination self) (public_key (seed_key from_seed))
        (access_key_into_near full_access)
    ∷ []

module _ (lib : RetryLib) {V : Type 0} (call : Call V) (from_seed : String → SecretKey) where
  -- Two requests with these records to the sandbox, the second if the first succeeds; then the
  -- contract's signer is returned, or the error of the sandbox.
  abbrev pub written :
      {W : Type 0}
      → ImportContractTransaction
      → List StateRecord
      → Client W
      → Client V
      → Result InMemorySigner Error × Networks W V
  written self records from_client into_client =
      let sent : Result (Unit {0}) Error × Client V =
        (send_records lib call records >> send_records lib call records) into_client in
      (
        Result.map (λ _. signer_of from_seed self) sent.0,
        record { from_network = from_client; into_network = sent.1 },
      )

finished :
    {W V A B E : Type 0} (b : B) (c : Client W) (r : Result A E × Client V)
    → continue {S = Networks W V} r.0
        (record { from_network = c; into_network = r.1 })
        (λ _. pure b)
      ≡ (Result.map (λ _. b) r.0, record { from_network = c; into_network = r.1 })
unfolding pure
finished b c (ok a, d) = refl
finished b c (err e, d) = refl

module _ (lib : RetryLib) {W V : Type 0} (call_from : Call W) (call_into : Call V)
    (latest : BlockReference) (hash_bytes : Bytes → CryptoHash) (from_seed : String → SecretKey)
    (public_key : SecretKey → PublicKey) where
  -- What `add_code` and `add_states` add to a patch
  adds_code :
      (self : ImportContractTransaction) (h : CryptoHash) (p : PatchTransaction) (code : Bytes)
      (c d : Client W)
      → (h == zero_hash) ≡ false
      → code_of lib call_from latest self c ≡ (ok code, d)
      → add_code lib call_from call_into latest hash_bytes from_seed public_key self h p c
        ≡ (ok (Patch.code hash_bytes p code), d)
  unfolding add_code pure ◌>>=◌
  adds_code self h p code c d has_code fetched = rw (has_code, fetched) refl

  adds_states :
      (self : ImportContractTransaction) (p : PatchTransaction) (states : List (Bytes × Bytes))
      (c d : Client W)
      → self.import_data ≡ true
      → states_of lib call_from latest self c ≡ (ok states, d)
      → add_states lib call_from call_into latest hash_bytes from_seed public_key self p c
        ≡ (ok (Patch.states p states), d)
  unfolding add_states pure ◌>>=◌
  adds_states self p states c d wanted listed =
      ap
        (λ b.
          (if b
              then (states_of lib call_from latest self >>= λ s. pure (Patch.states p s))
              else pure p)
            c)
        wanted
      ∙ ap (λ r. continue r.0 r.1 (λ s. pure (Patch.states p s))) listed

  adds_nothing :
      (self : ImportContractTransaction) (h : CryptoHash) (p : PatchTransaction) (c : Client W)
      → (h == zero_hash) ≡ true
      → self.import_data ≡ false
      → (add_code lib call_from call_into latest hash_bytes from_seed public_key self h p c
          ≡ (ok p, c))
        × (add_states lib call_from call_into latest hash_bytes from_seed public_key self p c
            ≡ (ok p, c))
  unfolding add_code add_states pure ◌>>=◌
  adds_nothing self h p c no_code unwanted = (
    rw no_code refl,
    ap
        (λ b.
          (if b
              then (states_of lib call_from latest self >>= λ s. pure (Patch.states p s))
              else pure p)
            c)
        unwanted,
  )

  -- What `transact` does with the patch, if it is this one
  sends :
      (self : ImportContractTransaction) (n : Networks W V) (d : AccountDetails)
      (patch with_code : PatchTransaction) (c1 c2 c3 : Client W)
      → account_of lib call_from latest self n.from_network ≡ (ok d, c1)
      → add_code lib call_from call_into latest hash_bytes from_seed public_key self d.code_hash
          (started lib call_from call_into latest hash_bytes from_seed public_key self d)
          c1
        ≡ (ok with_code, c2)
      → add_states lib call_from call_into latest hash_bytes from_seed public_key self with_code c2
        ≡ (ok patch, c3)
      → transact lib call_from call_into latest hash_bytes from_seed public_key self n ≡ (
          let sent : Result (Unit {0}) Error × Client V =
            Patch.transact lib call_into
              (worker_account lib call_into latest)
              patch
              n.into_network in
          (
            Result.map (λ _. signer_of from_seed self) sent.0,
            record { from_network = c3; into_network = sent.1 },
          ))
  unfolding transact on_from on_into ◌>>=◌ ◌>>◌
  sends self n d patch with_code c1 c2 c3 read coded stated =
      rw (read, coded, stated) (finished _ _ _)

  -- If the account has code and the data is to be imported, and the account, its code and its state
  -- can be read, then they are read in this order and the sandbox is sent the account as it was
  -- read, with the initial balance if one is given and the hash of the code, its access key, the
  -- code and all entries of the state.
  pub import_writes :
      (self : ImportContractTransaction) (n : Networks W V) (d : AccountDetails) (code : Bytes)
      (states : List (Bytes × Bytes)) (c1 c2 c3 : Client W)
      → account_of lib call_from latest self n.from_network ≡ (ok d, c1)
      → (d.code_hash == zero_hash) ≡ false
      → code_of lib call_from latest self c1 ≡ (ok code, c2)
      → self.import_data ≡ true
      → states_of lib call_from latest self c2 ≡ (ok states, c3)
      → transact lib call_from call_into latest hash_bytes from_seed public_key self n
        ≡ written lib call_into from_seed self
            (account_records from_seed public_key self d (some (hash_bytes code))
              ++ StateRecord.contract (destination self) code
                ∷ map (λ e. StateRecord.data_record (destination self) e.0 e.1) states)
            c3
            n.into_network
  unfolding started Patch.access_key Patch.account Patch.new Patch.code Patch.states
  import_writes self n d code states c1 c2 c3 read has_code fetched wanted listed =
      sends self n d _ _ c1 c2 c3 read (adds_code self _ _ code c1 c2 has_code fetched)
        (adds_states self _ states c2 c3 wanted listed)
      ∙ ap
          (λ r. (
            Result.map (λ _. signer_of from_seed self) r.0,
            record { from_network = c3; into_network = r.1 },
          ))
          (transact_patches lib call_into (worker_account lib call_into latest) _
            (patch_from_details (with_balance d self.initial_balance)) [] n.into_network refl)

  -- If the account has no code and its data is not imported, nothing but the account is read, and the
  -- sandbox is sent the account, with the initial balance if one is given, and its access key.
  pub import_writes_account :
      (self : ImportContractTransaction) (n : Networks W V) (d : AccountDetails) (c : Client W)
      → account_of lib call_from latest self n.from_network ≡ (ok d, c)
      → (d.code_hash == zero_hash) ≡ true
      → self.import_data ≡ false
      → transact lib call_from call_into latest hash_bytes from_seed public_key self n
        ≡ written lib call_into from_seed self
            (account_records from_seed public_key self d none)
            c
            n.into_network
  unfolding started Patch.access_key Patch.account Patch.new
  import_writes_account self n d c read no_code unwanted =
      sends self n d _ _ c c c read (adds_nothing self _ _ c no_code unwanted).0
        (adds_nothing self d.code_hash _ c no_code unwanted).1
      ∙ ap
          (λ r. (
            Result.map (λ _. signer_of from_seed self) r.0,
            record { from_network = c; into_network = r.1 },
          ))
          (transact_patches lib call_into (worker_account lib call_into latest) _
            (patch_from_details (with_balance d self.initial_balance)) [] n.into_network refl)

  -- If the account cannot be read, or it has code and its code cannot be read, that error is returned
  -- and the sandbox is asked nothing.
  pub import_unread :
      (self : ImportContractTransaction) (n : Networks W V) (e : Error) (c1 c2 : Client W)
      → (account_of lib call_from latest self n.from_network ≡ (err e, c2))
        ⊎ ((d : AccountDetails) × (account_of lib call_from latest self n.from_network ≡ (ok d, c1))
            × ((d.code_hash == zero_hash) ≡ false)
            × (code_of lib call_from latest self c1 ≡ (err e, c2)))
      → transact lib call_from call_into latest hash_bytes from_seed public_key self n
        ≡ (err e, record { from_network = c2; into_network = n.into_network })
  unfolding transact add_code on_from ◌>>=◌ ◌>>◌
  import_unread self n e c1 c2 (inl unread) = rw unread refl
  import_unread self n e c1 c2 (inr (d, read, has_code, unread)) = rw (read, has_code, unread) refl
