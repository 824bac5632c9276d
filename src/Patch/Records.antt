-- ===== src/Patch/Records.antt =====
-- What a patch transaction of workspaces/src/rpc/patch.rs writes to the sandbox.
use near_workspaces_rs.Prelude.{
  ◌≡◌, refl, ap, ◌∙◌, Option, none, some, unwrap_or, List, [], ◌∷◌, map,
}
use near_workspaces_rs.Result.{ok, Exec, pure, continue-pure, ◌>>=◌, ◌>>◌}
use near_workspaces_rs.Primitives.{AccountId, StateRecord}
use near_workspaces_rs.Primitives.Rpc.{Call}
use near_workspaces_rs.Error.{Error}
use near_workspaces_rs.Types.{CryptoHash, zero_hash}
use near_workspaces_rs.Account.{
  AccountDetails, AccountDetailsPatch, empty_patch, overwrite, reduce, patch_from_details,
  details_from_patch, into_near_account,
}
use near_workspaces_rs.Client.Retry.{RetryLib}
use near_workspaces_rs.Client.{Client}
use near_workspaces_rs.Patch.{
  PatchTransaction, update, reduce_updates, account_patch, all_records, send_records, transact,
  with_code_hash,
}

-- The value that the last patch with this field gives it.
abbrev pub last_given :
    {A : Type 0} → (AccountDetailsPatch → Option A) → List AccountDetailsPatch → Option A
last_given field [] = none
last_given field (p ∷ ps) = overwrite (field p) (last_given field ps)

abbrev reduce_all : AccountDetailsPatch → List AccountDetailsPatch → AccountDetailsPatch
reduce_all a [] = a
reduce_all a (p ∷ ps) = reduce_all (reduce a p) ps

overwrite_assoc :
    {A : Type 0} (a b c : Option A) → overwrite (overwrite a b) c ≡ overwrite a (overwrite b c)
overwrite_assoc a b none = refl
overwrite_assoc a b (some x) = refl

overwrite-none : {A : Type 0} (a : Option A) → overwrite none a ≡ a
overwrite-none none = refl
overwrite-none (some x) = refl

-- A field that `reduce` overwrites holds, after a list of patches, what the last of them gave.
reduce_all-last_given :
    {A : Type 0} (field : AccountDetailsPatch → Option A)
    → ((a p : AccountDetailsPatch) → field (reduce a p) ≡ overwrite (field a) (field p))
    → (a : AccountDetailsPatch) (ps : List AccountDetailsPatch)
    → field (reduce_all a ps) ≡ overwrite (field a) (last_given field ps)
reduce_all-last_given field each a [] = refl
reduce_all-last_given field each a (p ∷ ps) =
    reduce_all-last_given field each (reduce a p) ps
    ∙ ap (λ f. overwrite f (last_given field ps)) (each a p)
    ∙ overwrite_assoc (field a) (field p) (last_given field ps)

-- The account's record when it is patched with these patches and this code hash.
abbrev pub patched_account : AccountId → List AccountDetailsPatch → Option CryptoHash → StateRecord
patched_account account_id ps code_hash_update = StateRecord.account account_id (record {
  amount = unwrap_or (last_given (λ p. p.balance) ps) 0;
  locked = unwrap_or (last_given (λ p. p.locked) ps) 0;
  code_hash = unwrap_or (overwrite (last_given (λ p. p.code_hash) ps) code_hash_update) zero_hash;
  storage_usage = unwrap_or (last_given (λ p. p.storage_usage) ps) 0;
})

from_empty :
    {A : Type 0} (field : AccountDetailsPatch → Option A)
    → ((a p : AccountDetailsPatch) → field (reduce a p) ≡ overwrite (field a) (field p))
    → field empty_patch ≡ none
    → (ps : List AccountDetailsPatch) → field (reduce_all empty_patch ps) ≡ last_given field ps
from_empty field each empty ps =
    reduce_all-last_given field each empty_patch ps
    ∙ ap (λ f. overwrite f (last_given field ps)) empty
    ∙ overwrite-none (last_given field ps)

patched_record :
    (account_id : AccountId) (ps : List AccountDetailsPatch) (h : Option CryptoHash)
    → StateRecord.account account_id
        (into_near_account (details_from_patch (with_code_hash (reduce_all empty_patch ps) h)))
      ≡ patched_account account_id ps h
unfolding into_near_account details_from_patch reduce empty_patch
patched_record account_id ps none = rw (from_empty (λ p. p.balance) (λ a p. refl) refl ps) (
    rw (from_empty (λ p. p.locked) (λ a p. refl) refl ps) (
      rw (from_empty (λ p. p.code_hash) (λ a p. refl) refl ps)
        (rw (from_empty (λ p. p.storage_usage) (λ a p. refl) refl ps) refl)))
patched_record account_id ps (some h) = rw (from_empty (λ p. p.balance) (λ a p. refl) refl ps) (
    rw (from_empty (λ p. p.locked) (λ a p. refl) refl ps)
      (rw (from_empty (λ p. p.storage_usage) (λ a p. refl) refl ps) refl))

module _ (lib : RetryLib) {W : Type 0} (call : Call W)
    (view_account : AccountId → Exec (Client W) AccountDetails Error) where
  reduce_updates-update :
      (account_id : AccountId) (a : AccountDetailsPatch) (ps : List AccountDetailsPatch)
      (c : Client W)
      → reduce_updates lib call view_account account_id a (map update ps) c
        ≡ (ok (reduce_all a ps), c)
  unfolding reduce_updates pure ◌>>=◌
  reduce_updates-update account_id a [] c = refl
  reduce_updates-update account_id a (p ∷ ps) c = reduce_updates-update account_id (reduce a p) ps c

  -- A transaction whose account updates are patches, at least one, asks the node nothing before it
  -- sends its records twice, the second time if the first succeeds. The account's record comes
  -- first. In it, each field has the value of the last patch that sets it, but the code hash that
  -- of new code if there is new code, and a field that nothing sets has the default value.
  pub transact_patches :
      (self : PatchTransaction) (p : AccountDetailsPatch) (ps : List AccountDetailsPatch)
      (c : Client W)
      → self.account_updates ≡ map update (p ∷ ps)
      → transact lib call view_account self c
        ≡ (send_records lib call
                (patched_account self.account_id (p ∷ ps) self.code_hash_update ∷ self.records)
              >> send_records lib call
                  (patched_account self.account_id (p ∷ ps) self.code_hash_update ∷ self.records))
            c
  unfolding transact account_patch all_records pure ◌>>=◌ ◌>>◌
  transact_patches self p ps c h =
      rw
        (
          h,
          reduce_updates-update self.account_id empty_patch (p ∷ ps) c,
          patched_record self.account_id (p ∷ ps) self.code_hash_update,
        )
        refl

  -- A transaction without account updates and code sends its records twice and asks the node nothing
  -- else.
  pub transact_plain :
      (self : PatchTransaction) (c : Client W)
      → self.account_updates ≡ []
      → self.code_hash_update ≡ none
      → transact lib call view_account self c
        ≡ (send_records lib call self.records >> send_records lib call self.records) c
  unfolding transact account_patch all_records pure ◌>>=◌ ◌>>◌
  transact_plain self c none_given no_code = rw (none_given, no_code) refl

  -- A transaction with new code and no account updates looks the account up once. If that fails, its
  -- error is returned and nothing is sent. If not, the account's record comes first and is the
  -- account as it was, except for the hash of the code.
  pub transact_code :
      (self : PatchTransaction) (h : CryptoHash) (c : Client W)
      → self.account_updates ≡ []
      → self.code_hash_update ≡ some h
      → transact lib call view_account self c
        ≡ (do
          d ← view_account self.account_id
          let record_of =
              StateRecord.account self.account_id (into_near_account (record d { code_hash = h }))
          send_records lib call (record_of ∷ self.records)
          send_records lib call (record_of ∷ self.records))
            c
  unfolding transact account_patch all_records send_records patch_from_details details_from_patch
      pure ◌>>=◌ ◌>>◌
  transact_code self h c none_given code =
      rw (none_given, code)
        (continue-pure (view_account self.account_id c).0 (view_account self.account_id c).1
          (λ d. some (patch_from_details (record d { code_hash = h }))) _)
