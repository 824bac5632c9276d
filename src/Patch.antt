-- ===== src/Patch.antt =====
-- workspaces/src/rpc/patch.rs and the sandbox requests of workspaces/src/network/sandbox.rs: patches
-- of an account's state in the sandbox. The hash function sha2 is a parameter.
pub mod Records
use near_workspaces_rs.Prelude.{ℕ, Option, none, some, List, [], ◌∷◌, ◌++◌, map}
use near_workspaces_rs.Result.{Result, ok, err, Exec, pure, lift, ◌>>=◌, ◌>>◌, mapping_err}
use near_workspaces_rs.Primitives.{AccountId, PublicKey, Bytes, StateRecord}
use near_workspaces_rs.Primitives.Rpc.{Request, Call}
use near_workspaces_rs.Error.{
  Error, sandbox_custom, rpc_error, patch_state_failure, fast_forward_failure,
}
use near_workspaces_rs.Types.{CryptoHash, AccessKey, access_key_into_near}
use near_workspaces_rs.Account.{
  AccountDetails, AccountDetailsPatch, empty_patch, reduce, patch_from_details, details_from_patch,
  into_near_account,
}
use near_workspaces_rs.Client.Retry.{RetryLib}
use near_workspaces_rs.Client.{Client, query}

pub data AccountUpdate : Type 0 where
  update : AccountDetailsPatch → AccountUpdate
  from_current : (AccountDetails → AccountDetailsPatch) → AccountUpdate

-- `PatchTransaction`, less its worker
pub record PatchTransaction : Type 0 where
  pub account_id : AccountId
  pub records : List StateRecord
  pub account_updates : List AccountUpdate
  pub code_hash_update : Option CryptoHash

unfoldable pub new : AccountId → PatchTransaction
new account_id = record {
  account_id = account_id;
  records = [];
  account_updates = [];
  code_hash_update = none;
}

unfoldable pub account : PatchTransaction → AccountDetailsPatch → PatchTransaction
account self details = record self { account_updates = self.account_updates ++ update details ∷ [] }

unfoldable pub account_from_current :
    PatchTransaction → (AccountDetails → AccountDetailsPatch) → PatchTransaction
account_from_current self f = record self {
  account_updates = self.account_updates ++ from_current f ∷ [];
}

-- `self.records.push(record)` and `self.records.extend(records)`
abbrev extended : PatchTransaction → List StateRecord → PatchTransaction
extended self more = record self { records = self.records ++ more }

unfoldable pub access_key : PatchTransaction → PublicKey → AccessKey → PatchTransaction
access_key self pk ak =
    extended self (StateRecord.access_key self.account_id pk (access_key_into_near ak) ∷ [])

unfoldable pub access_keys : PatchTransaction → List (PublicKey × AccessKey) → PatchTransaction
access_keys self keys =
    extended self
      (map (λ k. StateRecord.access_key self.account_id k.0 (access_key_into_near k.1)) keys)

unfoldable pub code : (Bytes → CryptoHash) → PatchTransaction → Bytes → PatchTransaction
code hash_bytes self wasm_bytes = record self {
  code_hash_update = some (hash_bytes wasm_bytes);
  records = self.records ++ StateRecord.contract self.account_id wasm_bytes ∷ [];
}

unfoldable pub state : PatchTransaction → Bytes → Bytes → PatchTransaction
state self key value = extended self (StateRecord.data_record self.account_id key value ∷ [])

unfoldable pub states : PatchTransaction → List (Bytes × Bytes) → PatchTransaction
states self entries =
    extended self (map (λ e. StateRecord.data_record self.account_id e.0 e.1) entries)

-- `if let Some(code_hash) = self.code_hash_update.take() { account.code_hash = Some(code_hash) }`
abbrev pub with_code_hash : AccountDetailsPatch → Option CryptoHash → AccountDetailsPatch
with_code_hash p none = p
with_code_hash p (some code_hash) = record p { code_hash = some code_hash }

unfoldable pub all_records : PatchTransaction → Option AccountDetailsPatch → List StateRecord
all_records self none = self.records
all_records self (some p) =
    StateRecord.account self.account_id (into_near_account (details_from_patch p)) ∷ self.records

module _ (lib : RetryLib) {W : Type 0} (call : Call W) where
  unfoldable pub send_records : List StateRecord → Exec (Client W) (Unit {0}) Error
  send_records records =
      mapping_err (λ e. sandbox_custom patch_state_failure (rpc_error e))
        (query lib call (Request.patch_state records))

module _ (lib : RetryLib) {W : Type 0} (call : Call W)
    -- `self.worker.view_account(&self.account_id).await`, of the query module
    (view_account : AccountId → Exec (Client W) AccountDetails Error) where
  -- `account.reduce(match update { … })`
  abbrev patch_of : AccountId → AccountUpdate → Exec (Client W) AccountDetailsPatch Error
  patch_of account_id (update p) = pure p
  patch_of account_id (from_current f) = do current ← view_account account_id; pure (f current)

  unfoldable pub reduce_updates :
      AccountId
      → AccountDetailsPatch
      → List AccountUpdate
      → Exec (Client W) AccountDetailsPatch Error
  reduce_updates account_id reduced [] = pure reduced
  reduce_updates account_id reduced (u ∷ us) = do
    p ← patch_of account_id u
    reduce_updates account_id (reduce reduced p) us

  unfoldable pub account_patch :
      AccountId
      → List AccountUpdate
      → Option CryptoHash
      → Exec (Client W) (Option AccountDetailsPatch) Error
  unfolding reduce_updates
  account_patch account_id [] none = pure none
  account_patch account_id [] (some code_hash) = do
    details ← view_account account_id
    pure (some (patch_from_details (record details { code_hash = code_hash })))
  account_patch account_id (u ∷ us) code_hash_update = do
    reduced ← reduce_updates account_id empty_patch (u ∷ us)
    pure (some (with_code_hash reduced code_hash_update))

  -- The request is sent twice.
  unfoldable pub transact : PatchTransaction → Exec (Client W) (Unit {0}) Error
  unfolding account_patch all_records send_records
  transact self = do
    p ← account_patch self.account_id self.account_updates self.code_hash_update
    send_records lib call (all_records self p)
    send_records lib call (all_records self p)

-- `Sandbox::patch_state` and `Sandbox::fast_forward` of workspaces/src/network/sandbox.rs
module _ (lib : RetryLib) {W : Type 0} (call : Call W) where
  unfoldable pub patch_state : AccountId → Bytes → Bytes → Exec (Client W) (Unit {0}) Error
  patch_state contract_id key value =
      mapping_err (λ e. sandbox_custom patch_state_failure (rpc_error e))
        (query lib call (Request.patch_state (StateRecord.data_record contract_id key value ∷ [])))

  unfoldable pub fast_forward : ℕ → Exec (Client W) (Unit {0}) Error
  fast_forward delta_height =
      mapping_err (λ e. sandbox_custom fast_forward_failure (rpc_error e))
        (query lib call (Request.fast_forward delta_height))
