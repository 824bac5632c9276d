-- ===== src/Import.antt =====
-- `ImportContractTransaction` of workspaces/src/rpc/patch.rs: a contract of one network is copied to
-- the sandbox. The hash function, the key of a seed and its public key are parameters, as is
-- `BlockReference::latest`.
pub mod Written
pub mod Spooned
use near_workspaces_rs.Prelude.{
  ℕ, String, Bool, true, false, Option, none, some, unwrap_or, List, [], ◌∷◌, ◌==◌, list_eq, nat_eq,
  if◌then◌else◌,
}
use near_workspaces_rs.Result.{Result, Exec, pure, ◌>>=◌, ◌>>◌}
use near_workspaces_rs.Primitives.{AccountId, PublicKey, SecretKey, Bytes, BlockReference, BlockId}
use near_workspaces_rs.Primitives.Rpc.{Call}
use near_workspaces_rs.Error.{Error}
use near_workspaces_rs.Types.{CryptoHash, zero_hash, full_access, InMemorySigner, from_secret_key}
use near_workspaces_rs.Account.{AccountDetails, patch_from_details}
use near_workspaces_rs.Client.Retry.{RetryLib}
use near_workspaces_rs.Client.{Client}
use near_workspaces_rs.Query
use near_workspaces_rs.Query.{run}
use near_workspaces_rs.Query.Kinds.{view_account, view_code, view_state}
use near_workspaces_rs.Patch
use near_workspaces_rs.Patch.{PatchTransaction}

-- `DEV_ACCOUNT_SEED` of workspaces/src/network/variants.rs
abbrev pub dev_account_seed : String
dev_account_seed = "testificate"

-- `ImportContractTransaction`, less its workers
pub record ImportContractTransaction : Type 0 where
  pub account_id : AccountId
  pub import_data : Bool
  pub initial_balance : Option ℕ
  pub block_ref : Option BlockReference
  pub into_account_id : Option AccountId

unfoldable pub new : AccountId → ImportContractTransaction
new account_id = record {
  account_id = account_id;
  import_data = false;
  initial_balance = none;
  block_ref = none;
  into_account_id = none;
}

unfoldable pub block_height : ImportContractTransaction → ℕ → ImportContractTransaction
block_height self height = record self {
  block_ref = some (BlockReference.block_id (BlockId.height height));
}

unfoldable pub block_hash : ImportContractTransaction → CryptoHash → ImportContractTransaction
block_hash self hash = record self {
  block_ref = some (BlockReference.block_id (BlockId.hash hash));
}

unfoldable pub with_data : ImportContractTransaction → ImportContractTransaction
with_data self = record self { import_data = true }

unfoldable pub set_initial_balance : ImportContractTransaction → ℕ → ImportContractTransaction
set_initial_balance self initial_balance = record self { initial_balance = some initial_balance }

unfoldable pub dest_account_id : ImportContractTransaction → AccountId → ImportContractTransaction
dest_account_id self account_id = record self { into_account_id = some account_id }

-- `self.into_account_id.as_ref().unwrap_or(from_account_id)`
abbrev pub destination : ImportContractTransaction → AccountId
destination self = unwrap_or self.into_account_id self.account_id

-- The clients of the two networks
pub record Networks (W V : Type 0) : Type 0 where
  pub from_network : Client W
  pub into_network : Client V

module _ {W V A E : Type 0} where
  unfoldable pub on_from : Exec (Client W) A E → Exec (Networks W V) A E
  on_from m n = let (r, c) = m n.from_network in (r, record n { from_network = c })

  unfoldable pub on_into : Exec (Client V) A E → Exec (Networks W V) A E
  on_into m n = let (r, c) = m n.into_network in (r, record n { into_network = c })

abbrev pub with_balance : AccountDetails → Option ℕ → AccountDetails
with_balance d none = d
with_balance d (some initial_balance) = record d { balance = initial_balance }

-- `SecretKey::from_seed(KeyType::ED25519, DEV_ACCOUNT_SEED)`
abbrev pub seed_key : (String → SecretKey) → SecretKey
seed_key from_seed = from_seed dev_account_seed

-- The awaited queries of the network that is imported from
module _ (lib : RetryLib) {W : Type 0} (call : Call W) (latest : BlockReference) where
  -- The block that everything is read at
  abbrev reference : ImportContractTransaction → BlockReference
  reference self = unwrap_or self.block_ref latest

  unfoldable pub account_of : ImportContractTransaction → Exec (Client W) AccountDetails Error
  account_of self =
      run lib call latest view_account (
        Query.block_reference (Query.new (record { account_id = self.account_id }))
          (reference self))

  unfoldable pub code_of : ImportContractTransaction → Exec (Client W) Bytes Error
  code_of self =
      run lib call latest view_code (
        Query.block_reference (Query.new (record { account_id = self.account_id }))
          (reference self))

  unfoldable pub states_of :
      ImportContractTransaction → Exec (Client W) (List (Bytes × Bytes)) Error
  states_of self = run lib call latest view_state (
      Query.block_reference (Query.new (record { account_id = self.account_id; prefix = none }))
        (reference self))

  -- `view_account` of a worker, awaited
  unfoldable pub worker_account : AccountId → Exec (Client W) AccountDetails Error
  worker_account account_id =
      run lib call latest view_account (Query.new (record { account_id = account_id }))

module _ (lib : RetryLib) {W V : Type 0} (call_from : Call W) (call_into : Call V)
    (latest : BlockReference) (hash_bytes : Bytes → CryptoHash) (from_seed : String → SecretKey)
    (public_key : SecretKey → PublicKey) where
  -- The patch before code and data are added
  unfoldable pub started : ImportContractTransaction → AccountDetails → PatchTransaction
  started self account_view =
      Patch.access_key
        (Patch.account (Patch.new (destination self))
          (patch_from_details (with_balance account_view self.initial_balance)))
        (public_key (seed_key from_seed)) full_access

  unfoldable pub add_code :
      ImportContractTransaction
      → CryptoHash
      → PatchTransaction
      → Exec (Client W) PatchTransaction Error
  add_code self code_hash patch =
      if code_hash == zero_hash
      then pure patch
      else (do code ← code_of lib call_from latest self; pure (Patch.code hash_bytes patch code))

  -- The entries of the `HashMap` are taken in the order of the list that models it.
  unfoldable pub add_states :
      ImportContractTransaction → PatchTransaction → Exec (Client W) PatchTransaction Error
  add_states self patch =
      if self.import_data
      then (do states ← states_of lib call_from latest self; pure (Patch.states patch states))
      else pure patch

  -- `ImportContractTransaction::transact`; the contract is its signer.
  unfoldable pub transact : ImportContractTransaction → Exec (Networks W V) InMemorySigner Error
  unfolding started add_code add_states from_secret_key
  transact self = do
    account_view ← on_from (account_of lib call_from latest self)
    with_code ← on_from (add_code self account_view.code_hash (started self account_view))
    patch ← on_from (add_states self with_code)
    on_into (Patch.transact lib call_into (worker_account lib call_into latest) patch)
    pure (from_secret_key (destination self) (seed_key from_seed))
