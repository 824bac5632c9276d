-- ===== src/Account.antt =====
-- The account details of workspaces/src/types/account.rs and their patches. Balances are counts of
-- yoctoNEAR, as `NearToken` wraps them.
pub mod Reduce
use near_workspaces_rs.Prelude.{ℕ, Option, none, some, unwrap_or}
use near_workspaces_rs.Primitives.{AccountView, NearAccount}
use near_workspaces_rs.Types.{CryptoHash, zero_hash}

pub record AccountDetailsPatch : Type 0 where
  pub balance : Option ℕ
  pub locked : Option ℕ
  pub code_hash : Option CryptoHash
  pub storage_usage : Option ℕ
  pub storage_paid_at : Option ℕ

pub record AccountDetails : Type 0 where
  pub balance : ℕ
  pub locked : ℕ
  pub code_hash : CryptoHash
  pub storage_usage : ℕ
  pub storage_paid_at : ℕ

-- `AccountDetailsPatch::default()`
unfoldable pub empty_patch : AccountDetailsPatch
empty_patch = record {
  balance = none;
  locked = none;
  code_hash = none;
  storage_usage = none;
  storage_paid_at = none;
}

-- `if let Some(x) = new { old = Some(x) }`
abbrev pub overwrite : {A : Type 0} → Option A → Option A → Option A
overwrite old none = old
overwrite old (some x) = some x

unfoldable pub reduce : AccountDetailsPatch → AccountDetailsPatch → AccountDetailsPatch
reduce self acc = record {
  balance = overwrite self.balance acc.balance;
  locked = overwrite self.locked acc.locked;
  code_hash = overwrite self.code_hash acc.code_hash;
  storage_usage = overwrite self.storage_usage acc.storage_usage;
  storage_paid_at = overwrite self.storage_paid_at acc.storage_paid_at;
}

unfoldable pub set_balance : AccountDetailsPatch → ℕ → AccountDetailsPatch
set_balance self balance = record self { balance = some balance }

unfoldable pub set_locked : AccountDetailsPatch → ℕ → AccountDetailsPatch
set_locked self locked = record self { locked = some locked }

unfoldable pub set_code_hash : AccountDetailsPatch → CryptoHash → AccountDetailsPatch
set_code_hash self code_hash = record self { code_hash = some code_hash }

unfoldable pub set_storage_usage : AccountDetailsPatch → ℕ → AccountDetailsPatch
set_storage_usage self storage_usage = record self { storage_usage = some storage_usage }

-- `From<AccountDetails> for AccountDetailsPatch`
unfoldable pub patch_from_details : AccountDetails → AccountDetailsPatch
patch_from_details account = record {
  balance = some account.balance;
  locked = some account.locked;
  code_hash = some account.code_hash;
  storage_usage = some account.storage_usage;
  storage_paid_at = some account.storage_paid_at;
}

-- `AccountDetails::new`, which is also `default`
unfoldable pub new_details : AccountDetails
new_details = record {
  balance = 0;
  locked = 0;
  code_hash = zero_hash;
  storage_usage = 0;
  storage_paid_at = 0;
}

unfoldable pub into_near_account : AccountDetails → NearAccount
into_near_account account = record {
  amount = account.balance;
  locked = account.locked;
  code_hash = account.code_hash;
  storage_usage = account.storage_usage;
}

-- `From<AccountView> for AccountDetails`
unfoldable pub details_from_view : AccountView → AccountDetails
details_from_view account = record {
  balance = account.amount;
  locked = account.locked;
  code_hash = account.code_hash;
  storage_usage = account.storage_usage;
  storage_paid_at = account.storage_paid_at;
}

-- `From<AccountDetailsPatch> for AccountDetails`: what is not set becomes the default.
unfoldable pub details_from_patch : AccountDetailsPatch → AccountDetails
details_from_patch value = record {
  balance = unwrap_or value.balance 0;
  locked = unwrap_or value.locked 0;
  code_hash = unwrap_or value.code_hash zero_hash;
  storage_usage = unwrap_or value.storage_usage 0;
  storage_paid_at = unwrap_or value.storage_paid_at 0;
}
