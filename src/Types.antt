-- ===== src/Types.antt =====
-- workspaces/src/types/mod.rs: hashes, access keys, signers and finality.
pub mod Keys
pub mod Texts
pub mod Hashes
pub mod Made
pub mod Sdk
use near_workspaces_rs.Prelude.{
  ℕ, String, Bool, true, false, not, Option, none, some, List, [], ◌∷◌, length, replicate, ◌==◌,
  nat_eq, if◌then◌else◌,
}
use near_workspaces_rs.Result
use near_workspaces_rs.Result.{Result, ok, err, and_then}
use near_workspaces_rs.Primitives
use near_workspaces_rs.Primitives.{
  AccountId, PublicKey, SecretKey, Bytes, AccessKeyView, AccessKeyPermissionView, AccessKeyInfoView,
  BlockReference,
}
use near_workspaces_rs.Error.{Error, BoxedError, custom, message, data_conversion}

-- `CryptoHash([u8; 32])`
abbrev pub CryptoHash : Type 0
CryptoHash = Bytes

abbrev pub zero_hash : CryptoHash
zero_hash = replicate 32 0

-- `TryFrom<&[u8]>` and `TryFrom<Vec<u8>>`. The message's text carries no number here.
unfoldable pub hash_try_from : Bytes → Result CryptoHash Error
unfolding message
hash_try_from bytes =
    if not (length bytes == 32)
    then err (message data_conversion "incorrect hash length (expected 32)")
    else ok bytes

-- `FromStr for CryptoHash`; the decoder of the crate bs58 is a parameter.
unfoldable pub hash_from_str : (String → Result Bytes BoxedError) → String → Result CryptoHash Error
unfolding hash_try_from custom
hash_from_str from_base58 s =
    and_then (Result.map_err (custom data_conversion) (from_base58 s)) hash_try_from

pub record FunctionCallPermission : Type 0 where
  pub allowance : Option ℕ
  pub receiver_id : String
  pub method_names : List String

pub data AccessKeyPermission : Type 0 where
  function_call : FunctionCallPermission → AccessKeyPermission
  full_access_permission : AccessKeyPermission

pub record AccessKey : Type 0 where
  pub nonce : ℕ
  pub permission : AccessKeyPermission

unfoldable pub full_access : AccessKey
full_access = record { nonce = 0; permission = full_access_permission }

unfoldable pub function_call_access : AccountId → List String → Option ℕ → AccessKey
function_call_access receiver_id method_names allowance = record {
  nonce = 0;
  permission =
      function_call
        (record { allowance = allowance; receiver_id = receiver_id; method_names = method_names });
}

pub record AccessKeyInfo : Type 0 where
  pub public_key : PublicKey
  pub access_key : AccessKey

permission_into_near : AccessKeyPermission → Primitives.AccessKeyPermission
permission_into_near (function_call p) =
    Primitives.AccessKeyPermission.function_call (record {
      allowance = p.allowance;
      receiver_id = p.receiver_id;
      method_names = p.method_names;
    })
permission_into_near full_access_permission = Primitives.AccessKeyPermission.full_access

-- `From<AccessKey> for near_primitives::account::AccessKey`
unfoldable pub access_key_into_near : AccessKey → Primitives.AccessKey
unfolding permission_into_near
access_key_into_near k = record { nonce = k.nonce; permission = permission_into_near k.permission }

permission_from_view : AccessKeyPermissionView → AccessKeyPermission
permission_from_view (AccessKeyPermissionView.function_call allowance receiver_id method_names) =
    function_call
      (record { allowance = allowance; receiver_id = receiver_id; method_names = method_names })
permission_from_view AccessKeyPermissionView.full_access = full_access_permission

-- `From<near_primitives::views::AccessKeyView> for AccessKey`
unfoldable pub access_key_from_view : AccessKeyView → AccessKey
unfolding permission_from_view
access_key_from_view v = record { nonce = v.nonce; permission = permission_from_view v.permission }

unfoldable pub access_key_info_from_view : AccessKeyInfoView → AccessKeyInfo
unfolding access_key_from_view
access_key_info_from_view v = record {
  public_key = v.public_key;
  access_key = access_key_from_view v.access_key;
}

pub record InMemorySigner : Type 0 where
  pub account_id : AccountId
  pub secret_key : SecretKey

unfoldable pub from_secret_key : AccountId → SecretKey → InMemorySigner
from_secret_key account_id secret_key = record { account_id = account_id; secret_key = secret_key }

pub data Finality : Type 0 where
  optimistic doom_slug final : Finality

finality_into_near : Finality → Primitives.Finality
finality_into_near optimistic = Primitives.Finality.none_final
finality_into_near doom_slug = Primitives.Finality.doom_slug
finality_into_near final = Primitives.Finality.final

-- `From<Finality> for near_primitives::types::BlockReference`
unfoldable pub block_reference_from_finality : Finality → BlockReference
unfolding finality_into_near
block_reference_from_finality f = BlockReference.finality (finality_into_near f)
