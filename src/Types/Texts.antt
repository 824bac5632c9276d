-- ===== src/Types/Texts.antt =====
-- Keys, key types and hashes as texts (workspaces/src/types/mod.rs). The texts of the crates near_crypto
-- and bs58 are parameters, with the round trips that they document.
use near_workspaces_rs.Prelude.{String, ◌≡◌, refl, length, nat_eq, arith}
use near_workspaces_rs.Result
use near_workspaces_rs.Result.{Result, ok, err, and_then, map_err}
use near_workspaces_rs.Primitives.{PublicKey, SecretKey, Bytes}
use near_workspaces_rs.Error.{Error, BoxedError, custom, data_conversion}
use near_workspaces_rs.Types.{CryptoHash, hash_from_str}
use near_workspaces_rs.Types.Keys.{KeyType, ed25519, secp256k1}

-- `near_crypto::KeyType`
pub data NearKeyType : Type 0 where
  near_ed25519 near_secp256k1 : NearKeyType

unfoldable pub into_near_keytype : KeyType → NearKeyType
into_near_keytype ed25519 = near_ed25519
into_near_keytype secp256k1 = near_secp256k1

unfoldable pub from_near_keytype : NearKeyType → KeyType
from_near_keytype near_ed25519 = ed25519
from_near_keytype near_secp256k1 = secp256k1

pub record TextCodec : Type 0 where
  pub show_key_type : NearKeyType → String
  pub parse_key_type : String → Result NearKeyType BoxedError
  pub show_public_key : PublicKey → String
  pub parse_public_key : String → Result PublicKey BoxedError
  pub show_secret_key : SecretKey → String
  pub parse_secret_key : String → Result SecretKey BoxedError
  pub to_base58 : Bytes → String
  pub from_base58 : String → Result Bytes BoxedError
  pub parse-show_key_type : (t : NearKeyType) → parse_key_type (show_key_type t) ≡ ok t
  pub parse-show_public_key : (pk : PublicKey) → parse_public_key (show_public_key pk) ≡ ok pk
  pub parse-show_secret_key : (sk : SecretKey) → parse_secret_key (show_secret_key sk) ≡ ok sk
  pub from-to_base58 : (bytes : Bytes) → from_base58 (to_base58 bytes) ≡ ok bytes

module _ (texts : TextCodec) where
  -- `Display` and `FromStr` for `KeyType`, `PublicKey` and `SecretKey`, and `Display for CryptoHash`
  unfoldable pub key_type_to_string : KeyType → String
  unfolding into_near_keytype
  key_type_to_string self = texts.show_key_type (into_near_keytype self)

  unfoldable pub key_type_from_str : String → Result KeyType Error
  unfolding custom from_near_keytype
  key_type_from_str value =
      Result.map from_near_keytype (map_err (custom data_conversion) (texts.parse_key_type value))

  unfoldable pub public_key_to_string : PublicKey → String
  public_key_to_string self = texts.show_public_key self

  unfoldable pub public_key_from_str : String → Result PublicKey Error
  unfolding custom
  public_key_from_str value = map_err (custom data_conversion) (texts.parse_public_key value)

  unfoldable pub secret_key_to_string : SecretKey → String
  secret_key_to_string self = texts.show_secret_key self

  unfoldable pub secret_key_from_str : String → Result SecretKey Error
  unfolding custom
  secret_key_from_str value = map_err (custom data_conversion) (texts.parse_secret_key value)

  unfoldable pub hash_to_string : CryptoHash → String
  hash_to_string self = texts.to_base58 self

  -- Key types, public keys, secret keys and hashes of 32 bytes are read back from the texts that display
  -- them.
  pub from_str-to_string :
      (t : KeyType) (pk : PublicKey) (sk : SecretKey) (h : CryptoHash)
      → length h ≡ 32
      → (key_type_from_str (key_type_to_string t) ≡ ok t)
        × (public_key_from_str (public_key_to_string pk) ≡ ok pk)
        × (secret_key_from_str (secret_key_to_string sk) ≡ ok sk)
        × (hash_from_str texts.from_base58 (hash_to_string h) ≡ ok h)
  unfolding key_type_from_str key_type_to_string public_key_from_str public_key_to_string
      secret_key_from_str secret_key_to_string hash_from_str hash_to_string
  from_str-to_string t pk sk h len = (
    rw (texts.parse-show_key_type (into_near_keytype t)) (near_and_back t),
    rw (texts.parse-show_public_key pk) refl,
    rw (texts.parse-show_secret_key sk) refl,
    rw (texts.from-to_base58 h) (ground arith),
  )
    where
      near_and_back :
          (t : KeyType)
          → ◌≡◌ {A = Result KeyType Error} (ok (from_near_keytype (into_near_keytype t))) (ok t)
      near_and_back ed25519 = refl
      near_and_back secp256k1 = refl
