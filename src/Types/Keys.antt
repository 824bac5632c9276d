-- ===== src/Types/Keys.antt =====
-- `KeyType` and the byte forms of `PublicKey` (workspaces/src/types/mod.rs). The keys of the crate
-- near_crypto and borsh's `u32` are parameters, with the round trips that borsh documents.
use near_workspaces_rs.Prelude.{
  ℕ, ◌%◌, ◌<◌, ◌≡◌, ◌≢◌, not, none, some, [], ◌∷◌, ◌++◌, ◌==◌, nat_eq, arith, true, if◌then◌else◌,
}
use mathlib.Core.List.{append_assoc}
use near_workspaces_rs.Result
use near_workspaces_rs.Result.{Result, ok, err, MayPanic, and_then}
use near_workspaces_rs.Primitives.{Bytes}
use near_workspaces_rs.Error.{Error, BoxedError, text, custom, full, data_conversion}

pub data KeyType : Type 0 where
  ed25519 secp256k1 : KeyType

-- `key_type as u8`
unfoldable pub key_type_byte : KeyType → ℕ
key_type_byte ed25519 = 0
key_type_byte secp256k1 = 1

unfoldable pub data_len : KeyType → ℕ
data_len ed25519 = 32
data_len secp256k1 = 64

-- `TryFrom<u8> for KeyType`
unfoldable pub key_type_try_from : ℕ → Result KeyType Error
unfolding custom
key_type_try_from b =
    if b == 0
    then ok ed25519
    else if b == 1
    then ok secp256k1
    else err (custom data_conversion (text "Unknown key type provided"))

-- `near_crypto::PublicKey` and the borsh of `u32`.
pub record KeyCodec (Pk : Type 0) : Type 0 where
  pub len : Pk → ℕ
  pub serialize : Pk → Bytes
  pub deserialize : Bytes → Result (Pk × Bytes) BoxedError
  pub try_from_slice : Bytes → Result Pk BoxedError
  pub write_u32 : ℕ → Bytes
  pub read_u32 : Bytes → Result (ℕ × Bytes) BoxedError
  pub deserialize-serialize :
      (k : Pk) (rest : Bytes) → deserialize (serialize k ++ rest) ≡ ok (k, rest)
  pub read-write_u32 :
      (n : ℕ) (rest : Bytes) → n < 4294967296 → read_u32 (write_u32 n ++ rest) ≡ ok (n, rest)

module _ {Pk : Type 0} (c : KeyCodec Pk) where
  -- `PublicKey::try_from_parts`
  unfoldable pub try_from_parts : KeyType → Bytes → Result Pk Error
  unfolding full key_type_byte
  try_from_parts key_type bytes =
      Result.map_err (full data_conversion "Invalid key data for key type")
        (c.try_from_slice (key_type_byte key_type ∷ bytes))

  -- `PublicKey::try_from_bytes`; `bytes[0]` panics on an empty slice.
  unfoldable pub try_from_bytes : Bytes → MayPanic (Result Pk Error)
  unfolding full key_type_try_from
  try_from_bytes [] = none
  try_from_bytes (b ∷ bs) = some (
      and_then (key_type_try_from b) (λ key_type.
        Result.map_err (full data_conversion "Invalid key data for key type")
          (c.try_from_slice (b ∷ bs))))

  -- `BorshSerialize for PublicKey`; `as u32` wraps.
  unfoldable pub serialize : Pk → Bytes
  serialize k = c.write_u32 (c.len k % 4294967296) ++ c.serialize k

  -- `BorshDeserialize for PublicKey`
  check_len : ℕ → Pk × Bytes → Result (Pk × Bytes) BoxedError
  check_len len (pk, rest) =
      if not (c.len pk == len)
      then err (text "Key length does not match length read from buffer")
      else ok (pk, rest)

  unfoldable pub deserialize_reader : Bytes → Result (Pk × Bytes) BoxedError
  unfolding check_len
  deserialize_reader buf =
      and_then (c.read_u32 buf) (λ r. and_then (c.deserialize r.1) (check_len r.0))

  -- Reading back what `serialize` wrote gives the key and leaves the rest of the buffer, for keys
  -- shorter than 2^32 bytes.
  pub deserialize_reader-serialize :
      (k : Pk) (rest : Bytes)
      → c.len k < 4294967296
      → deserialize_reader (serialize k ++ rest) ≡ ok (k, rest)
  unfolding deserialize_reader serialize
  deserialize_reader-serialize k rest small =
      rw (append_assoc (c.write_u32 (c.len k % 4294967296)) (c.serialize k) rest) (
        ground (
          arith,
          c.read-write_u32 (c.len k % 4294967296) (c.serialize k ++ rest),
          c.deserialize-serialize k rest,
        ))

  -- A buffer whose length prefix is not the length of the key behind it is refused.
  pub deserialize_reader_wrong_len :
      (k : Pk) (n : ℕ) (rest : Bytes)
      → n < 4294967296
      → c.len k ≢ n
      → Result.is_err (deserialize_reader (c.write_u32 n ++ (c.serialize k ++ rest))) ≡ true
  unfolding deserialize_reader
  deserialize_reader_wrong_len k n rest small ne =
      ground (arith, c.read-write_u32 n (c.serialize k ++ rest), c.deserialize-serialize k rest)

  -- The key type's byte in front of the data makes both constructors of a key agree.
  pub try_from_bytes-parts :
      (key_type : KeyType) (bytes : Bytes)
      → try_from_bytes (key_type_byte key_type ∷ bytes) ≡ some (try_from_parts key_type bytes)
  unfolding try_from_bytes try_from_parts
  try_from_bytes-parts key_type bytes = ground arith
