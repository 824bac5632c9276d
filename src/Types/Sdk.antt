-- ===== src/Types/Sdk.antt =====
-- `TryFrom<near_sdk::PublicKey> for PublicKey` (workspaces/src/types/sdk.rs). The keys of near_sdk are
-- a parameter.
use mathlib.Core.Option
use near_workspaces_rs.Prelude.{ℕ, ◌<◌, ◌≡◌, refl, some, ◌∷◌, nat_eq, arith}
use near_workspaces_rs.Result
use near_workspaces_rs.Result.{Result, ok, err, MayPanic}
use near_workspaces_rs.Primitives.{Bytes}
use near_workspaces_rs.Error.{Error, text, boxed_error, custom, full, kind, data_conversion}
use near_workspaces_rs.Error.Shown.{source}
use near_workspaces_rs.Types.Keys.{
  KeyType, ed25519, secp256k1, key_type_byte, key_type_try_from, KeyCodec, try_from_bytes,
}

unconverted : Error → Error
unfolding full
unconverted e =
    full data_conversion "Could not convert sdk::PublicKey into workspaces::PublicKey"
      (boxed_error e.repr)

unconverted_lem :
    (e : Error)
    → (kind (unconverted e) ≡ data_conversion)
      × (source (unconverted e) ≡ some (boxed_error e.repr))
unfolding unconverted full kind source
unconverted_lem e = (refl, refl)

key_type_and_back : (t : KeyType) → key_type_try_from (key_type_byte t) ≡ ok t
unfolding key_type_try_from key_type_byte
key_type_and_back ed25519 = refl
key_type_and_back secp256k1 = refl

module _ {Pk SdkKey : Type 0} (c : KeyCodec Pk) (as_bytes : SdkKey → Bytes) where
  unfoldable try_from : SdkKey → MayPanic (Result Pk Error)
  try_from pk = Option.map (Result.map_err unconverted) (try_from_bytes c (as_bytes pk))

  -- A key of near_sdk whose bytes begin with the byte of a key type converts to what near_crypto reads
  -- from these bytes.
  try_from-reads :
      (pk : SdkKey) (t : KeyType) (bs : Bytes) (k : Pk)
      → as_bytes pk ≡ key_type_byte t ∷ bs
      → c.try_from_slice (key_type_byte t ∷ bs) ≡ ok k
      → try_from pk ≡ some (ok k)
  unfolding try_from try_from_bytes
  try_from-reads pk t bs k e reads = rw e (rw (key_type_and_back t) (rw reads refl))

  -- If they begin with another byte, the error's source is the error on that byte.
  try_from-unknown :
      (pk : SdkKey) (b : ℕ) (bs : Bytes)
      → as_bytes pk ≡ b ∷ bs
      → 1 < b
      → try_from pk
        ≡ some (err (unconverted (custom data_conversion (text "Unknown key type provided"))))
  unfolding try_from try_from_bytes key_type_try_from
  try_from-unknown pk b bs e other = rw e (ground arith)
