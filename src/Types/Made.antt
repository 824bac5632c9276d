-- ===== src/Types/Made.antt =====
-- Making keys and looking into them (workspaces/src/types/mod.rs). The crate near_crypto is a parameter,
-- with the types of the keys that it documents.
use near_workspaces_rs.Prelude.{ℕ, ◌+◌, String, ◌≡◌, refl, ap, ◌∙◌}
use near_workspaces_rs.Primitives.{PublicKey, SecretKey, Bytes}
use near_workspaces_rs.Types.Keys.{KeyType, ed25519, secp256k1, data_len}
use near_workspaces_rs.Types.Texts.{NearKeyType, into_near_keytype, from_near_keytype}

-- Entropy comes from the system's state.
pub record KeyLib (W : Type 0) : Type 0 where
  pub empty : NearKeyType → PublicKey
  pub len : PublicKey → ℕ
  pub key_type : PublicKey → NearKeyType
  pub key_data : PublicKey → Bytes
  pub secret_key_type : SecretKey → NearKeyType
  pub public_key : SecretKey → PublicKey
  pub from_seed : NearKeyType → String → SecretKey
  pub from_random : NearKeyType → W → SecretKey × W
  pub key_type-empty : (t : NearKeyType) → key_type (empty t) ≡ t
  pub key_type-public_key : (sk : SecretKey) → key_type (public_key sk) ≡ secret_key_type sk
  pub secret_key_type-from_seed :
      (t : NearKeyType) (seed : String) → secret_key_type (from_seed t seed) ≡ t
  pub secret_key_type-from_random :
      (t : NearKeyType) (w : W) → secret_key_type (from_random t w).0 ≡ t
  pub len-key_type : (pk : PublicKey) → len pk ≡ data_len (from_near_keytype (key_type pk)) + 1

near_keytype_and_back : (t : KeyType) → from_near_keytype (into_near_keytype t) ≡ t
unfolding into_near_keytype from_near_keytype
near_keytype_and_back ed25519 = refl
near_keytype_and_back secp256k1 = refl

module _ {W : Type 0} (keys : KeyLib W) where
  -- `PublicKey`
  unfoldable empty : KeyType → PublicKey
  empty t = keys.empty (into_near_keytype t)

  unfoldable len : PublicKey → ℕ
  len self = keys.len self

  unfoldable public_key_type : PublicKey → KeyType
  public_key_type self = from_near_keytype (keys.key_type self)

  unfoldable key_data : PublicKey → Bytes
  key_data self = keys.key_data self

  -- `SecretKey`
  unfoldable secret_key_type : SecretKey → KeyType
  secret_key_type self = from_near_keytype (keys.secret_key_type self)

  unfoldable public_key : SecretKey → PublicKey
  public_key self = keys.public_key self

  unfoldable from_seed : KeyType → String → SecretKey
  from_seed t seed = keys.from_seed (into_near_keytype t) seed

  unfoldable from_random : KeyType → W → SecretKey × W
  from_random t w = keys.from_random (into_near_keytype t) w

  -- A key is of the type that it is made for, and so is its public key, whose length is that of the
  -- type's data and one byte more.
  made :
      (t : KeyType) (sk : SecretKey)
      → keys.secret_key_type sk ≡ into_near_keytype t
      → (secret_key_type sk ≡ t)
        × (public_key_type (public_key sk) ≡ t)
        × (len (public_key sk) ≡ data_len t + 1)
  unfolding secret_key_type public_key_type public_key len
  made t sk e =
      let own : from_near_keytype (keys.secret_key_type sk) ≡ t =
        ap from_near_keytype e ∙ near_keytype_and_back t in
      let same : from_near_keytype (keys.key_type (keys.public_key sk)) ≡ t =
        ap from_near_keytype (keys.key_type-public_key sk) ∙ own in
      (
        own,
        same,
        keys.len-key_type (keys.public_key sk) ∙ ap (λ (k : KeyType). data_len k + 1) same,
      )

  from_seed-made :
      (t : KeyType) (seed : String)
      → (secret_key_type (from_seed t seed) ≡ t)
        × (public_key_type (public_key (from_seed t seed)) ≡ t)
        × (len (public_key (from_seed t seed)) ≡ data_len t + 1)
  unfolding from_seed
  from_seed-made t seed = made t _ (keys.secret_key_type-from_seed (into_near_keytype t) seed)

  from_random-made :
      (t : KeyType) (w : W)
      → (secret_key_type (from_random t w).0 ≡ t)
        × (public_key_type (public_key (from_random t w).0) ≡ t)
        × (len (public_key (from_random t w).0) ≡ data_len t + 1)
  unfolding from_random
  from_random-made t w = made t _ (keys.secret_key_type-from_random (into_near_keytype t) w)
