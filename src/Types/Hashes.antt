-- ===== src/Types/Hashes.antt =====
-- The length check on hashes (workspaces/src/types/mod.rs).
use near_workspaces_rs.Prelude.{◌≡◌, ◌↔◌, String, length, arith}
use near_workspaces_rs.Result.{Result, ok}
use near_workspaces_rs.Primitives.{Bytes}
use near_workspaces_rs.Error.{BoxedError}
use near_workspaces_rs.Types.{CryptoHash, hash_from_str}

-- A hash is read from a text exactly if the text decodes to 32 bytes, and then it is those bytes.
pub hash_from_str_iff :
    (from_base58 : String → Result Bytes BoxedError) (s : String) (h : CryptoHash)
    → (hash_from_str from_base58 s ≡ ok h) ↔ ((from_base58 s ≡ ok h) × (length h ≡ 32))
unfolding hash_from_str
hash_from_str_iff from_base58 s h = ground arith
