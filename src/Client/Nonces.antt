-- ===== src/Client/Nonces.antt =====
-- The cache `access_key_nonces` of workspaces/src/rpc/client.rs, and the accesses to it, each of
-- which is atomic: under the read lock, or under the write lock. Nonces are 64-bit words.
pub mod Race
use near_workspaces_rs.Prelude.{
  ℕ, ◌+◌, ◌%◌, ◌<◌, ◌≤◌, ◌≡◌, ◌↔◌, true, refl, String, Option, none, some, List, arith, leb, max_of,
  unwrap_or, ◌==◌, pair_eq, string_eq, if◌then◌else◌,
}
use near_workspaces_rs.Primitives.{AccountId, PublicKey, u64_mod}
use near_workspaces_rs.Map
use near_workspaces_rs.Map.{get-insert, get-remove}

abbrev pub CacheKey : Type 0
CacheKey = AccountId × PublicKey

abbrev pub NonceMap : Type 0
NonceMap = List (CacheKey × ℕ)

abbrev pub next_nonce : ℕ → ℕ
next_nonce n = (n + 1) % u64_mod

abbrev pub cached : CacheKey → NonceMap → Option ℕ
cached k nonces = Map.get k nonces

pub key_iff : (j k : CacheKey) → ((j == k) ≡ true) ↔ (j ≡ k)
key_iff j k = pair_eq.eq_iff j k

pub key_self : (k : CacheKey) → (k == k) ≡ true
key_self k = (key_iff k k).1 refl

-- `nonce.fetch_add(1)` under the read lock, and the `nonce + 1` that is returned for it
unfoldable pub reserve : CacheKey → ℕ → NonceMap → ℕ × NonceMap
reserve k nonce nonces = (next_nonce nonce, Map.insert k (next_nonce nonce) nonces)

-- `.entry(k).or_insert_with(next).fetch_max(next).max(next)` under the write lock
unfoldable pub settle : CacheKey → ℕ → NonceMap → ℕ × NonceMap
settle k access_key_nonce nonces =
    let next = next_nonce access_key_nonce in
    let held = unwrap_or (Map.get k nonces) next in
    (max_of held next, Map.insert k (max_of held next) nonces)

-- `nonces.remove(cache_key)` after an invalid nonce
unfoldable pub forget : CacheKey → NonceMap → NonceMap
forget k nonces = Map.remove k nonces

-- Both ways to obtain a nonce leave the nonce that they return in the cache, under the key and
-- under no other.
pub cached-settle :
    (k j : CacheKey) (n : ℕ) (nonces : NonceMap)
    → cached j (settle k n nonces).1
      ≡ (if k == j then some (settle k n nonces).0 else cached j nonces)
unfolding settle
cached-settle k j n nonces = get-insert k j _ nonces

pub cached-reserve :
    (k j : CacheKey) (n : ℕ) (nonces : NonceMap)
    → cached j (reserve k n nonces).1
      ≡ (if k == j then some (reserve k n nonces).0 else cached j nonces)
unfolding reserve
cached-reserve k j n nonces = get-insert k j _ nonces

pub cached-forget :
    (k j : CacheKey) (nonces : NonceMap)
    → cached j (forget k nonces) ≡ (if k == j then none else cached j nonces)
unfolding forget
cached-forget k j nonces = get-remove k j nonces

-- What `settle` returns: the access key's nonce plus one where nothing is cached, and otherwise the
-- larger of that and the cached nonce.
pub settle_value :
    (k : CacheKey) (n : ℕ) (nonces : NonceMap)
    → (settle k n nonces).0
      ≡ (elim (cached k nonces) [ none ↦ next_nonce n | some v ↦ max_of v (next_nonce n) ])
unfolding settle
settle_value k n nonces = ground arith
