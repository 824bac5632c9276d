-- ===== src/Client/Nonces/Race.antt =====
-- Interleaved tasks on the cache of nonces (`fetch_tx_nonce` in workspaces/src/rpc/client.rs). A
-- step is one atomic access; between the accesses of one task any other task may take steps. No
-- nonce reaches 2^64.
use near_workspaces_rs.Prelude.{
  ℕ, ◌+◌, ◌<◌, ◌≤◌, ◌≡◌, Bool, true, false, Option, none, some, List, [], ◌∷◌, arith, ◌==◌, pair_eq,
  string_eq, if◌then◌else◌,
}
use near_workspaces_rs.Primitives.{u64_mod}
use near_workspaces_rs.Map
use near_workspaces_rs.Client.Nonces.{
  CacheKey, NonceMap, cached, reserve, settle, cached-settle, cached-reserve, settle_value, key_iff,
  forget, cached-forget,
}

-- The cache, and the nonces that were handed out for each key since it was last dropped, newest
-- first.
pub record Trace : Type 0 where
  pub nonces : NonceMap
  pub issued : List (CacheKey × ℕ)

abbrev pub hand_out : Trace → CacheKey → ℕ × NonceMap → Trace
hand_out t k (n, nonces) = record { nonces = nonces; issued = (k, n) ∷ t.issued }

-- `first` and `late` end a task that found no nonce and asked the node, which said `a`. `late` is
-- one whose key another task has put into the cache meanwhile; it needs `races`. `drop` is the end of
-- a task whose nonce the node refused.
pub data Step (races : Bool) : Trace → Trace → Type 0 where
  hit :
      (t : Trace) (k : CacheKey) (n : ℕ)
      → cached k t.nonces ≡ some n
      → n + 1 < u64_mod
      → Step races t (hand_out t k (reserve k n t.nonces))
  first :
      (t : Trace) (k : CacheKey) (a : ℕ)
      → cached k t.nonces ≡ none
      → a + 1 < u64_mod
      → Step races t (hand_out t k (settle k a t.nonces))
  late :
      (t : Trace) (k : CacheKey) (a n : ℕ)
      → races ≡ true
      → cached k t.nonces ≡ some n
      → a + 1 < u64_mod
      → Step races t (hand_out t k (settle k a t.nonces))
  drop :
      (t : Trace) (k : CacheKey)
      → Step races t (record { nonces = forget k t.nonces; issued = Map.remove k t.issued })

pub data Reach (races : Bool) : Trace → Type 0 where
  start : Reach races (record { nonces = []; issued = [] })
  next : {t u : Trace} → Reach races t → Step races t u → Reach races u

pub issued_for : CacheKey → List (CacheKey × ℕ) → List ℕ
issued_for k [] = []
issued_for k ((j, n) ∷ rest) = let older = issued_for k rest in if j == k then n ∷ older else older

-- Every nonce is one more than the one handed out before it.
abbrev pub Consecutive : ℕ → List ℕ → Type 0
Consecutive n [] = Unit {0}
Consecutive n (x ∷ xs) = (x + 1 ≡ n) × Consecutive x xs

-- No nonce is larger than one handed out after it.
abbrev pub Rising : ℕ → List ℕ → Type 0
Rising n [] = Unit {0}
Rising n (x ∷ xs) = (x ≤ n) × Rising x xs

-- The cache holds the newest nonce, and the older ones are in the order `R`.
abbrev pub TopOf : (ℕ → List ℕ → Type 0) → Option ℕ → List ℕ → Type 0
TopOf R none [] = Unit {0}
TopOf R none (x ∷ xs) = ⊥
TopOf R (some n) [] = ⊥
TopOf R (some n) (x ∷ xs) = (x ≡ n) × R x xs

abbrev pub IsOrdered : (ℕ → List ℕ → Type 0) → CacheKey → Trace → Type 0
IsOrdered R k t = TopOf R (cached k t.nonces) (issued_for k t.issued)

issued_for-remove :
    (k j : CacheKey) (issued : List (CacheKey × ℕ))
    → issued_for j (Map.remove k issued) ≡ (if k == j then [] else issued_for j issued)
unfolding issued_for Map.remove
issued_for-remove k j [] = ground arith
issued_for-remove k j ((i, n) ∷ issued) =
    ground (arith, issued_for-remove k j issued, key_iff i k, key_iff i j, key_iff k j)

dropped :
    (R : ℕ → List ℕ → Type 0) (k : CacheKey) (t : Trace) (j : CacheKey)
    → IsOrdered R k t
    → IsOrdered R k (record { nonces = forget j t.nonces; issued = Map.remove j t.issued })
dropped R k t j h = rw (cached-forget j k t.nonces, issued_for-remove j k t.issued) (from (j == k))
  where
    from :
        (b : Bool)
        → TopOf R (if b then none else cached k t.nonces) (if b then [] else issued_for k t.issued)
    from true = tt
    from false = h

Step-Consecutive :
    {t u : Trace} (k : CacheKey)
    → Step false t u
    → IsOrdered Consecutive k t
    → IsOrdered Consecutive k u
unfolding issued_for reserve
Step-Consecutive k (hit t j n e small) h =
    ground (arith, cached-reserve j k n t.nonces, key_iff j k)
Step-Consecutive k (first t j a e small) h =
    ground (arith, cached-settle j k a t.nonces, settle_value j a t.nonces, key_iff j k)
Step-Consecutive k (late t j a n race e small) h = cc
Step-Consecutive k (drop t j) h = dropped _ k t j h

Step-Rising :
    {races : Bool} {t u : Trace} (k : CacheKey)
    → Step races t u
    → IsOrdered Rising k t
    → IsOrdered Rising k u
unfolding issued_for reserve
Step-Rising k (hit t j n e small) h = ground (arith, cached-reserve j k n t.nonces, key_iff j k)
Step-Rising k (first t j a e small) h =
    ground (arith, cached-settle j k a t.nonces, settle_value j a t.nonces, key_iff j k)
Step-Rising k (late t j a n race e small) h =
    ground (arith, cached-settle j k a t.nonces, settle_value j a t.nonces, key_iff j k)
Step-Rising k (drop t j) h = dropped _ k t j h

-- As long as no two tasks miss the same key at once and no nonce reaches 2^64, the nonces handed out
-- for a key since the cache last dropped it are consecutive numbers, and the cache holds the newest
-- of them.
pub Reach-Consecutive : {t : Trace} (k : CacheKey) → Reach false t → IsOrdered Consecutive k t
unfolding issued_for Map.get
Reach-Consecutive k start = tt
Reach-Consecutive k (next r s) = Step-Consecutive k s (Reach-Consecutive k r)

-- Whatever tasks miss the same key at once, as long as no nonce reaches 2^64, the nonces handed out
-- for a key since the cache last dropped it never fall, and the cache holds the newest of them.
pub Reach-Rising : {races : Bool} {t : Trace} (k : CacheKey) → Reach races t → IsOrdered Rising k t
unfolding issued_for Map.get
Reach-Rising k start = tt
Reach-Rising k (next r s) = Step-Rising k s (Reach-Rising k r)

-- Two tasks that miss the same key, and to which the node says the same nonce, get the same nonce
-- to sign with, whatever other keys the cache holds.
pub settle_race :
    (k : CacheKey) (a : ℕ) (nonces : NonceMap)
    → cached k nonces ≡ none
    → (settle k a (settle k a nonces).1).0 ≡ (settle k a nonces).0
settle_race k a nonces e = ground (
  arith,
  settle_value k a nonces,
  settle_value k a (settle k a nonces).1,
  cached-settle k k a nonces,
  key_iff k k,
)
