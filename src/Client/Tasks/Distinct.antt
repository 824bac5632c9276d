-- ===== src/Client/Tasks/Distinct.antt =====
-- The nonces that interleaved tasks sign with (workspaces/src/rpc/client.rs).
use near_workspaces_rs.Prelude.{
  ℕ, ◌<◌, ◌≤◌, ◌≡◌, ◌≢◌, refl, ◌⊎◌, inl, inr, true, false, Option, none, some, arith, ◌==◌, pair_eq,
  string_eq, nat_eq, Bool-cases,
}
use near_workspaces_rs.Client.Nonces.{
  CacheKey, cached, cached-reserve, cached-settle, reserve, settle_value, key_iff, key_self,
}
use near_workspaces_rs.Client.Nonces.Race.{Trace}
use near_workspaces_rs.Client.Tasks.{
  Phase, Move, hit, miss, told, not_told, store, block, no_block, accepted, refused, drop, again,
  misses, nonce_of, System, Step, pick, Reach, start, later,
}
use near_workspaces_rs.Client.Tasks.Traces.{IsExclusive, Reach-IsExclusive}

-- The cache holds a nonce that is no smaller than this one.
abbrev Covers : Option ℕ → ℕ → Type 0
Covers none n = ⊥
Covers (some m) n = n ≤ m

-- The cache holds only smaller nonces.
abbrev IsBelow : Option ℕ → ℕ → Type 0
IsBelow none n = Unit {0}
IsBelow (some m) n = m < n

-- What the tasks hold is covered by the cache, and no two tasks hold one nonce of a key.
record IsDistinct (keys : ℕ → CacheKey) (s : System) : Type 0 where
  covered : (i n : ℕ) → nonce_of (s.phase i) ≡ some n → Covers (cached (keys i) s.trace.nonces) n
  unique :
      (i j n : ℕ)
      → i ≢ j
      → keys j ≡ keys i
      → nonce_of (s.phase i) ≡ some n
      → nonce_of (s.phase j) ≢ some n

module _ {k : CacheKey} where
  -- If nothing is dropped, what covered a nonce covers it after a move.
  Move-Covers :
      {t u : Trace} {p q : Phase} (j : CacheKey) (n : ℕ)
      → Move false k t p u q
      → Covers (cached j t.nonces) n
      → Covers (cached j u.nonces) n
  unfolding reserve
  Move-Covers j n (hit t v e small) h = ground (arith, cached-reserve k j v t.nonces, key_iff k j)
  Move-Covers j n (store t key hash small) h =
      ground (
        arith,
        cached-settle k j key.nonce t.nonces,
        settle_value k key.nonce t.nonces,
        key_iff k j,
      )
  Move-Covers j n (drop t v r b) h = absurd (cc)
  Move-Covers j n (miss t e) h = h
  Move-Covers j n (told t key hash) h = h
  Move-Covers j n (not_told t e) h = h
  Move-Covers j n (block t v hash) h = h
  Move-Covers j n (no_block t v e) h = h
  Move-Covers j n (accepted t hash v r a) h = h
  Move-Covers j n (refused t hash v r a b) h = h
  Move-Covers j n (again t e) h = h

  -- The nonce that a task holds after a move it held before, or it is new and the cache's.
  Move-nonce_of :
      {t u : Trace} {p q : Phase} (n : ℕ)
      → Move false k t p u q
      → (misses p ≡ true → cached k t.nonces ≡ none)
      → nonce_of q ≡ some n
      → (nonce_of p ≡ some n) ⊎ (IsBelow (cached k t.nonces) n × (cached k u.nonces ≡ some n))
  unfolding reserve
  Move-nonce_of n (hit t v e small) h m =
      inr (ground (arith, cached-reserve k k v t.nonces, key_self k))
  Move-nonce_of n (store t key hash small) h m =
      inr (ground (arith, cached-settle k k key.nonce t.nonces, key_self k, h refl))
  Move-nonce_of n (drop t v r b) h m = absurd (cc)
  Move-nonce_of n (miss t e) h m = absurd (cc)
  Move-nonce_of n (told t key hash) h m = absurd (cc)
  Move-nonce_of n (not_told t e) h m = absurd (cc)
  Move-nonce_of n (block t v hash) h m = inl m
  Move-nonce_of n (no_block t v e) h m = absurd (cc)
  Move-nonce_of n (accepted t hash v r a) h m = absurd (cc)
  Move-nonce_of n (refused t hash v r a b) h m = absurd (cc)
  Move-nonce_of n (again t e) h m = absurd (cc)

module _ (keys : ℕ → CacheKey) where
  not_both : (o : Option ℕ) (n : ℕ) → Covers o n → IsBelow o n → ⊥
  not_both none n c b = c
  not_both (some m) n c b = absurd (omega arith)

  held : (o : Option ℕ) (n : ℕ) → o ≡ some n → Covers o n
  held none n e = absurd (cc)
  held (some m) n e = ground arith

  module _ {s : System} {t : Trace} {p : Phase} (i : ℕ)
      (move : Move false (keys i) s.trace (s.phase i) t p) (v : IsExclusive keys s)
      (d : IsDistinct keys s) where
    mover_covered : (n : ℕ) → nonce_of p ≡ some n → Covers (cached (keys i) t.nonces) n
    mover_covered n m = elim (Move-nonce_of n move (v.empty i) m) [
      | inl old ↦ Move-Covers (keys i) n move (d.covered i n old)
      | inr (below, top) ↦ held _ n top
    ]

    mover_unique :
        (j n : ℕ) → i ≢ j → keys j ≡ keys i → nonce_of p ≡ some n → nonce_of (s.phase j) ≢ some n
    mover_unique j n ne e m other = elim (Move-nonce_of n move (v.empty i) m) [
      | inl old ↦ d.unique i j n ne e old other
      | inr (below, top) ↦
          not_both (cached (keys i) s.trace.nonces) n (rw (← e) (d.covered j n other)) below
    ]

  Step-IsDistinct :
      {s u : System}
      → Step false false keys s u
      → IsExclusive keys s
      → IsDistinct keys s
      → IsDistinct keys u
  Step-IsDistinct {s} (pick i {t} {p} move alone) v d = record {
    covered = λ j n m. elim (Bool-cases (i == j)) [
      | inl same ↦ ground (arith, mover_covered i move v d n)
      | inr other ↦
          let m' : nonce_of (s.phase j) ≡ some n = ground arith in
          Move-Covers (keys j) n move (d.covered j n m')
    ];
    unique = λ a b n ne e m m'.
        ground
          (arith, d.unique a b n ne e, mover_unique i move v d b n, mover_unique i move v d a n);
  }

  Reach-IsDistinct : {s : System} → Reach false false keys s → IsDistinct keys s
  Reach-IsDistinct start = record {
    covered = λ i n m. absurd (cc);
    unique = λ i j n ne e m. absurd (cc);
  }
  Reach-IsDistinct (later r st) = Step-IsDistinct st (Reach-IsExclusive keys r) (Reach-IsDistinct r)

-- As long as no two tasks miss the same key at once, the node refuses no nonce and no nonce reaches
-- 2^64, two tasks that are making or sending transactions with the same key at the same time have
-- different nonces for them.
pub nonces_differ :
    (keys : ℕ → CacheKey) (s : System) (i j m n : ℕ)
    → Reach false false keys s
    → i ≢ j
    → keys j ≡ keys i
    → nonce_of (s.phase i) ≡ some m
    → nonce_of (s.phase j) ≡ some n
    → m ≢ n
nonces_differ keys s i j m n r ne e h h' same =
    (Reach-IsDistinct keys r).unique i j m ne e h (rw same h')
