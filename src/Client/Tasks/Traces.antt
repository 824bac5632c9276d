-- ===== src/Client/Tasks/Traces.antt =====
-- Interleaved tasks against the steps on the cache of Client/Nonces/Race.antt
-- (workspaces/src/rpc/client.rs).
use near_workspaces_rs.Prelude.{
  ℕ, ◌≡◌, ◌≢◌, refl, ◌⊎◌, inl, inr, Bool, true, false, none, arith, ◌==◌, pair_eq, string_eq,
  nat_eq, Bool-cases, Option-cases,
}
use near_workspaces_rs.Client.Nonces.{
  CacheKey, cached, cached-reserve, cached-settle, cached-forget, key_iff,
}
use near_workspaces_rs.Client.Nonces.Race
use near_workspaces_rs.Client.Nonces.Race.{Trace}
use near_workspaces_rs.Client.Tasks.{
  Phase, Move, hit, miss, told, not_told, store, block, no_block, accepted, refused, drop, again,
  misses, System, Step, pick, Reach, start, later,
}

-- A key that a task has missed is not in the cache before this task puts it there.
pub record IsExclusive (keys : ℕ → CacheKey) (s : System) : Type 0 where
  pub alone :
      (i j : ℕ) → i ≢ j → keys j ≡ keys i → misses (s.phase i) ≡ true → misses (s.phase j) ≡ false
  pub empty : (i : ℕ) → misses (s.phase i) ≡ true → cached (keys i) s.trace.nonces ≡ none

module _ {refuses : Bool} {k : CacheKey} where
  -- The task that moves misses only a key that is not in the cache.
  Move-empty :
      {t u : Trace} {p q : Phase}
      → Move refuses k t p u q
      → (misses p ≡ true → cached k t.nonces ≡ none)
      → misses q ≡ true
      → cached k u.nonces ≡ none
  Move-empty (hit t n e small) h m = absurd (cc)
  Move-empty (miss t e) h m = e
  Move-empty (told t key hash) h m = h refl
  Move-empty (not_told t e) h m = absurd (cc)
  Move-empty (store t key hash small) h m = absurd (cc)
  Move-empty (block t n hash) h m = absurd (cc)
  Move-empty (no_block t n e) h m = absurd (cc)
  Move-empty (accepted t hash n r a) h m = absurd (cc)
  Move-empty (refused t hash n r a b) h m = absurd (cc)
  Move-empty (drop t n r b) h m = absurd (cc)
  Move-empty (again t e) h m = absurd (cc)

  -- A key that no task puts into the cache stays out of it.
  Move-empty_other :
      {t u : Trace} {p q : Phase} (j : CacheKey)
      → Move refuses k t p u q
      → (misses p ≡ true → j ≢ k)
      → cached j t.nonces ≡ none
      → cached j u.nonces ≡ none
  Move-empty_other j (hit t n e small) h c =
      ground (arith, cached-reserve k j n t.nonces, key_iff k j)
  Move-empty_other j (store t key hash small) h c =
      ground (arith, cached-settle k j key.nonce t.nonces, key_iff k j, h refl)
  Move-empty_other j (drop t n r b) h c = ground (arith, cached-forget k j t.nonces)
  Move-empty_other j (miss t e) h c = c
  Move-empty_other j (told t key hash) h c = c
  Move-empty_other j (not_told t e) h c = c
  Move-empty_other j (block t n hash) h c = c
  Move-empty_other j (no_block t n e) h c = c
  Move-empty_other j (accepted t hash n r a) h c = c
  Move-empty_other j (refused t hash n r a b) h c = c
  Move-empty_other j (again t e) h c = c

  -- A move is at most one step on the cache; without races, if the missed keys are not in the cache.
  Move-Step :
      {t u : Trace} {p q : Phase} (races : Bool)
      → Move refuses k t p u q
      → (races ≡ false → misses p ≡ true → cached k t.nonces ≡ none)
      → Race.Step races t u ⊎ (u ≡ t)
  Move-Step races (hit t n e small) h = inl (Race.hit t k n e small)
  Move-Step true (store t key hash small) h = elim (Option-cases (cached k t.nonces)) [
    | inl missing ↦ inl (Race.first t k key.nonce missing small)
    | inr (n, found) ↦ inl (Race.late t k key.nonce n refl found small)
  ]
  Move-Step false (store t key hash small) h = inl (Race.first t k key.nonce (h refl refl) small)
  Move-Step races (drop t n r b) h = inl (Race.drop t k)
  Move-Step races (miss t e) h = inr refl
  Move-Step races (told t key hash) h = inr refl
  Move-Step races (not_told t e) h = inr refl
  Move-Step races (block t n hash) h = inr refl
  Move-Step races (no_block t n e) h = inr refl
  Move-Step races (accepted t hash n r a) h = inr refl
  Move-Step races (refused t hash n r a b) h = inr refl
  Move-Step races (again t e) h = inr refl

reached :
    {races : Bool} {t u : Trace}
    → Race.Reach races t
    → Race.Step races t u ⊎ (u ≡ t)
    → Race.Reach races u
reached r (inl step) = Race.next r step
reached r (inr e) = rw e r

module _ {refuses : Bool} (keys : ℕ → CacheKey) where
  Step-IsExclusive :
      {s u : System} → Step false refuses keys s u → IsExclusive keys s → IsExclusive keys u
  Step-IsExclusive {s} (pick i {t} {p} move alone) v = record {
    alone = λ a b ne e m.
        let other : misses p ≡ true → i ≢ b → keys b ≡ keys i → misses (s.phase b) ≡ false =
          λ q. alone refl q b in
        let same : misses p ≡ true → i ≢ a → keys a ≡ keys i → misses (s.phase a) ≡ false =
          λ q. alone refl q a in
        ground (arith, v.alone a b ne e, other, same);
    empty = λ j m. elim (Bool-cases (i == j)) [
      | inl same ↦ ground (arith, Move-empty move (v.empty i))
      | inr other ↦
          let m' : misses (s.phase j) ≡ true = ground arith in
          let ne : i ≢ j = ground arith in
          Move-empty_other (keys j) move (λ q e. (cc (v.alone i j ne e q))) (v.empty j m')
    ];
  }

  pub Reach-IsExclusive : {s : System} → Reach false refuses keys s → IsExclusive keys s
  Reach-IsExclusive start = record { alone = λ i j ne e m. refl; empty = λ i m. absurd (cc) }
  Reach-IsExclusive (later r st) = Step-IsExclusive st (Reach-IsExclusive r)

  missing :
      (races : Bool) (s : System)
      → Reach races refuses keys s
      → races ≡ false
      → (i : ℕ) → misses (s.phase i) ≡ true
      → cached (keys i) s.trace.nonces ≡ none
  missing true s r e = absurd (cc)
  missing false s r e = (Reach-IsExclusive r).empty

  -- Whatever the tasks do in whatever order, the cache and the nonces that were handed out are those
  -- of steps on the cache, and without races if no two tasks ever miss the same key at once.
  pub Reach-Trace :
      {races : Bool} {s : System} → Reach races refuses keys s → Race.Reach races s.trace
  Reach-Trace start = Race.start
  Reach-Trace {races} (later {s} r (pick i move alone)) =
      reached (Reach-Trace r) (Move-Step races move (λ e m. missing races s r e i m))
