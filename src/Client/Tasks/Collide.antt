-- ===== src/Client/Tasks/Collide.antt =====
-- Two tasks that come to sign with the same nonce (`fetch_tx_nonce` in workspaces/src/rpc/client.rs).
use near_workspaces_rs.Prelude.{
  ℕ, ◌+◌, ◌<◌, ◌≡◌, ◌≢◌, refl, ap, ◌∙◌, Bool, true, none, arith, nat_eq, pair_eq, string_eq,
}
use near_workspaces_rs.Primitives.{Bytes, AccessKeyView, u64_mod}
use near_workspaces_rs.Client.Nonces.{CacheKey, cached, settle, settle_value}
use near_workspaces_rs.Client.Nonces.Race.{Trace, hand_out, settle_race}
use near_workspaces_rs.Client.Tasks.{
  Phase, looks, asks_key, stores, sends, Move, miss, told, store, update, System, pick, Leads,
  stays, goes,
}

update_self : (f : ℕ → Phase) (i : ℕ) (p : Phase) → update f i p i ≡ p
update_self f i p = ground arith

update_other : (f : ℕ → Phase) (i j : ℕ) (p : Phase) → i ≢ j → update f i p j ≡ f j
update_other f i j p ne = ground arith

store_as :
    {refuses : Bool} {k : CacheKey} (t : Trace) (key : AccessKeyView) (hash : Bytes) (n : ℕ)
    → key.nonce + 1 < u64_mod
    → (settle k key.nonce t.nonces).0 ≡ n
    → Move refuses k t (stores key hash) (hand_out t k (settle k key.nonce t.nonces)) (sends hash n)
store_as t key hash n small e = rw (← e) (store t key hash small)

module _ {refuses : Bool} (keys : ℕ → CacheKey) where
  -- A move of the task `i`, whose phase is known
  moved :
      (s v : System) (i : ℕ) (p q : Phase) (t : Trace)
      → Leads true refuses keys s v
      → v.phase i ≡ p
      → Move refuses (keys i) v.trace p t q
      → Leads true refuses keys s (record { trace = t; phase = update v.phase i q })
  moved s v i p q t r e move = goes r (pick i (rw e move) (λ f. absurd (cc)))

  -- Two tasks, each of which makes the same move
  both :
      (s v : System) (i j : ℕ) (p q : Phase) (t u : Trace)
      → Leads true refuses keys s v
      → i ≢ j
      → v.phase i ≡ p
      → v.phase j ≡ p
      → Move refuses (keys i) v.trace p t q
      → Move refuses (keys j) t p u q
      → (x : System) × Leads true refuses keys s x
        × (x.trace ≡ u)
        × (x.phase i ≡ q)
        × (x.phase j ≡ q)
  both s v i j p q t u r ne at_i at_j move_i move_j = (
    record { trace = u; phase = update (update v.phase i q) j q },
    moved s _ j p q u (moved s v i p q t r at_i move_i) (update_other v.phase i j q ne ∙ at_j)
        move_j,
    refl,
    ground arith,
    update_self (update v.phase i q) j q,
  )

  -- From every system in which two tasks with the same key look into the cache, which holds no nonce
  -- for the key, further moves can lead to one in which both send a transaction with the same nonce:
  -- both miss the key before the node tells them the same nonce of the access key, whose successor is
  -- below 2^64.
  pub nonces_collide :
      (s : System) (i j : ℕ) (key : AccessKeyView) (hash : Bytes)
      → i ≢ j
      → keys j ≡ keys i
      → s.phase i ≡ looks
      → s.phase j ≡ looks
      → cached (keys i) s.trace.nonces ≡ none
      → key.nonce + 1 < u64_mod
      → (u : System) × Leads true refuses keys s u
        × (u.phase i ≡ sends hash (key.nonce + 1))
        × (u.phase j ≡ sends hash (key.nonce + 1))
  nonces_collide s i j key hash ne same at_i at_j missing small =
      let (a, ra, ta, ai, aj) =
        both s s i j looks asks_key s.trace s.trace stays ne at_i at_j (miss s.trace missing)
          (miss s.trace (ap (λ k. cached k s.trace.nonces) same ∙ missing)) in
      let (b, rb, tb, bi, bj) =
        both s a i j asks_key (stores key hash) a.trace a.trace ra ne ai aj (told a.trace key hash)
          (told a.trace key hash) in
      let none_b : cached (keys i) b.trace.nonces ≡ none =
        ap (λ t. cached (keys i) t.nonces) (tb ∙ ta) ∙ missing in
      let first : (settle (keys i) key.nonce b.trace.nonces).0 ≡ key.nonce + 1 =
        ground (arith, settle_value (keys i) key.nonce b.trace.nonces) in
      let t : Trace = hand_out b.trace (keys i) (settle (keys i) key.nonce b.trace.nonces) in
      let second : (settle (keys j) key.nonce t.nonces).0 ≡ key.nonce + 1 =
        ap (λ k. (settle k key.nonce t.nonces).0) same
        ∙ settle_race (keys i) key.nonce b.trace.nonces none_b
        ∙ first in
      let (u, ru, tu, ui, uj) =
        both s b i j (stores key hash) (sends hash (key.nonce + 1)) t _ rb ne bi bj
          (store_as b.trace key hash _ small first) (store_as t key hash _ small second) in
      (u, ru, ui, uj)
