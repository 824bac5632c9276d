-- ===== src/Client/Retry.antt =====
-- `retry` (workspaces/src/rpc/client.rs) over the crate tokio_retry.
use near_workspaces_rs.Prelude.{
  ℕ, zero, suc, ◌+◌, ◌*◌, ◌≤◌, ◌≡◌, refl, ◌∙◌, ◌⊎◌, inl, inr, true, false, List, [], ◌∷◌, length,
  Bool-cases, arith,
}
use near_workspaces_rs.Result.{Result, ok, err, Exec, is_err}

-- What `Retry::spawn` does after a run of the task.
abbrev pub or_else : {S A E : Type 0} → Result A E × S → Exec S A E → Result A E × S
or_else (ok a, s) again = (ok a, s)
or_else (err e, s) again = again s

-- tokio_retry: `Retry::spawn` runs the task, and once more after each delay while it fails.
-- `from_millis` and `jitter` give the delays.
pub record RetryLib : Type 1 where
  pub from_millis : ℕ → ℕ → ℕ
  pub jitter : ℕ → ℕ
  pub spawn : (S A E : Type 0) → List ℕ → Exec S A E → Exec S A E
  pub spawn-nil : (S A E : Type 0) (task : Exec S A E) (s : S) → spawn S A E [] task s ≡ task s
  pub spawn-cons :
      (S A E : Type 0) (d : ℕ) (ds : List ℕ) (task : Exec S A E) (s : S)
      → spawn S A E (d ∷ ds) task s ≡ or_else (task s) (spawn S A E ds task)

-- `iterator.take(n)`, for an iterator that never ends
abbrev pub take_from : ℕ → ℕ → (ℕ → ℕ) → List ℕ
take_from zero i delays = []
take_from (suc n) i delays = delays i ∷ take_from n (i + 1) delays

module _ (lib : RetryLib) where
  open lib use {from_millis, jitter, spawn, spawn-nil, spawn-cons}

  unfoldable pub retry_strategy : List ℕ
  retry_strategy = take_from 4 0 (λ i. jitter (from_millis 5 i))

  unfoldable pub retry : {S A E : Type 0} → Exec S A E → Exec S A E
  unfolding retry_strategy
  retry {S} {A} {E} task = spawn S A E retry_strategy task

module _ {S A E : Type 0} where
  -- The state after so many runs of the task, and that each of them failed.
  abbrev pub state_after : ℕ → Exec S A E → S → S
  state_after zero task s = s
  state_after (suc n) task s = state_after n task (task s).1

  abbrev pub Fails : ℕ → Exec S A E → S → Type 0
  Fails zero task s = Unit {0}
  Fails (suc n) task s = (is_err (task s).0 ≡ true) × Fails n task (task s).1

  or_else-ok : (r : Result A E × S) (again : Exec S A E) → is_err r.0 ≡ false → or_else r again ≡ r
  or_else-ok (ok a, s) again h = refl
  or_else-ok (err e, s) again h = cc

  or_else-err :
      (r : Result A E × S) (again : Exec S A E) → is_err r.0 ≡ true → or_else r again ≡ again r.1
  or_else-err (ok a, s) again h = cc
  or_else-err (err e, s) again h = refl

module _ (lib : RetryLib) {S A E : Type 0} (task : Exec S A E) where
  pub spawn_run :
      (ds : List ℕ) (n : ℕ) (s : S)
      → n ≤ length ds
      → Fails n task s
      → (n ≡ length ds) ⊎ (is_err (task (state_after n task s)).0 ≡ false)
      → lib.spawn S A E ds task s ≡ task (state_after n task s)
  spawn_run [] zero s le f stop = lib.spawn-nil S A E task s
  spawn_run [] (suc n) s le f stop = absurd (omega arith)
  spawn_run (d ∷ ds) zero s le f (inl e) = absurd (omega arith)
  spawn_run (d ∷ ds) zero s le f (inr done) =
      lib.spawn-cons S A E d ds task s ∙ or_else-ok (task s) _ done
  spawn_run (d ∷ ds) (suc n) s le f stop =
      lib.spawn-cons S A E d ds task s
      ∙ or_else-err (task s) _ f.0
      ∙ spawn_run ds n (task s).1 (omega arith) f.1 (pred_stop stop)
    where
      pred_stop :
          (suc n ≡ suc (length ds)) ⊎ (is_err (task (state_after n task (task s).1)).0 ≡ false)
          → (n ≡ length ds) ⊎ (is_err (task (state_after n task (task s).1)).0 ≡ false)
      pred_stop (inl e) = inl (omega arith)
      pred_stop (inr done) = inr done

  -- An invariant that every run of the task keeps, and what every run then ensures.
  pub spawn_rule :
      (P : S → Type 0) (Q : Result A E → S → Type 0)
      → ((s : S) → P s → P (task s).1 × Q (task s).0 (task s).1)
      → (ds : List ℕ) (s : S) → P s
      → P (lib.spawn S A E ds task s).1
        × Q (lib.spawn S A E ds task s).0 (lib.spawn S A E ds task s).1
  spawn_rule P Q step [] s p = rw (lib.spawn-nil S A E task s) (step s p)
  spawn_rule P Q step (d ∷ ds) s p = elim (Bool-cases (is_err (task s).0)) [
    | inl failed ↦
        rw (lib.spawn-cons S A E d ds task s, or_else-err (task s) (lib.spawn S A E ds task) failed)
          (spawn_rule P Q step ds (task s).1 (step s p).0)
    | inr done ↦
        rw (lib.spawn-cons S A E d ds task s, or_else-ok (task s) (lib.spawn S A E ds task) done)
          (step s p)
  ]

  -- If the first runs of the task fail, fewer than five or all of the first four, and the run after
  -- them succeeds or is the fifth, then `retry` returns the result and the state of that run.
  pub retry_outcome :
      (n : ℕ) (s : S)
      → n ≤ 4
      → Fails n task s
      → (n ≡ 4) ⊎ (is_err (task (state_after n task s)).0 ≡ false)
      → retry lib task s ≡ task (state_after n task s)
  unfolding retry
  retry_outcome n s le f stop = spawn_run (retry_strategy lib) n s le f stop

  pub retry_rule :
      (P : S → Type 0) (Q : Result A E → S → Type 0)
      → ((s : S) → P s → P (task s).1 × Q (task s).0 (task s).1)
      → (s : S) → P s
      → P (retry lib task s).1 × Q (retry lib task s).0 (retry lib task s).1
  unfolding retry
  retry_rule P Q step s p = spawn_rule P Q step (retry_strategy lib) s p

  pub spawn_cost :
      (cost : S → ℕ) (k : ℕ)
      → ((s : S) → cost (task s).1 ≤ cost s + k)
      → (ds : List ℕ) (s : S) → cost (lib.spawn S A E ds task s).1 ≤ cost s + k * suc (length ds)
  spawn_cost cost k each [] s = rw (lib.spawn-nil S A E task s) (omega (arith, each s))
  spawn_cost cost k each (d ∷ ds) s = elim (Bool-cases (is_err (task s).0)) [
    | inl failed ↦
        rw (lib.spawn-cons S A E d ds task s, or_else-err (task s) (lib.spawn S A E ds task) failed)
          (omega (arith, each s, spawn_cost cost k each ds (task s).1))
    | inr done ↦
        rw (lib.spawn-cons S A E d ds task s, or_else-ok (task s) (lib.spawn S A E ds task) done)
          (omega (arith, each s))
  ]

  -- If no run of the task adds more than `k` to a cost, `retry` adds at most five times `k`.
  pub retry_cost :
      (cost : S → ℕ) (k : ℕ)
      → ((s : S) → cost (task s).1 ≤ cost s + k)
      → (s : S) → cost (retry lib task s).1 ≤ cost s + k * 5
  unfolding retry
  retry_cost cost k each s = spawn_cost cost k each (retry_strategy lib) s
