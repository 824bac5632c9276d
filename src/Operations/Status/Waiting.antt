-- ===== src/Operations/Status/Waiting.antt =====
-- The end of the polls in `wait` (workspaces/src/operations.rs).
use near_workspaces_rs.Prelude.{ℕ, zero, suc, ◌<◌, ◌≡◌, refl, some, arith}
use near_workspaces_rs.Result
use near_workspaces_rs.Result.{Result, ok, err}
use near_workspaces_rs.Primitives.Rpc.{Call}
use near_workspaces_rs.Error.{Error}
use near_workspaces_rs.Execution.{ExecutionFinalResult}
use near_workspaces_rs.Client.Retry.{RetryLib}
use near_workspaces_rs.Client.{Client, TransactionStatus}
use near_workspaces_rs.Operations.Status.{ready, pending, status, after_poll, wait}

module _ (lib : RetryLib) {W : Type 0} (call : Call W) (self : TransactionStatus) where
  -- The client after so many polls, and that all of them were pending.
  abbrev pub after_polls : ℕ → Client W → Client W
  after_polls zero c = c
  after_polls (suc n) c = after_polls n (status lib call self c).1

  abbrev pub AllPending : ℕ → Client W → Type 0
  AllPending zero c = Unit {0}
  AllPending (suc n) c =
      ((status lib call self c).0 ≡ ok pending) × AllPending n (status lib call self c).1

  pub wait_ready :
      (n fuel : ℕ) (c : Client W) (val : ExecutionFinalResult)
      → n < fuel
      → AllPending n c
      → (status lib call self (after_polls n c)).0 ≡ ok (ready val)
      → wait lib call fuel self c ≡ some (ok val, after_polls (suc n) c)
  unfolding wait after_poll
  wait_ready n zero c val lt p e = elim lt [ ]
  wait_ready zero (suc fuel) c val lt p e = rw e refl
  wait_ready (suc n) (suc fuel) c val lt p e =
      rw (p.0) (wait_ready n fuel (status lib call self c).1 val (omega arith) p.1 e)

  pub wait_failed :
      (n fuel : ℕ) (c : Client W) (e : Error)
      → n < fuel
      → AllPending n c
      → (status lib call self (after_polls n c)).0 ≡ err e
      → wait lib call fuel self c ≡ some (err e, after_polls (suc n) c)
  unfolding wait after_poll
  wait_failed n zero c x lt p e = elim lt [ ]
  wait_failed zero (suc fuel) c x lt p e = rw e refl
  wait_failed (suc n) (suc fuel) c x lt p e =
      rw (p.0) (wait_failed n fuel (status lib call self c).1 x (omega arith) p.1 e)

  -- If the first `n` polls are pending and the next one is not, then `wait` ends with fuel for more than
  -- `n` polls, and polls no further: with the result if the transaction is executed, and with the error if
  -- that poll fails.
  pub wait_settled :
      (n fuel : ℕ) (c : Client W) (r : Result ExecutionFinalResult Error)
      → n < fuel
      → AllPending n c
      → (status lib call self (after_polls n c)).0 ≡ Result.map ready r
      → wait lib call fuel self c ≡ some (r, after_polls (suc n) c)
  wait_settled n fuel c (ok val) lt p e = wait_ready n fuel c val lt p e
  wait_settled n fuel c (err x) lt p e = wait_failed n fuel c x lt p e
