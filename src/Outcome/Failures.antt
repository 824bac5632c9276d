-- ===== src/Outcome/Failures.antt =====
-- What `ExecutionDetails::failures`, `receipt_failures` and `logs` list (workspaces/src/result.rs).
use mathlib.Core.Bool.{Bool-discrete}
use mathlib.Core.List.{Sublist, Mem, filter, mem-filter, filter-sublist}
use near_workspaces_rs.Prelude.{◌≡◌, refl, ◌↔◌, true, List, [], ◌∷◌, arith}
use near_workspaces_rs.Primitives.{ExecutionStatusView}
use near_workspaces_rs.Outcome.{
  ExecutionOutcome, ExecutionDetails, is_failure_status, is_failure, outcomes, failed, failures,
  receipt_failures,
}

abbrev HasFailed : ExecutionOutcome → Type 0
HasFailed o = is_failure_status o.status ≡ true

has_failed : (o : ExecutionOutcome) → Dec (HasFailed o)
has_failed o = Bool-discrete (is_failure_status o.status) true

failed-filter : (os : List ExecutionOutcome) → failed os ≡ filter has_failed os
unfolding failed has_failed
failed-filter [] = refl
failed-filter (o ∷ os) = ground (arith, failed-filter os)

failures-filter : (d : ExecutionDetails) → failures d ≡ filter has_failed (outcomes d)
unfolding failures receipt_failures outcomes has_failed
failures-filter d = ground (arith, failed-filter d.receipts)

-- `failures` lists, in their order, exactly those outcomes of the transaction and its receipts
-- whose status is `Failure`.
pub failures_exactly :
    (d : ExecutionDetails) (o : ExecutionOutcome)
    → Sublist (failures d) (outcomes d)
      × (Mem o (failures d) ↔ (Mem o (outcomes d) × (is_failure_status o.status ≡ true)))
failures_exactly d o = rw (failures-filter d) (filter-sublist has_failed, mem-filter has_failed)

-- A transaction outcome of unknown status is a failure by `is_failure`, and `failures` leaves it
-- out.
failures-unknown :
    (d : ExecutionDetails)
    → d.transaction.status ≡ ExecutionStatusView.unknown
    → (is_failure d.transaction ≡ true) × (failures d ≡ receipt_failures d)
unfolding is_failure failures
failures-unknown d e = ground arith
