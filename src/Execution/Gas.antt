-- ===== src/Execution/Gas.antt =====
-- The gas total that `ExecutionFinalResult::from_view` computes (workspaces/src/result.rs).
use near_workspaces_rs.Prelude.{ℕ, ◌+◌, ◌%◌, ◌<◌, ◌≡◌, refl, List, [], ◌∷◌, map, sum, arith}
use near_workspaces_rs.Primitives.{u64_mod, ExecutionOutcomeWithIdView, FinalExecutionOutcomeView}
use near_workspaces_rs.Outcome.{ExecutionDetails, outcomes, outcome_from_view}
use near_workspaces_rs.Execution.{sum_gas, from_view}

abbrev receipts_gas : List ExecutionOutcomeWithIdView → ℕ
receipts_gas [] = 0
receipts_gas (t ∷ ts) = t.outcome.gas_burnt + receipts_gas ts

-- The gas of all outcomes that the details list, with no wrap-around.
abbrev pub gas_of_details : ExecutionDetails → ℕ
gas_of_details d = sum (map (λ o. o.gas_burnt) (outcomes d))

sum_gas_below :
    (acc : ℕ) (ts : List ExecutionOutcomeWithIdView)
    → acc + receipts_gas ts < u64_mod
    → sum_gas acc ts ≡ acc + receipts_gas ts
unfolding sum_gas
sum_gas_below acc [] h = omega arith
sum_gas_below acc (t ∷ ts) h =
    omega (arith, sum_gas_below ((acc + t.outcome.gas_burnt) % u64_mod) ts (omega arith))

receipts_gas-map :
    (ts : List ExecutionOutcomeWithIdView)
    → sum (map (λ o. o.gas_burnt) (map outcome_from_view ts)) ≡ receipts_gas ts
unfolding outcome_from_view
receipts_gas-map [] = refl
receipts_gas-map (t ∷ ts) = omega (arith, receipts_gas-map ts)

-- If the gas of the transaction and of its receipts adds up to less than 2^64, the total of the
-- final result is the sum of the gas of all outcomes that its details list.
pub total_gas_exact :
    (view : FinalExecutionOutcomeView)
    → gas_of_details (from_view view).details < u64_mod
    → (from_view view).total_gas_burnt ≡ gas_of_details (from_view view).details
unfolding from_view outcomes outcome_from_view
total_gas_exact view h = omega (
  arith,
  receipts_gas-map view.receipts_outcome,
  sum_gas_below 0 view.receipts_outcome (omega (arith, receipts_gas-map view.receipts_outcome)),
)
