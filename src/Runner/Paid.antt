-- ===== src/Runner/Paid.antt =====
-- A run that ends well is within its budgets (execute of runner_execution.go, budget.go).
use flowy.Prelude.{◌≡◌, Bool, true, false}
use flowy.Base.{text_eq, ok}
use flowy.Graph.{Graph}
use flowy.Runner.{
  Position, Ending, run_completed, suspending, handing_off, Next, go_on, ended, check_budget_limits,
}

-- The endings of a run that has not failed, and has not been cut off between two nodes.
abbrev pub ended_well : Ending → Bool
ended_well run_completed = true
ended_well (suspending pointer reason) = true
ended_well (handing_off pointer reason) = true
ended_well _ = false

module _ {T E : Type 0} (g : Graph T E) where
  -- The limits hold where a round ends well.
  abbrev IsPaid : Position T E → Ending → Type 0
  IsPaid p ending =
      ended_well ending ≡ true → check_budget_limits p.meta g.defaults.budget_limits ≡ ok tt

  abbrev IsPaidNext : Next T E → Type 0
  IsPaidNext (go_on p) = Unit {0}
  IsPaidNext (ended p ending) = IsPaid p ending
