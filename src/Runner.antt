-- ===== src/Runner.antt =====
-- The run loop of a segment: execute, runNodeStep and the directives (runner_execution.go), with
-- UnwrapDirective (flowy.go) and checkBudgetLimits (budget.go), for a runner without a durable
-- backend. What the saving of a handoff, a suspension or a canceled run does after the loop is the
-- caller's; an ending says which is due. The events of the sink, the times of a segment's end and
-- the telemetry are not modelled.
pub mod Loop
pub mod Bounded
pub mod Terminates
pub mod Known
pub mod Stays
pub mod Effects
pub mod Paid
pub mod Examples
use mathlib.Core.List.{reverse}
use flowy.Prelude.{
  ℕ, zero, suc, ◌+◌, Bool, true, false, not, ◌&&◌, ◌||◌, List, [], ◌∷◌, ◌++◌, Option, none, some,
  ◌==◌, ℤ, pos, ◌+ℤ◌, i64, leb_ℤ, ltb_ℤ, if◌then◌else◌,
}
use flowy.Base.{
  Text, text, text_eq, text_discrete, Map, lookup, insert, Err, node_not_found, node_failed,
  no_retry_route, retry_attempts_invalid, retry_budget_exceeded, max_steps_exceeded,
  budget_exceeded, effect_mismatch, zero_directive_returned, removed_next, failed_with,
  execution_capability, lease_lost, joined, Result, ok, err, ◌>>=◌, ◌>>◌, reject_if,
}
use flowy.Execution.Types.{RunMetadata}
use flowy.Graph.{Directive, Node, Graph, end_node, default_max_steps}
use flowy.Graph.Routing.{resolve_edge, validate_execution_pointer}

-- What the loop carries from node to node.
pub record Position (T E : Type 0) : Type 0 where
  pub current : Text
  pub state : T
  pub meta : RunMetadata
  pub effects : List E

-- What the context of the run is found to be, by the first of the loop's tests that holds: a
-- handoff requested, the lease lost, or done for another reason.
pub data Observed : Type 0 where
  clear handoff_requested lease_gone done : Observed

-- What a round of the loop meets: the context before the step, whether the sink takes the events of
-- the step, and the context after the step and after the budgets.
pub record Round : Type 0 where
  pub on_entry : Observed
  pub started_taken : Bool
  pub completed_taken : Bool
  pub after_step : Observed
  pub after_budget : Observed

-- Why a run failed: an error's own text, or a fixed reason.
pub data Reason : Type 0 where
  text_of : Err → Reason
  words : Text → Reason

pub data Ending : Type 0 where
  run_completed : Ending
  run_failed : Reason → Err → Ending
  suspending : Text → Text → Ending  -- resume pointer, reason
  handing_off : Text → Text → Ending  -- resume pointer, reason
  handoff_due canceled_due : Ending

pub record Outcome (T E : Type 0) : Type 0 where
  pub position : Position T E
  pub ending : Ending

-- nodeStepOutcome and its error.
pub data Stepped (T E : Type 0) : Type 0 where
  stepped : Position T E → Directive E → Stepped T E
  step_failed : Position T E → Err → Stepped T E
  emit_canceled : Position T E → Stepped T E

-- A round leads to the next position, or ends the run.
pub data Next (T E : Type 0) : Type 0 where
  go_on : Position T E → Next T E
  ended : Position T E → Ending → Next T E

abbrev pub failing : {T E : Type 0} → Position T E → Err → Next T E
failing p e = ended p (run_failed (text_of e) e)

-- The loop of UnwrapDirective, which collects the effects from the outermost to the innermost.
unfoldable pub collect_effects : {E : Type 0} → Directive E → List E → Result (Directive E × List E)
collect_effects Directive.zero effects = err zero_directive_returned
collect_effects (Directive.effect base none) effects = err effect_mismatch
collect_effects (Directive.effect base (some payload)) effects =
    collect_effects base (effects ++ payload ∷ [])
collect_effects d effects = ok (d, effects)

abbrev pub reversed : {E : Type 0} → Directive E × List E → Result (Directive E × List E)
reversed (base, effects) = ok (base, reverse effects)

unfoldable pub unwrap_directive : {E : Type 0} → Directive E → Result (Directive E × List E)
unwrap_directive d = collect_effects d [] >>= reversed

abbrev pub count_of : Text → Map ℤ → ℤ
count_of name counts = elim (lookup name counts) [ none ↦ pos 0 | some n ↦ n ]

unfoldable pub check_budget_limits : RunMetadata → Map ℤ → Result (Unit {0})
check_budget_limits meta [] = ok tt
check_budget_limits meta ((name, limit) ∷ rest) = do
  reject_if (ltb_ℤ (pos 0) limit && ltb_ℤ limit (count_of name meta.budget_counts)) budget_exceeded
  check_budget_limits meta rest

-- failReasonForStepErr: the cause of a node's error.
abbrev pub fail_reason : Err → Reason
fail_reason (node_failed name e) = text_of e
fail_reason e = text_of e

abbrev pub resume_pointer : Text → Text → Text
resume_pointer current resume_at = if resume_at == [] then current else resume_at
