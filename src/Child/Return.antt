-- ===== src/Child/Return.antt =====
-- The validation of a child and the return of its budget (child_state.go, child_wait.go,
-- child_cancel_confirmation.go, child_outcome_resolution.go, child_budget.go).
use flowy.Prelude.{
  ℕ, ◌+◌, Bool, true, false, not, ◌&&◌, ◌||◌, [], ◌∷◌, Option, none, some, ◌==◌, ◌!=◌, nat_eq, ltb,
  ℤ, pos, ◌-ℤ◌, ltb_ℤ,
}
use flowy.Base.{
  text_eq, valid_runtime_text, is_zero, Map, lookup, insert, child_invalid, children_unresolved,
  budget_exceeded, execution_corrupt, Result, ok, ◌>>◌, reject_if, fails,
}
use flowy.Child.{
  ChildState, planned, queued, running, waiting, completed, failed, canceled, unknown, other_state,
  ChildRecord, WaitResolution, OutcomeResolution, CancelConfirmation, is_completed_or_failed,
  settled_child, lacks,
}

abbrev is_canceled : ChildState → Bool
is_canceled canceled = true
is_canceled _ = false

abbrev is_unknown_or_running : ChildState → Bool
is_unknown_or_running unknown = true
is_unknown_or_running running = true
is_unknown_or_running _ = false

abbrev unresolved_cancelable_child : ChildState → Bool
unresolved_cancelable_child waiting = true
unresolved_cancelable_child s = is_unknown_or_running s

abbrev max_revision : ℕ
max_revision = 18446744073709551615

abbrev pub absent {ℓ} : {A : Type ℓ} → Option A → Bool
absent none = true
absent (some a) = false

unfoldable pub valid_child_wait_resolution : ChildRecord → Option WaitResolution → Bool
valid_child_wait_resolution c none = true
valid_child_wait_resolution c (some d) =
    d.wait_id != []
    && d.decision_id != []
    && ltb 0 d.source_revision
    && valid_runtime_text (d.wait_id ∷ d.decision_id ∷ c.error ∷ [])
    && ltb 0 d.incarnation
    && not (is_zero d.at)
    && ltb 2 d.child_revision
    && ltb d.child_revision max_revision
    && c.revision == d.child_revision + 1
    && is_completed_or_failed c.state
    && c.wait_id == []

unfoldable pub valid_child_cancel_confirmation : ChildRecord → Option CancelConfirmation → Bool
valid_child_cancel_confirmation c none = true
valid_child_cancel_confirmation c (some d) =
    is_canceled c.state
    && c.cancel_confirmed
    && c.cancel_requested
    && c.wait_id == []
    && d.request_id != []
    && d.decision_id != []
    && d.reason != []
    && d.evidence != []
    && valid_runtime_text (d.request_id ∷ d.decision_id ∷ d.reason ∷ d.evidence ∷ [])
    && unresolved_cancelable_child d.prior_state
    && ltb 1 d.child_revision
    && ltb d.child_revision max_revision
    && c.revision == d.child_revision + 1
    && ltb 0 d.source_revision
    && ltb 0 d.incarnation
    && not (is_zero d.at)

unfoldable pub valid_child_outcome_resolution : ChildRecord → Option OutcomeResolution → Bool
valid_child_outcome_resolution c none = true
valid_child_outcome_resolution c (some d) =
    is_completed_or_failed c.state
    && c.wait_id == []
    && not c.cancel_confirmed
    && absent c.wait_resolution
    && absent c.cancel_confirmation
    && d.decision_id != []
    && d.reason != []
    && d.evidence != []
    && d.request_digest != []
    && valid_runtime_text (d.decision_id ∷ d.reason ∷ d.evidence ∷ c.error ∷ [])
    && ltb 1 d.child_revision
    && ltb d.child_revision max_revision
    && c.revision == d.child_revision + 1
    && ltb 0 d.prior_incarnation
    && c.incarnation == d.prior_incarnation
    && ltb 0 d.source_revision
    && ltb d.prior_incarnation d.incarnation
    && not (is_zero d.at)
    && is_unknown_or_running d.prior_state

abbrev no_outcome : ChildRecord → Bool
no_outcome c = c.error == [] && c.result == [] && c.wait_id == []

abbrev has_settled : ChildRecord → Bool
has_settled c = ltb 2 c.revision && ltb 0 c.incarnation

abbrev valid_in : ChildRecord → ChildState → Bool
valid_in c planned = c.revision == 0 && c.incarnation == 0 && no_outcome c
valid_in c queued = ltb 0 c.revision && c.incarnation == 0 && no_outcome c
valid_in c running = ltb 1 c.revision && ltb 0 c.incarnation && no_outcome c
valid_in c completed = has_settled c && c.error == [] && c.wait_id == []
valid_in c failed = has_settled c && c.error != [] && c.wait_id == []
valid_in c waiting = has_settled c && c.wait_id != [] && c.error == []
valid_in c unknown = has_settled c && c.wait_id == []
valid_in c canceled = ltb 0 c.revision && c.cancel_confirmed
valid_in c (other_state label) = false

unfoldable pub validate_child_state_machine : ChildRecord → Result (Unit {0})
validate_child_state_machine c = do
  reject_if (c.cancel_confirmed && (not c.cancel_requested || not (is_canceled c.state)))
      execution_corrupt
  reject_if (not (valid_in c c.state)) execution_corrupt

unfoldable pub validate_child_record_state : ChildRecord → Result (Unit {0})
validate_child_record_state c = do
  reject_if
      (not (valid_runtime_text (c.wait_id ∷ []))
        || not (valid_child_wait_resolution c c.wait_resolution)
        || not (valid_child_cancel_confirmation c c.cancel_confirmation)
        || not (valid_child_outcome_resolution c c.outcome_resolution))
      execution_corrupt
  validate_child_state_machine c

-- Each unit used has been allocated.
unfoldable pub check_used : Map ℤ → Map ℤ → Result (Unit {0})
check_used allocation [] = ok tt
check_used allocation ((name, units) ∷ rest) = do
  reject_if (name == [] || lacks (lookup name allocation) units) budget_exceeded
  check_used allocation rest

abbrev pub count_given : Option ℤ → ℤ
count_given none = pos 0
count_given (some n) = n

unfoldable pub returned_units : Map ℤ → Map ℤ → Map ℤ → Result (Map ℤ)
returned_units used returned [] = ok returned
returned_units used returned ((name, allocated) ∷ rest) = do
  reject_if (name == [] || ltb_ℤ allocated (pos 0) || absent (lookup name used)) budget_exceeded
  returned_units used (insert name (allocated -ℤ count_given (lookup name used)) returned) rest

unfoldable pub compute_child_budget_return : ChildRecord → Map ℤ → Result (Map ℤ)
compute_child_budget_return c used = do
  reject_if (fails (validate_child_record_state c)) child_invalid
  reject_if (not (settled_child c)) children_unresolved
  check_used c.spec.allocation used
  returned_units used [] c.spec.allocation
