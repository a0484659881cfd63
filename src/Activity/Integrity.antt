-- ===== src/Activity/Integrity.antt =====
-- The validation of a persisted activity record (activity_integrity.go,
-- activity_attempt_integrity.go, activity_resolution_integrity.go, activity_schedule_integrity.go).
use flowy.Prelude.{
  ℕ, ◌+◌, ◌-◌, Bool, true, false, not, ◌&&◌, ◌||◌, List, [], ◌∷◌, Option, none, some, ◌==◌, ◌!=◌,
  nat_eq, leb, ℤ, pos, int_eq, ltb_ℤ, leb_ℤ, pos_part,
}
use flowy.Base.{
  Text, text_eq, Time, is_zero, before, length, last?, get_elem?, execution_corrupt, Result, ◌>>◌,
  reject_if, fails,
}
use flowy.Activity.Schedule.{
  RetryPolicy, ScheduleDecision, is_accepted, valid_activity_retry_schedule_decision,
}
use flowy.Activity.Types.{
  manual, origin_eq, State, prepared, running, completed, failed, unknown, other_state, state_eq,
  unclassified, retryable, non_retryable, ambiguous, class_eq, Action, complete, fail, retry,
  other_action, action_eq, Attempt, ResolutionRecord, ActivityRecord,
}

-- validateActivityAttempt, by the state of the attempt.
valid_attempt_state : State → Attempt → Bool
valid_attempt_state running a =
    a.classification == unclassified && is_zero a.finished_at && a.error == []
valid_attempt_state completed a =
    a.classification == unclassified && not (is_zero a.finished_at) && a.error == []
valid_attempt_state failed a =
    (a.classification == retryable || a.classification == non_retryable)
    && not (is_zero a.finished_at)
valid_attempt_state unknown a = a.classification == ambiguous
valid_attempt_state _ a = false

unfoldable pub validate_activity_attempt : Attempt → Result (Unit {0})
unfolding valid_attempt_state
validate_activity_attempt a = reject_if (not (valid_attempt_state a.state a)) execution_corrupt

-- The loop over the attempts in validateActivityRecord; `total` is their number.
unfoldable pub valid_attempts : ℕ → ℕ → List Attempt → Bool
valid_attempts total index [] = true
valid_attempts total index (a ∷ rest) =
    not (
      a.number != pos (index + 1)
      || a.incarnation == 0
      || is_zero a.started_at
      || fails (validate_activity_attempt a)
      || (a.state == running && index + 1 != total))
    && valid_attempts total (index + 1) rest

abbrev pub deadline_of : Option ScheduleDecision → Time
deadline_of none = 0
deadline_of (some d) = d.deadline

abbrev accepts : Option ScheduleDecision → ℤ → Time → Bool
accepts none attempt at = false
accepts (some d) attempt at = is_accepted d.rejection && d.attempt == attempt && d.prepared_at == at

abbrev is_nil {ℓ} : {A : Type ℓ} → Option A → Bool
is_nil none = true
is_nil (some a) = false

decision_action : Action → ResolutionRecord → RetryPolicy → Bool
decision_action complete d p = d.safe_retry_contract == [] && is_nil d.retry_schedule
decision_action fail d p = d.safe_retry_contract == [] && is_nil d.retry_schedule
decision_action retry d p =
    d.safe_retry_contract != []
    && d.safe_retry_contract == p.safe_retry_contract
    && ltb_ℤ d.attempt p.max_attempts
    && valid_activity_retry_schedule_decision p d.retry_schedule
    && accepts d.retry_schedule d.attempt d.at
decision_action (other_action a) d p = false

unfoldable pub valid_activity_decision_action : ResolutionRecord → RetryPolicy → Bool
unfolding decision_action
valid_activity_decision_action d p = decision_action d.action d p

-- An index in range holds its attempt; the loop has checked the range before it indexes.
abbrev state_at : Option Attempt → State → Bool
state_at none s = false
state_at (some a) s = a.state == s

abbrev starts_before : Option Attempt → Time → Bool
starts_before none t = false
starts_before (some a) t = before a.started_at t

abbrev pub int_length {ℓ} : {A : Type ℓ} → List A → ℤ
int_length xs = pos (length xs)

seen : List Text → Text → Bool
seen [] id = false
seen (x ∷ rest) id = x == id || seen rest id

-- The loop of validateActivityDecisions: the ids seen, the previous attempt and revision.
unfoldable pub valid_resolutions : ActivityRecord → List Text → ℤ → ℕ → List ResolutionRecord → Bool
unfolding seen
valid_resolutions r ids attempt revision [] = true
valid_resolutions r ids attempt revision (d ∷ rest) =
    not (
      seen ids d.decision_id
      || d.decision_id == []
      || d.reason == []
      || d.evidence == []
      || is_zero d.at
      || d.incarnation == 0
      || leb d.source_revision revision
      || leb_ℤ d.attempt attempt
      || ltb_ℤ (int_length r.attempts) d.attempt
      || (d.prior_state != unknown && d.prior_state != running))
    && state_at (get_elem? r.attempts (pos_part d.attempt - 1)) unknown
    && valid_activity_decision_action d r.retry
    && not (
        d.action == retry
        && ltb_ℤ d.attempt (int_length r.attempts)
        && starts_before (get_elem? r.attempts (pos_part d.attempt)) (deadline_of d.retry_schedule))
    && not (d.action != retry && d.attempt != int_length r.attempts)
    && valid_resolutions r (d.decision_id ∷ ids) d.attempt d.source_revision rest

-- validManualActivityOrigin, by the state and the last resolution.
manual_origin : State → Option ResolutionRecord → ℤ → Bool
manual_origin _ none total = false
manual_origin completed (some d) total = d.action == complete && d.attempt == total
manual_origin failed (some d) total = d.action == fail && d.attempt == total
manual_origin prepared (some d) total = d.action == retry && d.attempt == total
manual_origin running (some d) total = d.action == retry && ltb_ℤ d.attempt total
manual_origin unknown (some d) total = d.action == retry && ltb_ℤ d.attempt total
manual_origin (other_state s) (some d) total = false

unfoldable pub valid_manual_activity_origin : ActivityRecord → Bool
unfolding manual_origin
valid_manual_activity_origin r = manual_origin r.state (last? r.resolutions) (int_length r.attempts)

unfoldable pub validate_activity_decisions : ActivityRecord → Result (Unit {0})
validate_activity_decisions r = do
  reject_if (not (valid_resolutions r [] (pos 0) 0 r.resolutions)) execution_corrupt
  reject_if (r.origin == manual && not (valid_manual_activity_origin r)) execution_corrupt

-- Whether the schedule of an attempt fits it, and the attempt after it.
schedule_fits : RetryPolicy → Attempt → Option ScheduleDecision → Option Attempt → Bool
schedule_fits p a none after =
    not (a.state == failed && a.classification == retryable && ltb_ℤ a.number p.max_attempts)
schedule_fits p a (some d) after =
    not (
      a.state != failed
      || a.classification != retryable
      || d.attempt != a.number
      || d.prepared_at != a.finished_at
      || not (valid_activity_retry_schedule_decision p (some d)))
    && not (not (is_nil after) && (not (is_accepted d.rejection) || starts_before after d.deadline))

abbrev first : List Attempt → Option Attempt
first [] = none
first (a ∷ rest) = some a

valid_schedules : RetryPolicy → List Attempt → Bool
unfolding schedule_fits
valid_schedules p [] = true
valid_schedules p (a ∷ rest) =
    schedule_fits p a a.retry_schedule (first rest) && valid_schedules p rest

unfoldable pub validate_activity_record_schedules : ActivityRecord → Result (Unit {0})
unfolding valid_schedules
validate_activity_record_schedules r =
    reject_if (not (valid_schedules r.retry r.attempts)) execution_corrupt

unfoldable pub has_activity_retry_decision : List ResolutionRecord → ℤ → Bool
has_activity_retry_decision [] attempt = false
has_activity_retry_decision (d ∷ rest) attempt =
    (d.attempt == attempt && d.action == retry) || has_activity_retry_decision rest attempt
