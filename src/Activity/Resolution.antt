-- ===== src/Activity/Resolution.antt =====
-- finishActivityLocked (activity.go), and the manual decisions of activity_resolution.go.
use flowy.Prelude.{
  ℕ, Bool, true, false, not, ◌&&◌, ◌||◌, List, [], ◌∷◌, ◌++◌, Option, none, some, ◌==◌, ◌!=◌,
  nat_eq, if◌then◌else◌, int_eq, leb_ℤ,
}
use flowy.Base.{
  Bytes, Text, text_eq, text_discrete, Time, zero_time, is_zero, valid_runtime_text, Map, lookup,
  length, activity_conflict, schedule_invalid, Result, ok, err, ◌>>◌, ◌>>=◌, reject_if, fails,
}
use flowy.Execution.Types.{Envelope}
use flowy.Activity.Schedule.{
  ScheduleDecision, is_accepted, choose_activity_retry_schedule, validate_activity_retry,
}
use flowy.Activity.Types.{
  Origin, reconciled, manual, origin_eq, prepared, running, completed, failed, unknown, state_eq,
  FailureClass, unclassified, retryable, non_retryable, Action, complete, fail, retry, other_action,
  Attempt, ResolutionRecord, ActivityRecord, Resolution,
}
use flowy.Activity.Integrity.{int_length}
use flowy.Activity.Record.{execution_activity_journal, bound_activity_identity}
use flowy.Activity.Journal.{update_last, abandoned, record_activity_failure}

-- What a dispatch or a reconciliation came to.
pub data Dispatched : Type 0 where
  returned : Bytes → Dispatched
  raised : Text → FailureClass → Time → Dispatched

abbrev finished : Time → Attempt → Attempt
finished now a = record a { state = completed; finished_at = now }

-- finishActivityLocked up to its commit: the record, and whether it is a replay of its outcome.
unfoldable pub finish_activity :
    ActivityRecord → Dispatched → Origin → Time → Option ℕ → Result (ActivityRecord × Bool)
unfolding text_discrete
finish_activity r (returned payload) from now sample = do
  reject_if (length r.attempts == 0) activity_conflict
  if r.state == completed
      then (do reject_if (r.outcome != payload) activity_conflict; ok (r, true))
      else ok (
        record r {
          state = completed;
          outcome = payload;
          origin = from;
          attempts =
              if from != reconciled && from != manual
              then update_last (finished now) r.attempts
              else r.attempts;
        },
        false,
      )
finish_activity r (raised message class hint) from now sample = do
  reject_if (length r.attempts == 0) activity_conflict
  reject_if (r.state == completed) activity_conflict
  ok (record_activity_failure r message class hint now sample, false)

-- The guard at the head of ResolveActivity.
unfoldable pub check_resolution : Resolution → Result (Unit {0})
unfolding text_discrete
check_resolution x =
    reject_if
      (x.identity == []
        || x.input_digest == []
        || x.implementation == []
        || not (
            valid_runtime_text (
              x.identity ∷ x.input_digest ∷ x.implementation ∷ x.decision_id ∷ x.reason ∷ x.evidence
              ∷ x.safe_retry_contract ∷ []))
        || x.decision_id == []
        || x.reason == []
        || x.evidence == [])
      activity_conflict

unfoldable pub decided_before : Text → List ResolutionRecord → Bool
unfolding text_discrete
decided_before id [] = false
decided_before id (prior ∷ rest) = prior.decision_id == id || decided_before id rest

-- resolutionActivityRecord, from the map that the payload gave.
unfoldable pub resolution_activity_record :
    (Text → Text → ℕ → Text → Text)
    → Envelope
    → Map ActivityRecord
    → Resolution
    → Result ActivityRecord
unfolding text_discrete
resolution_activity_record identity source payload x = do
  journal ← execution_activity_journal identity source payload
  elim (lookup x.identity journal) [
    | none ↦ err activity_conflict
    | some r ↦ do
      reject_if
          (r.identity != bound_activity_identity identity source r.key
            || r.input_digest != x.input_digest
            || r.implementation != x.implementation
            || length r.attempts == 0)
          activity_conflict
      reject_if (decided_before x.decision_id r.resolutions) activity_conflict
      reject_if (r.state != unknown && r.state != running) activity_conflict
      ok r
  ]

-- The record and the schedule that applyActivityResolution leaves, by the action.
apply_action :
    Action
    → ActivityRecord
    → Resolution
    → Time
    → Option ℕ
    → Result (ActivityRecord × Option ScheduleDecision)
unfolding text_discrete
apply_action complete r x now sample = do
  reject_if (x.safe_retry_contract != [] || not (is_zero x.not_before)) activity_conflict
  ok (
    record r {
      classification = unclassified;
      next_attempt_at = zero_time;
      state = completed;
      origin = manual;
      outcome = x.outcome;
    },
    none,
  )
apply_action fail r x now sample = do
  reject_if (x.outcome != [] || x.safe_retry_contract != [] || not (is_zero x.not_before))
      activity_conflict
  ok (
    record r {
      classification = non_retryable;
      next_attempt_at = zero_time;
      state = failed;
      origin = manual;
    },
    none,
  )
apply_action retry r x now sample = do
  reject_if
      (x.outcome != []
        || fails (validate_activity_retry r.retry)
        || r.retry.safe_retry_contract == []
        || x.safe_retry_contract != r.retry.safe_retry_contract
        || leb_ℤ r.retry.max_attempts (int_length r.attempts))
      activity_conflict
  let d = choose_activity_retry_schedule r.retry (int_length r.attempts) now x.not_before sample
  reject_if (not (is_accepted d.rejection)) schedule_invalid
  ok (
    record r {
      classification = retryable;
      next_attempt_at = d.deadline;
      state = prepared;
      origin = manual;
    },
    some d,
  )
apply_action (other_action a) r x now sample = err activity_conflict

unfoldable pub apply_activity_resolution :
    ActivityRecord
    → Resolution
    → Time
    → Option ℕ
    → Result (ActivityRecord × Option ScheduleDecision)
unfolding apply_action
apply_activity_resolution r x now sample = apply_action x.action r x now sample

abbrev pub abandon_running : ActivityRecord → ActivityRecord
abandon_running r =
    if r.state == running then record r { attempts = update_last abandoned r.attempts } else r

-- The record of prepareActivityResolutionTarget.
unfoldable pub resolve_activity :
    ActivityRecord → Resolution → ℕ → ℕ → Time → Option ℕ → Result ActivityRecord
resolve_activity r x revision incarnation now sample = do
  applied ← apply_activity_resolution (abandon_running r) x now sample
  ok (record applied.0 {
    resolutions =
        applied.0.resolutions
        ++ record {
          decision_id = x.decision_id;
          attempt = int_length applied.0.attempts;
          action = x.action;
          prior_state = r.state;
          source_revision = revision;
          incarnation = incarnation;
          reason = x.reason;
          evidence = x.evidence;
          safe_retry_contract = x.safe_retry_contract;
          retry_schedule = applied.1;
          at = now;
        }
          ∷ [];
  })
