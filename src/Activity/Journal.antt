-- ===== src/Activity/Journal.antt =====
-- The steps of an activity record (activity.go, activity_retry.go, activity_resolution.go): what
-- callActivity does with a journaled record, and what a dispatch, its failure, a reconciliation and
-- an operator's decision write. `now` is what the clock reads, `sample` what the random source
-- yields. The dispatch itself and the commits between the steps are the caller's.
use flowy.Prelude.{
  ℕ, ◌+◌, Bool, false, not, ◌||◌, List, [], ◌∷◌, ◌++◌, Option, none, some, ◌==◌, ◌!=◌, nat_eq,
  if◌then◌else◌, pos, int_eq, ltb_ℤ, leb_ℤ,
}
use flowy.Base.{
  Text, text_eq, text_discrete, Time, zero_time, is_zero, before, last?, set_last, length, Err,
  activity_conflict, activity_unknown, activity_busy, activity_retry_pending, attempts_exhausted,
  activity_failed, schedule_invalid, Result, ok, err, ◌>>◌, reject_if,
}
use flowy.Activity.Schedule.{
  RetryPolicy, ScheduleDecision, is_accepted, choose_activity_retry_schedule, policy_eq,
}
use flowy.Activity.Types.{
  no_origin, origin_eq, State, prepared, running, completed, failed, unknown, state_eq,
  FailureClass, unclassified, retryable, non_retryable, ambiguous, class_eq, Attempt,
  ActivityRecord,
}
use flowy.Activity.Integrity.{int_length}

abbrev pub rejected : Option Attempt → Bool
rejected none = false
rejected (some a) = elim a.retry_schedule [ none ↦ false | some d ↦ not (is_accepted d.rejection) ]

-- activityRecordError
state_error : State → ActivityRecord → ℕ → Err
state_error prepared r revision = activity_retry_pending r.identity r.next_attempt_at revision
state_error failed r revision =
    if rejected (last? r.attempts)
    then schedule_invalid
    else if r.classification == retryable
    then attempts_exhausted
    else activity_failed
state_error _ r revision = activity_unknown

unfoldable pub activity_record_error : ActivityRecord → ℕ → Err
unfolding state_error
activity_record_error r revision = state_error r.state r revision

unfoldable pub prepared_activity_error : ActivityRecord → ℕ → Time → Result (Unit {0})
unfolding text_discrete
prepared_activity_error r revision now = do
  reject_if (r.state == failed) (activity_record_error r revision)
  reject_if (r.state != prepared) activity_conflict
  if length r.attempts == 0 then ok tt else (do
    reject_if
        (leb_ℤ r.retry.max_attempts (int_length r.attempts)
          || r.retry.safe_retry_contract == []
          || is_zero r.next_attempt_at)
        activity_conflict
    reject_if (before now r.next_attempt_at) (activity_record_error r revision))

-- The record that callActivity adds for a key that is not journaled.
unfoldable pub new_activity_record :
    Text → Text → Text → ℕ → Text → Text → Text → RetryPolicy → ActivityRecord
new_activity_record identity execution node activation key digest implementation policy = record {
  identity = identity;
  execution_id = execution;
  node = node;
  activation = activation;
  key = key;
  input_digest = digest;
  implementation = implementation;
  state = prepared;
  outcome = [];
  origin = no_origin;
  attempts = [];
  retry = policy;
  classification = unclassified;
  next_attempt_at = zero_time;
  resolutions = [];
}

unfoldable pub start_attempt : ActivityRecord → ℕ → Time → ActivityRecord
start_attempt r incarnation now = record r {
  state = running;
  origin = no_origin;
  next_attempt_at = zero_time;
  classification = unclassified;
  attempts =
      r.attempts
      ++ record {
        number = pos (length r.attempts + 1);
        incarnation = incarnation;
        state = running;
        error = [];
        classification = unclassified;
        started_at = now;
        retry_schedule = none;
        finished_at = zero_time;
      }
        ∷ [];
}

-- What callActivity does with a journaled record.
pub data Admission : Type 0 where
  replay : Admission
  recover : Admission
  start : Admission

unfoldable pub admit_activity :
    ActivityRecord → Text → Text → RetryPolicy → ℕ → Time → Result Admission
unfolding text_discrete
admit_activity r digest implementation policy revision now = do
  reject_if (r.input_digest != digest || r.implementation != implementation || r.retry != policy)
      activity_conflict
  if r.state == completed
      then ok replay
      else if r.state == running || r.state == unknown
      then ok recover
      else (prepared_activity_error r revision now >> ok start)

-- The last attempt, updated.
abbrev pub update_last : (Attempt → Attempt) → List Attempt → List Attempt
update_last f attempts = elim (last? attempts) [
  | none ↦ attempts
  | some a ↦ set_last (f a) attempts
]

abbrev pub abandoned : Attempt → Attempt
abandoned a = record a { state = unknown; classification = ambiguous }

-- recoverActivityLocked up to its commit: a running attempt of another lease is abandoned.
unfoldable pub recover_activity : ActivityRecord → ℕ → Result ActivityRecord
recover_activity r incarnation =
    if r.state == running
    then elim (last? r.attempts) [
      | none ↦ err activity_conflict
      | some a ↦
          if a.incarnation == incarnation
          then err activity_busy
          else ok (record r {
            state = unknown;
            classification = ambiguous;
            attempts = update_last abandoned r.attempts;
          })
    ]
    else ok r

-- The schedule that a retryable failure chooses, where an attempt is left.
unfoldable pub failure_schedule : ActivityRecord → Time → Time → Option ℕ → Option ScheduleDecision
failure_schedule r now hint sample =
    if ltb_ℤ (int_length r.attempts) r.retry.max_attempts
    then some (choose_activity_retry_schedule r.retry (int_length r.attempts) now hint sample)
    else none

-- recordActivityFailure, by the class of the failure.
failure : FailureClass → ActivityRecord → Text → Time → Time → Option ℕ → ActivityRecord
failure retryable r message now hint sample =
    let chosen = failure_schedule r now hint sample in
    let attempts =
      update_last
        (λ a. record a {
          state = failed;
          error = message;
          classification = retryable;
          finished_at = now;
          retry_schedule = elim chosen [ none ↦ a.retry_schedule | some d ↦ some d ];
        })
        r.attempts in
    elim chosen [
      | none ↦ record r {
        state = failed;
        classification = retryable;
        next_attempt_at = zero_time;
        attempts = attempts;
      }
      | some d ↦ record r {
        state = if is_accepted d.rejection then prepared else failed;
        classification = retryable;
        next_attempt_at = if is_accepted d.rejection then d.deadline else zero_time;
        attempts = attempts;
      }
    ]
failure non_retryable r message now hint sample = record r {
  state = failed;
  classification = non_retryable;
  next_attempt_at = zero_time;
  attempts =
      update_last
        (λ a. record a {
          state = failed;
          error = message;
          classification = non_retryable;
          finished_at = now;
        })
        r.attempts;
}
failure class r message now hint sample = record r {
  state = unknown;
  classification = class;
  next_attempt_at = zero_time;
  attempts =
      update_last
        (λ a. record a {
          state = unknown;
          error = message;
          classification = class;
          finished_at = now;
        })
        r.attempts;
}

unfoldable pub record_activity_failure :
    ActivityRecord → Text → FailureClass → Time → Time → Option ℕ → ActivityRecord
unfolding failure
record_activity_failure r message class hint now sample = failure class r message now hint sample
