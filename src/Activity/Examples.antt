-- ===== src/Activity/Examples.antt =====
-- An activity that is started, fails and waits for its retry.
use flowy.Prelude.{
  some, ◌∷◌, ℕ, ◌+◌, ◌≡◌, refl, true, arith, [], none, ◌⊎◌, pos, if◌then◌else◌, int_eq, ℤ_discrete,
  i64, u64, quot, rem, ◌*ℤ◌, ltb_ℤ,
}
use flowy.Base.{
  Result, err, Map, lookup, fails, Text, Time, text, text_discrete, zero_time, is_zero, before, ok,
  length, schedule_time_valid, valid_runtime_text, valid_text, valid_activity_digest,
  schedule_invalid, attempts_exhausted, activity_retry_pending,
}
use flowy.Activity.Schedule.{
  exponential, RetryPolicy, validate_activity_schedule, validate_activity_retry, policy_discrete,
  choose_activity_retry_schedule, choose_hint, choose_delay, choose_deadline, select_delay,
  activity_retry_base_delay, activity_retry_jitter_width, valid_activity_retry_schedule_decision,
}
use flowy.Activity.Types.{
  Resolution, Action, complete, fail, prepared, failed, retryable, ActivityRecord, state_discrete,
  class_discrete, origin_discrete, action_discrete,
}
use flowy.Activity.Integrity.{
  valid_activity_decision_action, valid_manual_activity_origin, int_length, valid_attempts,
  validate_activity_attempt, validate_activity_decisions, valid_resolutions,
  validate_activity_record_schedules,
}
use flowy.Activity.Record.{
  validate_activity_record, valid_activity_address, validate_activity_attempt_history,
  validate_activity_record_state, valid_prepared_activity_schedule, execution_activity_journal,
  valid_journal, validate_activity_references,
}
use flowy.Activity.Journal.{
  new_activity_record, start_attempt, record_activity_failure, failure_schedule,
  prepared_activity_error,
}
use flowy.Activity.Retry.{retryable_failure_waits}
use flowy.Activity.Resolution.{
  resolve_activity, apply_activity_resolution, resolution_activity_record,
}
use flowy.Activity.Decided.{resolved_once}
use flowy.Execution.Types.{Envelope}
use flowy.Execution.Sample.{envelope}

abbrev policy : RetryPolicy
policy = record {
  label = text "http";
  max_attempts = pos 3;
  schedule = record {
    kind = exponential;
    initial_delay = pos 100;
    max_delay = pos 1000;
    multiplier = 2;
    jitter_permille = 0;
    hint_label = [];
  };
  safe_retry_contract = text "idempotent";
}

abbrev address : Text → Text → ℕ → Text → Text
address id node activation key = text "address"

abbrev digest : Text
digest = text "0123456789abcdef0123456789abcdef0123456789abcdef0123456789abcdef"

abbrev fresh : ActivityRecord
fresh =
    new_activity_record (text "address") (text "run") (text "call") 1 (text "pay") digest
      (text "v1") policy

abbrev now : Time
now = 9223372036854775808000000000 + 5

abbrev started : ActivityRecord
started = start_attempt fresh 2 now

abbrev failed_once : ActivityRecord
failed_once = record_activity_failure started (text "503") retryable zero_time now none

-- The records of these steps are what the validator accepts.
records_valid :
    (validate_activity_record address fresh ≡ ok tt)
    × (validate_activity_record address started ≡ ok tt)
    × (validate_activity_record address failed_once ≡ ok tt)
unfolding validate_activity_record valid_activity_address valid_activity_digest valid_attempts
    validate_activity_attempt validate_activity_decisions valid_resolutions
    validate_activity_record_schedules validate_activity_attempt_history
    validate_activity_record_state valid_prepared_activity_schedule new_activity_record
    start_attempt record_activity_failure failure_schedule choose_activity_retry_schedule
    choose_hint choose_delay choose_deadline select_delay activity_retry_base_delay
    activity_retry_jitter_width valid_activity_retry_schedule_decision validate_activity_retry
    validate_activity_schedule valid_runtime_text valid_text is_zero schedule_time_valid zero_time
    text_discrete policy_discrete state_discrete class_discrete origin_discrete action_discrete
    ℤ_discrete i64 u64 quot rem ◌*ℤ◌
records_valid = (refl, refl, refl)

policy_legal : validate_activity_retry policy ≡ ok tt
unfolding validate_activity_retry validate_activity_schedule valid_runtime_text valid_text
    policy_discrete text_discrete
policy_legal = refl

now_valid : schedule_time_valid now ≡ true
unfolding schedule_time_valid is_zero zero_time
now_valid = refl

one_attempt : length started.attempts ≡ 1
unfolding start_attempt new_activity_record
one_attempt = refl

retryable_failure_waits_example :
    ((failed_once.state ≡ failed)
      × ((prepared_activity_error failed_once 4 now ≡ err schedule_invalid)
          ⊎ (prepared_activity_error failed_once 4 now ≡ err attempts_exhausted)))
    ⊎ ((failed_once.state ≡ prepared)
        × (ltb_ℤ (int_length failed_once.attempts) started.retry.max_attempts ≡ true)
        × (prepared_activity_error failed_once 4 now ≡ (
            if before now failed_once.next_attempt_at
            then err (activity_retry_pending started.identity failed_once.next_attempt_at 4)
            else ok tt)))
unfolding start_attempt new_activity_record
retryable_failure_waits_example =
    retryable_failure_waits started 0 (text "503") zero_time now now none 4 one_attempt policy_legal
      (omega arith) now_valid

abbrev decision_of : Action → Text → Resolution
decision_of action id = record {
  identity = text "address";
  input_digest = digest;
  implementation = text "v1";
  decision_id = id;
  action = action;
  reason = text "seen at the provider";
  evidence = text "ticket 7";
  outcome = [];
  safe_retry_contract = [];
  not_before = zero_time;
}

abbrev value_of : Result ActivityRecord → ActivityRecord
value_of (ok r) = r
value_of (err e) = fresh

abbrev closed : ActivityRecord
closed = value_of (resolve_activity started (decision_of complete (text "d1")) 4 3 now none)

closed_by : resolve_activity started (decision_of complete (text "d1")) 4 3 now none ≡ ok closed
unfolding resolve_activity apply_activity_resolution start_attempt new_activity_record is_zero
    zero_time text_discrete state_discrete
closed_by = refl

closed_found : lookup (text "address") ((text "address", closed) ∷ []) ≡ some closed
unfolding lookup text_discrete
closed_found = refl

abbrev later : Envelope
later = record envelope { revision = 5 }

abbrev journal : Map ActivityRecord
journal = (text "address", closed) ∷ []

journal_read : execution_activity_journal address later journal ≡ ok journal
unfolding execution_activity_journal validate_activity_record valid_activity_address
    validate_activity_attempt_history validate_activity_attempt validate_activity_record_state
    valid_prepared_activity_schedule valid_attempts valid_activity_decision_action
    valid_manual_activity_origin validate_activity_decisions valid_resolutions
    validate_activity_record_schedules resolve_activity apply_activity_resolution start_attempt
    new_activity_record validate_activity_retry validate_activity_schedule policy_discrete is_zero
    zero_time text_discrete state_discrete class_discrete origin_discrete action_discrete
    valid_activity_digest valid_runtime_text valid_text schedule_time_valid
    validate_activity_references valid_journal ℤ_discrete lookup
journal_read = refl

resolved_once_example :
    fails (resolution_activity_record address later journal (decision_of fail (text "d2"))) ≡ true
resolved_once_example =
    resolved_once address started closed (decision_of complete (text "d1"))
      (decision_of fail (text "d2")) 4 3 now none later journal closed_by closed_found
