-- ===== src/Activity/Schedule/Examples.antt =====
-- Retry schedules of concrete policies.
use flowy.Prelude.{
  ◌+◌, ◌-◌, ◌*◌, ◌/◌, ◌≤◌, ◌<◌, ◌≡◌, refl, true, arith, some, pos, i64_half, ◌⊎◌, subst, i64, u64,
  quot, rem, ◌*ℤ◌, not, ◌&&◌, ltb_ℤ,
}
use flowy.Base.{
  Time, fails, text, text_discrete, zero_time, is_zero, ok, schedule_time_valid, valid_runtime_text,
  valid_text,
}
use flowy.Activity.Schedule.{
  exponential, RetrySchedule, RetryPolicy, ScheduleDecision, accepted, validate_activity_schedule,
  validate_activity_retry, activity_retry_base_delay, activity_retry_jitter_width,
  choose_activity_retry_schedule, choose_hint, choose_delay, choose_deadline, select_delay,
  valid_activity_retry_schedule_decision, policy_discrete,
}
use flowy.Activity.Schedule.Delay.{backoff, base_delay-eq-backoff, jitter_width-eq-share}
use flowy.Activity.Schedule.Choice.{choose-valid}
use flowy.Activity.Schedule.Verdict.{choose-valid_exactly}
use flowy.Activity.Schedule.Bounds.{valid_deadline_bounds}

abbrev doubling : RetrySchedule
doubling = record {
  kind = exponential;
  initial_delay = pos 100;
  max_delay = pos 1000;
  multiplier = 2;
  jitter_permille = 200;
  hint_label = text "retry-after";
}

abbrev policy : RetryPolicy
policy = record {
  label = text "http";
  max_attempts = pos 5;
  schedule = doubling;
  safe_retry_contract = text "idempotent";
}

-- A second after the zero time.
abbrev start : Time
start = 9223372036854775808000000000 + 1000000000

doubling_legal : validate_activity_schedule doubling ≡ ok tt
unfolding validate_activity_schedule valid_runtime_text valid_text
doubling_legal = refl

policy_legal : validate_activity_retry policy ≡ ok tt
unfolding validate_activity_retry validate_activity_schedule valid_runtime_text valid_text
    policy_discrete text_discrete
policy_legal = refl

max_fits : 1000 < i64_half
max_fits = omega arith

start_valid : schedule_time_valid start ≡ true
unfolding schedule_time_valid is_zero zero_time
start_valid = refl

base_delay-eq-backoff_example :
    activity_retry_base_delay doubling (pos 4) ≡ pos (backoff doubling 3)
base_delay-eq-backoff_example = base_delay-eq-backoff doubling 3 doubling_legal max_fits

jitter_width-eq-share_example : activity_retry_jitter_width (pos 1234) 200 ≡ pos (1234 * 200 / 1000)
jitter_width-eq-share_example = jitter_width-eq-share 1234 200 (omega arith) (omega arith)

choose-valid_exactly_example :
    valid_activity_retry_schedule_decision policy
      (some (choose_activity_retry_schedule policy (pos 3) start zero_time (some 77)))
    ≡ (not (fails (validate_activity_retry policy))
        && ltb_ℤ (pos 3) policy.max_attempts
        && schedule_time_valid start)
choose-valid_exactly_example = choose-valid_exactly policy 2 start zero_time (some 77) max_fits

-- The decision that `choose-valid_exactly_example` is about: 400 less a jitter of 77.
abbrev decision : ScheduleDecision
decision = record {
  attempt = pos 3;
  prepared_at = start;
  base_delay = pos 400;
  selected_delay = pos 323;
  not_before = zero_time;
  deadline = 9223372036854775808000000000 + 1000000323;
  rejection = accepted;
}

decision_chosen : choose_activity_retry_schedule policy (pos 3) start zero_time (some 77) ≡ decision
unfolding choose_activity_retry_schedule choose_hint choose_delay choose_deadline select_delay
    activity_retry_base_delay activity_retry_jitter_width validate_activity_retry
    validate_activity_schedule valid_runtime_text valid_text is_zero schedule_time_valid zero_time
    text_discrete policy_discrete i64 u64 quot rem ◌*ℤ◌
decision_chosen = refl

valid_deadline_bounds_example :
    let b = backoff doubling 2 in
    (start + (b - b * 200 / 1000) ≤ decision.deadline)
    × (decision.not_before ≤ decision.deadline)
    × ((decision.deadline ≤ start + b) ⊎ (decision.deadline ≡ decision.not_before))
valid_deadline_bounds_example = valid_deadline_bounds policy 2 decision max_fits refl refl (
    subst (λ d. valid_activity_retry_schedule_decision policy (some d) ≡ true) decision_chosen
      (choose-valid policy 2 start zero_time (some 77) policy_legal max_fits refl start_valid))
