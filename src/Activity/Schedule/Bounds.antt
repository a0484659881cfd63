-- ===== src/Activity/Schedule/Bounds.antt =====
-- Where the deadline of an accepted schedule lies.
use flowy.Prelude.{
  ℕ, suc, ◌+◌, ◌-◌, ◌*◌, ◌/◌, ◌≤◌, ◌<◌, ◌≡◌, Bool, true, false, arith, pos, i64, ◌-ℤ◌, ltb_ℤ,
  i64_half, ◌&&◌, eq_of_==, nat_eq, ◌⊎◌, ◌==◌, some, if◌then◌else◌,
}
use flowy.Base.{ok_of_not-fails, text_eq, fails, Time, ok, schedule_time_valid}
use flowy.Activity.Schedule.{
  RetryPolicy, ScheduleDecision, expected_deadline, valid_accepted, valid_decision, accepted,
  validate_activity_retry, validate_activity_schedule, activity_retry_base_delay,
  activity_retry_jitter_width, valid_activity_retry_schedule_decision,
}
use flowy.Activity.Schedule.Delay.{
  Fits, IsSound, validate-IsSound, backoff, base_delay-eq-backoff, jitter_width-eq-share, i64-pos,
}
use flowy.Activity.Schedule.Choice.{backoff-le-max, share-le, schedule_of_retry}

if_false : (t u : Bool) → (if t then false else u) ≡ true → u ≡ true
if_false true u h = cc
if_false false u h = h

and_last : (b : Bool) (x y : Time) → (b && x == y) ≡ true → x ≡ y
and_last true x y h = eq_of_== x y h
and_last false x y h = cc

accepted_part :
    (p : RetryPolicy) (d : ScheduleDecision)
    → d.rejection ≡ accepted
    → valid_decision p d ≡ true
    → valid_accepted p d ≡ true
accepted_part p d passed h = ground arith

module _ (p : RetryPolicy) (n : ℕ) (d : ScheduleDecision) (attempt : d.attempt ≡ pos (suc n))
    (valid : valid_activity_retry_schedule_decision p (some d) ≡ true) where
  policy_of_decision : fails (validate_activity_retry p) ≡ false
  unfolding valid_activity_retry_schedule_decision
  policy_of_decision = ground arith

  room_of_decision : ltb_ℤ (pos (suc n)) p.max_attempts ≡ true
  unfolding valid_activity_retry_schedule_decision
  room_of_decision = ground arith

  module _ (passed : d.rejection ≡ accepted) where
    accepted_of_decision : valid_accepted p d ≡ true
    unfolding valid_activity_retry_schedule_decision
    accepted_of_decision = accepted_part p d passed valid

    deadline_of_decision : expected_deadline d ≡ d.deadline
    unfolding valid_accepted
    deadline_of_decision =
        and_last (schedule_time_valid d.deadline) (expected_deadline d) d.deadline
          (if_false _ _ (if_false _ _ accepted_of_decision))

    low_of_decision :
        ltb_ℤ d.selected_delay (
          i64 (
            activity_retry_base_delay p.schedule (pos (suc n))
            -ℤ activity_retry_jitter_width
                (activity_retry_base_delay p.schedule (pos (suc n)))
                p.schedule.jitter_permille))
        ≡ false
    unfolding valid_activity_retry_schedule_decision
    low_of_decision = ground arith

    high_of_decision :
        ltb_ℤ (activity_retry_base_delay p.schedule (pos (suc n))) d.selected_delay ≡ false
    unfolding valid_activity_retry_schedule_decision
    high_of_decision = ground arith

    sign_of_decision : ltb_ℤ d.selected_delay (pos 0) ≡ false
    unfolding valid_activity_retry_schedule_decision
    sign_of_decision = ground arith

-- An accepted decision that the validator passes lies where the policy says: no earlier than the
-- backoff of its attempt less the jitter share, and no earlier than the hint; and no later than
-- the full backoff, unless it is the hint itself. The maximal delay fits an int64.
pub valid_deadline_bounds :
    (p : RetryPolicy) (n : ℕ) (d : ScheduleDecision)
    → Fits p.schedule.max_delay
    → d.attempt ≡ pos (suc n)
    → d.rejection ≡ accepted
    → valid_activity_retry_schedule_decision p (some d) ≡ true
    → let b = backoff p.schedule n in
      (d.prepared_at + (b - b * p.schedule.jitter_permille / 1000) ≤ d.deadline)
      × (d.not_before ≤ d.deadline)
      × ((d.deadline ≤ d.prepared_at + b) ⊎ (d.deadline ≡ d.not_before))
valid_deadline_bounds p n d fits attempt passed valid =
    let s = p.schedule in
    let policy_ok =
      ok_of_not-fails (validate_activity_retry p) (policy_of_decision p n d attempt valid) in
    let legal : validate_activity_schedule s ≡ ok tt =
      schedule_of_retry p n policy_ok (room_of_decision p n d attempt valid) in
    let sound : IsSound s = validate-IsSound s legal in
    let base = base_delay-eq-backoff s n legal fits in
    let small : backoff s n < i64_half = omega (arith, backoff-le-max s n sound) in
    let width = jitter_width-eq-share (backoff s n) s.jitter_permille small sound.jitter in
    let le = share-le (backoff s n) s.jitter_permille sound.jitter in
    ground (
      arith,
      base,
      width,
      le,
      i64-pos (backoff s n - backoff s n * s.jitter_permille / 1000) (omega arith),
      deadline_of_decision p n d attempt valid passed,
      low_of_decision p n d attempt valid passed,
      high_of_decision p n d attempt valid passed,
      sign_of_decision p n d attempt valid passed,
    )
