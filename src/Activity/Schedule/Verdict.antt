-- ===== src/Activity/Schedule/Verdict.antt =====
-- What the validator of persisted journals says of a schedule decision that was just chosen
-- (activity_schedule.go).
use flowy.Prelude.{
  ℕ, suc, ◌≡◌, true, false, not, ◌&&◌, arith, pos, ltb_ℤ, leb_ℤ, Bool-cases, inl, inr, Option, some,
}
use flowy.Base.{Time, fails, ok_of_not-fails, schedule_time_valid}
use flowy.Activity.Schedule.{
  RetryPolicy, validate_activity_retry, choose_activity_retry_schedule,
  valid_activity_retry_schedule_decision,
}
use flowy.Activity.Schedule.Delay.{Fits}
use flowy.Activity.Schedule.Choice.{choose-valid}

module _ (p : RetryPolicy) (n : ℕ) (at hint : Time) (sample : Option ℕ) where
  invalid_policy :
      fails (validate_activity_retry p) ≡ true
      → valid_activity_retry_schedule_decision p
          (some (choose_activity_retry_schedule p (pos (suc n)) at hint sample))
        ≡ false
  unfolding choose_activity_retry_schedule valid_activity_retry_schedule_decision
  invalid_policy bad = ground (arith, bad)

  last_attempt :
      ltb_ℤ (pos (suc n)) p.max_attempts ≡ false
      → valid_activity_retry_schedule_decision p
          (some (choose_activity_retry_schedule p (pos (suc n)) at hint sample))
        ≡ false
  unfolding choose_activity_retry_schedule valid_activity_retry_schedule_decision
  last_attempt bad =
      let over : leb_ℤ p.max_attempts (pos (suc n)) ≡ true = ground (arith, bad) in
      ground (arith, over)

  invalid_clock :
      schedule_time_valid at ≡ false
      → valid_activity_retry_schedule_decision p
          (some (choose_activity_retry_schedule p (pos (suc n)) at hint sample))
        ≡ false
  unfolding choose_activity_retry_schedule valid_activity_retry_schedule_decision
  invalid_clock bad = ground (arith, bad)

  -- The validator of persisted journals accepts the decision that is chosen after a retryable failure
  -- exactly if the policy is valid, the attempt is not the last one that it allows and the clock is in
  -- the years 1 to 9999, whatever the hint and the random source yield: it accepts a deadline and the
  -- rejections for the hint, the random source and the deadline, and refuses those for the policy and
  -- the clock. The maximal delay fits an int64.
  pub choose-valid_exactly :
      Fits p.schedule.max_delay
      → valid_activity_retry_schedule_decision p
          (some (choose_activity_retry_schedule p (pos (suc n)) at hint sample))
        ≡ (not (fails (validate_activity_retry p))
            && ltb_ℤ (pos (suc n)) p.max_attempts
            && schedule_time_valid at)
  choose-valid_exactly fits = elim (Bool-cases (fails (validate_activity_retry p))) [
    | inl bad ↦ rw (bad) (invalid_policy bad)
    | inr valid ↦ elim (Bool-cases (ltb_ℤ (pos (suc n)) p.max_attempts)) [
      | inr last ↦ rw (valid, last) (last_attempt last)
      | inl more ↦ elim (Bool-cases (schedule_time_valid at)) [
        | inr bad ↦ rw (valid, more, bad) (invalid_clock bad)
        | inl now_valid ↦
            rw (valid, more, now_valid)
              (choose-valid p n at hint sample (ok_of_not-fails (validate_activity_retry p) valid)
                fits more now_valid)
      ]
    ]
  ]
