-- ===== src/Activity/Retry.antt =====
-- What a failed attempt leads to: no dispatch before the deadline that was persisted.
use flowy.Prelude.{
  ℕ, suc, ◌≡◌, refl, true, false, List, [], ◌∷◌, Option, some, ◌==◌, nat_eq, if◌then◌else◌, arith,
  pos, ltb_ℤ, Bool-cases, inl, inr, Option-cases, ◌⊎◌, subst, ◌∙◌,
}
use flowy.Base.{
  Text, text_eq, Time, is_zero, before, last?, set_last, length, schedule_time_valid, ok, err,
  activity_retry_pending, attempts_exhausted, schedule_invalid,
}
use flowy.Activity.Schedule.{
  RetryPolicy, ScheduleDecision, is_accepted, validate_activity_retry,
  choose_activity_retry_schedule, valid_activity_retry_schedule_decision,
}
use flowy.Activity.Schedule.Delay.{Fits}
use flowy.Activity.Schedule.Choice.{choose-valid}
use flowy.Activity.Types.{prepared, failed, state_eq, retryable, Attempt, ActivityRecord}
use flowy.Activity.Integrity.{int_length}
use flowy.Activity.Journal.{
  activity_record_error, prepared_activity_error, record_activity_failure, failure_schedule,
  update_last, rejected,
}

length-set_last {ℓ} : {A : Type ℓ} (a : A) (xs : List A) → length (set_last a xs) ≡ length xs
length-set_last a [] = refl
length-set_last a (x ∷ []) = refl
length-set_last a (x ∷ y ∷ xs) = omega (arith, length-set_last a (y ∷ xs))

length-update_last :
    (f : Attempt → Attempt) (xs : List Attempt) → length (update_last f xs) ≡ length xs
length-update_last f xs = elim (Option-cases (last? xs)) [
  | inl e ↦ ground (arith, e)
  | inr (a, e) ↦ ground (arith, e, length-set_last (f a) xs)
]

deadline_set :
    (p : RetryPolicy) (d : ScheduleDecision)
    → valid_activity_retry_schedule_decision p (some d) ≡ true
    → is_accepted d.rejection ≡ true
    → is_zero d.deadline ≡ false
unfolding valid_activity_retry_schedule_decision schedule_time_valid
deadline_set p d v a = ground (arith, v, a)

contract_set :
    (p : RetryPolicy) (n : ℕ)
    → validate_activity_retry p ≡ ok tt
    → ltb_ℤ (pos (suc n)) p.max_attempts ≡ true
    → (p.safe_retry_contract == []) ≡ false
unfolding validate_activity_retry
contract_set p n valid more = ground arith

admitted :
    (t : ActivityRecord) (n revision : ℕ) (later : Time)
    → t.state ≡ prepared
    → length t.attempts ≡ suc n
    → ltb_ℤ (int_length t.attempts) t.retry.max_attempts ≡ true
    → (t.retry.safe_retry_contract == []) ≡ false
    → is_zero t.next_attempt_at ≡ false
    → prepared_activity_error t revision later ≡ (
        if before later t.next_attempt_at
        then err (activity_retry_pending t.identity t.next_attempt_at revision)
        else ok tt)
unfolding prepared_activity_error activity_record_error
admitted t n revision later state count more contract set = ground arith

module _ (r : ActivityRecord) (n : ℕ) (message : Text) (hint now : Time) (sample : Option ℕ) where
  abbrev after_failure : ActivityRecord
  after_failure = record_activity_failure r message retryable hint now sample

  attempts_kept : length after_failure.attempts ≡ length r.attempts
  unfolding record_activity_failure failure_schedule
  attempts_kept = grind (arith, length-update_last)

  abbrev choice : ScheduleDecision
  choice = choose_activity_retry_schedule r.retry (pos (suc n)) now hint sample

  class_kept : after_failure.classification ≡ retryable
  unfolding record_activity_failure failure_schedule
  class_kept = ground arith

  ended :
      (revision : ℕ) (later : Time)
      → after_failure.state ≡ failed
      → (prepared_activity_error after_failure revision later ≡ err schedule_invalid)
        ⊎ (prepared_activity_error after_failure revision later ≡ err attempts_exhausted)
  unfolding prepared_activity_error activity_record_error
  ended revision later e = elim (Bool-cases (rejected (last? after_failure.attempts))) [
    | inl b ↦ inl (ground (arith, e, b))
    | inr b ↦ inr (ground (arith, e, b, class_kept))
  ]

  -- The cases of the failure.
  module _ (count : length r.attempts ≡ suc n) where
    no_attempt_left :
        ltb_ℤ (pos (suc n)) r.retry.max_attempts ≡ false → after_failure.state ≡ failed
    unfolding record_activity_failure failure_schedule
    no_attempt_left e = ground (arith, count, e)

    refused : is_accepted choice.rejection ≡ false → after_failure.state ≡ failed
    unfolding record_activity_failure failure_schedule
    refused e = ground (arith, count, e)

    waiting :
        ltb_ℤ (pos (suc n)) r.retry.max_attempts ≡ true
        → is_accepted choice.rejection ≡ true
        → (after_failure.state ≡ prepared)
          × (after_failure.next_attempt_at ≡ choice.deadline)
          × (after_failure.retry ≡ r.retry)
          × (after_failure.identity ≡ r.identity)
    unfolding record_activity_failure failure_schedule
    waiting more e = (
      ground (arith, count, e, more),
      ground (arith, count, e, more),
      ground (arith, count, e, more),
      ground (arith, count, e, more),
    )

    waits :
        validate_activity_retry r.retry ≡ ok tt
        → Fits r.retry.schedule.max_delay
        → schedule_time_valid now ≡ true
        → ltb_ℤ (pos (suc n)) r.retry.max_attempts ≡ true
        → is_accepted choice.rejection ≡ true
        → (revision : ℕ) (later : Time)
        → let t = after_failure in
          (t.state ≡ prepared)
          × (ltb_ℤ (int_length t.attempts) r.retry.max_attempts ≡ true)
          × (prepared_activity_error t revision later ≡ (
              if before later t.next_attempt_at
              then err (activity_retry_pending r.identity t.next_attempt_at revision)
              else ok tt))
    waits valid fits clock more good revision later =
        let (state, at, policy, id) = waiting more good in
        let kept = attempts_kept in
        let chosen = choose-valid r.retry n now hint sample valid fits more clock in
        let set = deadline_set r.retry choice chosen good in
        let t = after_failure in
        let contract = contract_set r.retry n valid more in
        (
          state,
          ground (arith, kept, count, more),
          subst
              (λ i. prepared_activity_error t revision later ≡ (
                if before later t.next_attempt_at
                then err (activity_retry_pending i t.next_attempt_at revision)
                else ok tt))
              id
              (admitted t n revision later state (kept ∙ count)
                (ground (arith, kept, count, more, policy)) (ground (arith, contract, policy))
                (ground (arith, set, at))),
        )

-- A retryable failure under a valid policy, at a clock reading in the years 1 to 9999, either ends the
-- activity or makes it wait. If it ends, every later call of the activity is refused, for the schedule
-- or because the attempts are used up. If it waits, an attempt is left, and a later call is refused
-- with the persisted deadline for as long as the clock is before it, and admitted from then on. The
-- record has at least one attempt, and the maximal delay fits an int64.
pub retryable_failure_waits :
    (r : ActivityRecord) (n : ℕ) (message : Text) (hint now later : Time) (sample : Option ℕ)
    (revision : ℕ)
    → length r.attempts ≡ suc n
    → validate_activity_retry r.retry ≡ ok tt
    → Fits r.retry.schedule.max_delay
    → schedule_time_valid now ≡ true
    → let t = record_activity_failure r message retryable hint now sample in
      ((t.state ≡ failed)
        × ((prepared_activity_error t revision later ≡ err schedule_invalid)
            ⊎ (prepared_activity_error t revision later ≡ err attempts_exhausted)))
      ⊎ ((t.state ≡ prepared)
          × (ltb_ℤ (int_length t.attempts) r.retry.max_attempts ≡ true)
          × (prepared_activity_error t revision later ≡ (
              if before later t.next_attempt_at
              then err (activity_retry_pending r.identity t.next_attempt_at revision)
              else ok tt)))
retryable_failure_waits r n message hint now later sample revision count valid fits clock =
    elim (Bool-cases (ltb_ℤ (pos (suc n)) r.retry.max_attempts)) [
      | inl more ↦ elim (Bool-cases (is_accepted (choice r n message hint now sample).rejection)) [
        | inl good ↦
            inr (waits r n message hint now sample count valid fits clock more good revision later)
        | inr bad ↦
            let e = refused r n message hint now sample count bad in
            inl (e, ended r n message hint now sample revision later e)
      ]
      | inr bad ↦
          let e = no_attempt_left r n message hint now sample count bad in
          inl (e, ended r n message hint now sample revision later e)
    ]
