-- ===== src/Activity/Schedule/Choice.antt =====
-- What a chosen schedule promises: the validator of persisted journals accepts it.
use native.Mathlib.Nat.{mod-lt, mod-eq_of_lt}
use flowy.Prelude.{
  ℕ, suc, ◌+◌, ◌-◌, ◌*◌, ◌/◌, ◌%◌, ◌≤◌, ◌<◌, ◌≡◌, refl, true, ltb, arith, pos, ltb_ℤ, i64_half,
  i64_mod, pos_part, Bool-cases, nat_eq, ◌==◌, [], ltb→lt, not_ltb→le, inl, inr, Option, none, some,
}
use flowy.Base.{text_eq, Time, ok, schedule_time_valid, is_zero, zero_time}
use flowy.Activity.Schedule.{
  RetryPolicy, RetrySchedule, ScheduleDecision, accepted, random, hint_time, hint_label,
  choose_hint, validate_activity_retry, validate_activity_schedule, activity_retry_base_delay,
  activity_retry_jitter_width, choose_delay, choose_deadline, valid_activity_schedule_hint,
  choose_activity_retry_schedule, valid_activity_retry_schedule_decision, select_delay,
}
use flowy.Activity.Schedule.Delay.{
  Fits, IsSound, validate-IsSound, backoff, base_delay-eq-backoff, jitter_width-eq-share, i64-pos,
  u64-pos,
}

pub backoff-le-max : (s : RetrySchedule) (n : ℕ) → IsSound s → backoff s n ≤ pos_part s.max_delay
unfolding backoff
backoff-le-max s n v = ground arith

pub share-le : (b p : ℕ) → p ≤ 1000 → b * p / 1000 ≤ b
share-le b p h = grind arith

-- The selected delay lies between the base less the width and the base.
select_delay-pos :
    (b w value : ℕ)
    → w ≤ b
    → b < i64_half
    → select_delay (pos b) (pos w) value ≡ pos (b - value % (w + 1))
unfolding select_delay
select_delay-pos b w value le fits =
    let small : (w + 1) % i64_mod ≡ w + 1 = mod-eq_of_lt (omega arith) in
    let below : value % (w + 1) < w + 1 = mod-lt value (omega arith) in
    rw (u64-pos w (omega arith), small, i64-pos (value % (w + 1)) (omega arith))
      (ground (arith, i64-pos (b - value % (w + 1)) (omega arith)))

-- A policy that allows a second attempt has a valid schedule.
pub schedule_of_retry :
    (p : RetryPolicy) (n : ℕ)
    → validate_activity_retry p ≡ ok tt
    → ltb_ℤ (pos (suc n)) p.max_attempts ≡ true
    → validate_activity_schedule p.schedule ≡ ok tt
unfolding validate_activity_retry
schedule_of_retry p n valid more = ground arith

zero_not_valid : is_zero zero_time ≡ true
unfolding is_zero
zero_not_valid = refl

module _ (p : RetryPolicy) (n b w : ℕ) (valid : validate_activity_retry p ≡ ok tt)
    (more : ltb_ℤ (pos (suc n)) p.max_attempts ≡ true)
    (base : activity_retry_base_delay p.schedule (pos (suc n)) ≡ pos b)
    (width : activity_retry_jitter_width (pos b) p.schedule.jitter_permille ≡ pos w) (le : w ≤ b)
    (fits : b < i64_half) (at hint : Time) (now_valid : schedule_time_valid at ≡ true) where
  -- What the steps before the deadline have settled.
  record IsDelayed (d : ScheduleDecision) : Type 0 where
    attempted : d.attempt ≡ pos (suc n)
    prepared : d.prepared_at ≡ at
    based : d.base_delay ≡ pos b
    open_deadline : is_zero d.deadline ≡ true
    not_rejected : d.rejection ≡ accepted
    hinted : valid_activity_schedule_hint p d.not_before ≡ true

  deadline_valid :
      (d : ScheduleDecision) (s : ℕ)
      → IsDelayed d
      → d.selected_delay ≡ pos s
      → b ≤ s + w
      → s ≤ b
      → valid_activity_retry_schedule_decision p (some (choose_deadline d at)) ≡ true
  unfolding choose_deadline valid_activity_retry_schedule_decision
  deadline_valid d s h selected low high = ground (arith, i64-pos (b - w))

  random_valid :
      (d : ScheduleDecision)
      → IsDelayed d
      → d.selected_delay ≡ pos b
      → 0 < w
      → valid_activity_retry_schedule_decision p (some (record d { rejection = random })) ≡ true
  unfolding valid_activity_retry_schedule_decision
  random_valid d h e positive = ground arith

  positive_width :
      (d : ScheduleDecision) (sample : Option ℕ)
      → IsDelayed d
      → d.selected_delay ≡ pos b
      → 0 < w
      → valid_activity_retry_schedule_decision p (some (choose_delay p d at sample)) ≡ true
  unfolding choose_delay
  positive_width d none h e positive =
      rw (h.based, width) (ground (arith, random_valid d h e positive))
  positive_width d (some value) h e positive =
      let drawn : ScheduleDecision = record d {
        selected_delay = select_delay (pos b) (pos w) value;
      } in
      let settled : IsDelayed drawn = record {
        attempted = h.attempted;
        prepared = h.prepared;
        based = h.based;
        open_deadline = h.open_deadline;
        not_rejected = h.not_rejected;
        hinted = h.hinted;
      } in
      let low : b ≤ b - value % (w + 1) + w = omega (arith, mod-lt value {m = w + 1}) in
      rw (h.based, width)
        (ground (
          arith,
          deadline_valid drawn (b - value % (w + 1)) settled (select_delay-pos b w value le fits)
              low (omega arith),
        ))

  delay_valid :
      (d : ScheduleDecision) (sample : Option ℕ)
      → IsDelayed d
      → d.selected_delay ≡ pos b
      → valid_activity_retry_schedule_decision p (some (choose_delay p d at sample)) ≡ true
  unfolding choose_delay
  delay_valid d sample h e = elim (Bool-cases (ltb 0 w)) [
    | inl drawn ↦ positive_width d sample h e (ltb→lt 0 w drawn)
    | inr none_drawn ↦
        ground
          (arith, deadline_valid d b h e (omega arith) (omega arith), not_ltb→le 0 w none_drawn)
  ]

  hint_time_valid :
      (d : ScheduleDecision)
      → IsDelayed d
      → d.selected_delay ≡ pos b
      → is_zero d.not_before ≡ true
      → valid_activity_retry_schedule_decision p (some (record d { rejection = hint_time })) ≡ true
  unfolding valid_activity_retry_schedule_decision
  hint_time_valid d h e z = ground arith

  hint_label_valid :
      (d : ScheduleDecision)
      → IsDelayed d
      → d.selected_delay ≡ pos b
      → schedule_time_valid hint ≡ true
      → (p.schedule.hint_label == []) ≡ true
      → valid_activity_retry_schedule_decision p
          (some (record d { not_before = hint; rejection = hint_label }))
        ≡ true
  unfolding valid_activity_retry_schedule_decision
  hint_label_valid d h e v l = ground arith

  hint_valid :
      (d : ScheduleDecision) (sample : Option ℕ)
      → IsDelayed d
      → d.selected_delay ≡ pos b
      → is_zero d.not_before ≡ true
      → valid_activity_retry_schedule_decision p (some (choose_hint p d at hint sample)) ≡ true
  unfolding choose_hint
  hint_valid d sample h e z =
      let hinted : ScheduleDecision = record d { not_before = hint } in
      let settled : valid_activity_schedule_hint p hint ≡ true → IsDelayed hinted = λ v. record {
        attempted = h.attempted;
        prepared = h.prepared;
        based = h.based;
        open_deadline = h.open_deadline;
        not_rejected = h.not_rejected;
        hinted = v;
      } in
      let go : valid_activity_schedule_hint p hint ≡ true
          → valid_activity_retry_schedule_decision p (some (choose_delay p hinted at sample))
            ≡ true =
        λ v. delay_valid hinted sample (settled v) e in
      ground (arith, delay_valid d sample h e, hint_time_valid d h e z, hint_label_valid d h e, go)

-- Under a valid policy, at a clock reading in the years 1 to 9999, an attempt that is not the last one.
pub choose-valid :
    (p : RetryPolicy) (n : ℕ) (at hint : Time) (sample : Option ℕ)
    → validate_activity_retry p ≡ ok tt
    → Fits p.schedule.max_delay
    → ltb_ℤ (pos (suc n)) p.max_attempts ≡ true
    → schedule_time_valid at ≡ true
    → valid_activity_retry_schedule_decision p
        (some (choose_activity_retry_schedule p (pos (suc n)) at hint sample))
      ≡ true
unfolding choose_activity_retry_schedule
choose-valid p n at hint sample valid fits more now_valid =
    let s = p.schedule in
    let legal : validate_activity_schedule s ≡ ok tt = schedule_of_retry p n valid more in
    let sound : IsSound s = validate-IsSound s legal in
    let b : ℕ = backoff s n in
    let base = base_delay-eq-backoff s n legal fits in
    let small : b < i64_half = omega (arith, backoff-le-max s n sound) in
    let width = jitter_width-eq-share b s.jitter_permille small sound.jitter in
    let le = share-le b s.jitter_permille sound.jitter in
    let start : ScheduleDecision = record {
      attempt = pos (suc n);
      prepared_at = at;
      base_delay = activity_retry_base_delay s (pos (suc n));
      selected_delay = activity_retry_base_delay s (pos (suc n));
      not_before = zero_time;
      deadline = zero_time;
      rejection = accepted;
    } in
    let settled : IsDelayed p n b (b * s.jitter_permille / 1000) valid more base width le small at
        hint now_valid start =
      record {
        attempted = refl;
        prepared = refl;
        based = base;
        open_deadline = zero_not_valid;
        not_rejected = refl;
        hinted = ground (arith, zero_not_valid);
      } in
    ground (
      arith,
      hint_valid p n b (b * s.jitter_permille / 1000) valid more base width le small at hint
          now_valid start sample settled base zero_not_valid,
    )
