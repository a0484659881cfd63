-- ===== src/Activity/Schedule.antt =====
-- activity_schedule.go and the policy of activity_retry.go: the persisted retry schedule, and the
-- decision that a failed attempt records. The random source is the sample that it yields, `none`
-- where it panics.
pub mod Delay
pub mod Choice
pub mod Verdict
pub mod Bounds
pub mod Examples
use flowy.Prelude.{
  ℕ, zero, suc, ◌+◌, ◌-◌, ◌%◌, Bool, true, false, not, ◌&&◌, ◌||◌, [], ◌∷◌, Option, none, some, ltb,
  leb, ◌==◌, ◌!=◌, Eq, nat_eq, eq_of_discrete, if◌then◌else◌, ℕ_discrete, ℤ, pos, negsuc, int_eq,
  ltb_ℤ, leb_ℤ, i64, u64, ◌+ℤ◌, ◌-ℤ◌, ◌*ℤ◌, quot, rem, i64_mod, ℤ_discrete, pos_part,
}
use flowy.Base.{
  Text, text_eq, text_discrete, valid_runtime_text, Time, is_zero, before, after, add, zero_time,
  schedule_time_valid, Err, schedule_invalid, execution_capability, Result, ok, err, ◌>>◌, ◌>>=◌,
  reject_if, joining, fails,
}

pub data ScheduleKind : Type 0 where
  fixed exponential : ScheduleKind
  other_kind : Text → ScheduleKind

-- ActivityRetrySchedule; the delays are time.Duration, an int64.
pub record RetrySchedule : Type 0 where
  pub kind : ScheduleKind
  pub initial_delay : ℤ
  pub max_delay : ℤ
  pub multiplier : ℕ  -- uint64
  pub jitter_permille : ℕ  -- uint16
  pub hint_label : Text

-- ActivityRetryPolicy
pub record RetryPolicy : Type 0 where
  pub label : Text
  pub max_attempts : ℤ
  pub schedule : RetrySchedule
  pub safe_retry_contract : Text

-- The strings of ActivityRetryScheduleDecision.Rejection; `accepted` is the empty one.
pub data Rejection : Type 0 where
  accepted policy clock hint_time hint_label random deadline : Rejection
  other_rejection : Text → Rejection

-- ActivityRetryScheduleDecision
pub record ScheduleDecision : Type 0 where
  pub attempt : ℤ
  pub prepared_at : Time
  pub base_delay : ℤ
  pub selected_delay : ℤ
  pub not_before : Time
  pub deadline : Time
  pub rejection : Rejection

unfoldable pub policy_discrete : Discrete RetryPolicy
unfolding ℕ_discrete ℤ_discrete
policy_discrete = hlevel (ℕ_discrete, ℤ_discrete)

instance abbrev pub policy_eq : Eq RetryPolicy
policy_eq = eq_of_discrete policy_discrete

abbrev pub retry_jitter_denominator : ℕ
retry_jitter_denominator = 1000

valid_kind : ScheduleKind → RetrySchedule → Bool
unfolding ℤ_discrete
valid_kind fixed s = not (s.multiplier != 0 || s.max_delay != s.initial_delay)
valid_kind exponential s = not (leb_ℤ s.initial_delay (pos 0) || ltb s.multiplier 2)
valid_kind (other_kind k) s = false

unfoldable pub validate_activity_schedule : RetrySchedule → Result (Unit {0})
unfolding valid_kind
validate_activity_schedule s = do
  reject_if
      (ltb_ℤ s.initial_delay (pos 0)
        || ltb_ℤ s.max_delay s.initial_delay
        || ltb retry_jitter_denominator s.jitter_permille
        || not (valid_runtime_text (s.hint_label ∷ [])))
      schedule_invalid
  reject_if (not (valid_kind s.kind s)) schedule_invalid

abbrev no_retry : RetryPolicy
no_retry = record {
  label = [];
  max_attempts = pos 0;
  schedule = record {
    kind = other_kind [];
    initial_delay = pos 0;
    max_delay = pos 0;
    multiplier = 0;
    jitter_permille = 0;
    hint_label = [];
  };
  safe_retry_contract = [];
}

unfoldable pub validate_activity_retry : RetryPolicy → Result (Unit {0})
unfolding policy_discrete text_discrete
validate_activity_retry p = if p == no_retry then ok tt else do
  reject_if
      (p.label == []
        || not (valid_runtime_text (p.label ∷ p.safe_retry_contract ∷ []))
        || ltb_ℤ p.max_attempts (pos 1)
        || (ltb_ℤ (pos 1) p.max_attempts && p.safe_retry_contract == []))
      execution_capability
  joining execution_capability (validate_activity_schedule p.schedule)

-- The loop of activityRetryBaseDelay, over the rounds that are left.
delay_rounds : ℕ → ℤ → ℕ → ℤ → ℤ
delay_rounds zero maximum multiplier delay = delay
delay_rounds (suc rounds) maximum multiplier delay =
    let rest = delay_rounds rounds maximum multiplier (i64 (delay *ℤ i64 (pos multiplier))) in
    if ltb_ℤ delay maximum
    then (if ltb (u64 (quot maximum delay)) multiplier then maximum else rest)
    else delay

abbrev pub is_exponential : ScheduleKind → Bool
is_exponential exponential = true
is_exponential _ = false

unfoldable pub activity_retry_base_delay : RetrySchedule → ℤ → ℤ
unfolding delay_rounds
activity_retry_base_delay s attempt =
    if is_exponential s.kind
    then delay_rounds (pos_part attempt - 1) s.max_delay s.multiplier s.initial_delay
    else s.initial_delay

unfoldable pub activity_retry_jitter_width : ℤ → ℕ → ℤ
activity_retry_jitter_width delay permille =
    let p = pos permille in
    let d = pos retry_jitter_denominator in
    i64 (i64 (quot delay d *ℤ p) +ℤ quot (i64 (rem delay d *ℤ p)) d)

-- `SelectedDelay -= Duration(value % (uint64(width) + 1))`
unfoldable pub select_delay : ℤ → ℤ → ℕ → ℤ
select_delay base width value = i64 (base -ℤ i64 (pos (value % ((u64 width + 1) % i64_mod))))

-- The end of chooseActivityRetrySchedule, from the deadline on.
unfoldable pub choose_deadline : ScheduleDecision → Time → ScheduleDecision
choose_deadline d at =
    let at_delay = add at d.selected_delay in
    let chosen = if after d.not_before at_delay then d.not_before else at_delay in
    if before chosen at || not (schedule_time_valid chosen)
    then record d { rejection = deadline }
    else record d { deadline = chosen }

unfoldable pub choose_delay : RetryPolicy → ScheduleDecision → Time → Option ℕ → ScheduleDecision
choose_delay p d at sample =
    let width = activity_retry_jitter_width d.base_delay p.schedule.jitter_permille in
    if ltb_ℤ (pos 0) width
    then elim sample [
      | none ↦ record d { rejection = random }
      | some value ↦
          choose_deadline (record d { selected_delay = select_delay d.base_delay width value }) at
    ]
    else choose_deadline d at

unfoldable pub choose_hint :
    RetryPolicy → ScheduleDecision → Time → Time → Option ℕ → ScheduleDecision
unfolding text_discrete
choose_hint p d at hint sample =
    if is_zero hint
    then choose_delay p d at sample
    else if not (schedule_time_valid hint)
    then record d { rejection = hint_time }
    else if p.schedule.hint_label == []
    then record d { not_before = hint; rejection = hint_label }
    else choose_delay p (record d { not_before = hint }) at sample

unfoldable pub choose_activity_retry_schedule :
    RetryPolicy → ℤ → Time → Time → Option ℕ → ScheduleDecision
choose_activity_retry_schedule p attempt at hint sample =
    let d : ScheduleDecision = record {
      attempt = attempt;
      prepared_at = at;
      base_delay = pos 0;
      selected_delay = pos 0;
      not_before = zero_time;
      deadline = zero_time;
      rejection = accepted;
    } in
    let base = activity_retry_base_delay p.schedule attempt in
    if ltb_ℤ attempt (pos 1) || leb_ℤ p.max_attempts attempt || fails (validate_activity_retry p)
    then record d { rejection = policy }
    else if not (schedule_time_valid at)
    then record d { rejection = clock }
    else choose_hint p (record d { base_delay = base; selected_delay = base }) at hint sample

abbrev pub valid_activity_schedule_hint : RetryPolicy → Time → Bool
valid_activity_schedule_hint p hint =
    is_zero hint || (p.schedule.hint_label != [] && schedule_time_valid hint)

abbrev pub expected_deadline : ScheduleDecision → Time
expected_deadline d =
    let expected = add d.prepared_at d.selected_delay in
    if after d.not_before expected then d.not_before else expected

abbrev lowest_delay : RetryPolicy → ScheduleDecision → ℤ
lowest_delay p d =
    i64 (d.base_delay -ℤ activity_retry_jitter_width d.base_delay p.schedule.jitter_permille)

-- The `switch` of validRejectedActivitySchedule.
valid_rejection : Rejection → RetryPolicy → ScheduleDecision → Bool
unfolding text_discrete ℤ_discrete
valid_rejection hint_time p d = is_zero d.not_before && d.selected_delay == d.base_delay
valid_rejection hint_label p d =
    p.schedule.hint_label == []
    && schedule_time_valid d.not_before
    && d.selected_delay == d.base_delay
valid_rejection random p d =
    ltb_ℤ (pos 0) (activity_retry_jitter_width d.base_delay p.schedule.jitter_permille)
    && d.selected_delay == d.base_delay
    && valid_activity_schedule_hint p d.not_before
valid_rejection deadline p d =
    if not (valid_activity_schedule_hint p d.not_before)
      || ltb_ℤ d.selected_delay (lowest_delay p d)
    then false
    else not (schedule_time_valid (expected_deadline d))
      || before (expected_deadline d) d.prepared_at
valid_rejection _ p d = false

unfoldable pub valid_rejected_activity_schedule : RetryPolicy → ScheduleDecision → Bool
unfolding valid_rejection ℤ_discrete
valid_rejected_activity_schedule p d =
    if not (is_zero d.deadline) || d.base_delay != activity_retry_base_delay p.schedule d.attempt
    then false
    else valid_rejection d.rejection p d

abbrev pub is_accepted : Rejection → Bool
is_accepted accepted = true
is_accepted _ = false

unfoldable pub valid_accepted : RetryPolicy → ScheduleDecision → Bool
unfolding text_discrete ℤ_discrete
valid_accepted p d =
    let base = activity_retry_base_delay p.schedule d.attempt in
    if d.base_delay != base
      || ltb_ℤ d.selected_delay
          (i64 (base -ℤ activity_retry_jitter_width base p.schedule.jitter_permille))
    then false
    else if not (is_zero d.not_before)
        && (p.schedule.hint_label == [] || not (schedule_time_valid d.not_before))
    then false
    else schedule_time_valid d.deadline && expected_deadline d == d.deadline

abbrev valid_decision : RetryPolicy → ScheduleDecision → Bool
valid_decision p d =
    if fails (validate_activity_retry p)
      || ltb_ℤ d.attempt (pos 1)
      || leb_ℤ p.max_attempts d.attempt
      || not (schedule_time_valid d.prepared_at)
      || ltb_ℤ d.base_delay (pos 0)
      || ltb_ℤ d.selected_delay (pos 0)
      || ltb_ℤ d.base_delay d.selected_delay
    then false
    else if not (is_accepted d.rejection)
    then valid_rejected_activity_schedule p d
    else valid_accepted p d

-- A nil pointer is `none`.
unfoldable pub valid_activity_retry_schedule_decision : RetryPolicy → Option ScheduleDecision → Bool
unfolding valid_accepted valid_rejected_activity_schedule
valid_activity_retry_schedule_decision p none = false
valid_activity_retry_schedule_decision p (some d) = valid_decision p d
