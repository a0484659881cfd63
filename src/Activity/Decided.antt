-- ===== src/Activity/Decided.antt =====
-- What an operator's decision leaves: a settled activity that takes no second decision.
use flowy.Prelude.{
  ℕ, ◌≡◌, Bool, true, false, not, ◌&&◌, Option, some, ◌!=◌, nat_eq, arith, sym, subst,
}
use flowy.Base.{Text, text_eq, Time, Map, lookup, ok, fails, >>=-eq-ok, fails_if_refuted}
use flowy.Execution.Types.{Envelope}
use flowy.Activity.Schedule.{ScheduleDecision}
use flowy.Activity.Types.{State, running, unknown, state_eq, ActivityRecord, Resolution}
use flowy.Activity.Record.{execution_activity_journal}
use flowy.Activity.Resolution.{
  resolve_activity, apply_activity_resolution, abandon_running, resolution_activity_record,
}

abbrev is_open : State → Bool
is_open s = not (s != unknown && s != running)

applied_closed :
    (r t : ActivityRecord) (x : Resolution) (now : Time) (sample : Option ℕ)
    (d : Option ScheduleDecision)
    → apply_activity_resolution r x now sample ≡ ok (t, d)
    → is_open t.state ≡ false
unfolding apply_activity_resolution
applied_closed r t x now sample d h = ground arith

resolved_closed :
    (r t : ActivityRecord) (x : Resolution) (revision incarnation : ℕ) (now : Time)
    (sample : Option ℕ)
    → resolve_activity r x revision incarnation now sample ≡ ok t
    → is_open t.state ≡ false
unfolding resolve_activity
resolved_closed r t x revision incarnation now sample h =
    let ((u, d), a, b) =
      >>=-eq-ok (apply_activity_resolution (abandon_running r) x now sample) _ h in
    let closed = applied_closed (abandon_running r) u x now sample d a in ground (arith, b, closed)

journal_same :
    (identity : Text → Text → ℕ → Text → Text) (e : Envelope) (m j : Map ActivityRecord)
    → execution_activity_journal identity e m ≡ ok j
    → j ≡ m
unfolding execution_activity_journal
journal_same identity e m j h = ground (arith, h)

-- Once a decision of an operator has been applied to an activity, ResolveActivity refuses every other
-- decision on the record that it left, in any envelope whose journal holds that record.
pub resolved_once :
    (identity : Text → Text → ℕ → Text → Text) (r t : ActivityRecord) (x y : Resolution)
    (revision incarnation : ℕ) (now : Time) (sample : Option ℕ) (source : Envelope)
    (journal : Map ActivityRecord)
    → resolve_activity r x revision incarnation now sample ≡ ok t
    → lookup y.identity journal ≡ some t
    → fails (resolution_activity_record identity source journal y) ≡ true
unfolding resolution_activity_record
resolved_once identity r t x y revision incarnation now sample source journal h held =
    let closed = resolved_closed r t x revision incarnation now sample h in
    fails_if_refuted (resolution_activity_record identity source journal y) (λ a again.
      let (j, read, rest) =
        >>=-eq-ok (execution_activity_journal identity source journal) _ again in
      let same = journal_same identity source journal j read in
      let found = subst (λ m. lookup y.identity m ≡ some t) (sym same) held in
      ground (arith, rest, found, closed))
