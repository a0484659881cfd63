-- ===== src/Activity/Record.antt =====
-- validateActivityRecord and its last parts (activity_integrity.go, activity_attempt_integrity.go),
-- and the references of an envelope (activity_references.go). The identity of an address is a
-- SHA-256 of JSON, a parameter; a journal is a map that has been decoded.
use flowy.Prelude.{
  ℕ, Bool, true, false, not, ◌&&◌, ◌||◌, List, [], ◌∷◌, Option, none, some, ◌==◌, ◌!=◌, nat_eq,
  if◌then◌else◌, ltb, ℤ, pos, int_eq, ltb_ℤ,
}
use flowy.Base.{
  Text, text_eq, text_discrete, valid_runtime_text, valid_activity_digest, Time, is_zero, last?,
  Map, lookup, execution_corrupt, Result, ok, ◌>>◌, reject_if, fails,
}
use flowy.Execution.Types.{Envelope, ForkLineage, fake}
use flowy.Activity.Schedule.{ScheduleDecision, is_accepted, validate_activity_retry}
use flowy.Activity.Types.{
  no_origin, live, reconciled, manual, simulated, origin_eq, State, prepared, running, completed,
  failed, unknown, other_state, state_eq, unclassified, retryable, non_retryable, ambiguous,
  class_eq, Attempt, ResolutionRecord, ActivityRecord,
}
use flowy.Activity.Integrity.{
  int_length, valid_attempts, validate_activity_decisions, validate_activity_record_schedules,
  has_activity_retry_decision,
}
use flowy.Base.{length}

-- The `switch` of validateActivityAttemptHistory.
history_state : State → ActivityRecord → Attempt → Bool
history_state failed r a = a.classification == retryable
history_state unknown r a = has_activity_retry_decision r.resolutions a.number
history_state _ r a = false

-- The loop runs over all attempts but the last.
valid_history : ActivityRecord → List Attempt → Bool
unfolding history_state
valid_history r [] = true
valid_history r (a ∷ []) = true
valid_history r (a ∷ b ∷ rest) =
    r.retry.safe_retry_contract != [] && history_state a.state r a && valid_history r (b ∷ rest)

unfoldable pub validate_activity_attempt_history : ActivityRecord → Result (Unit {0})
unfolding valid_history
validate_activity_attempt_history r = reject_if (not (valid_history r r.attempts)) execution_corrupt

-- The schedule that a prepared activity waits for.
schedule_of_last : Option ResolutionRecord → Option ScheduleDecision
schedule_of_last none = none
schedule_of_last (some d) = d.retry_schedule

waits_until : Option ScheduleDecision → Time → Bool
waits_until none at = false
waits_until (some d) at = is_accepted d.rejection && d.deadline == at

unfoldable pub valid_prepared_activity_schedule : ActivityRecord → Attempt → Bool
unfolding schedule_of_last waits_until
valid_prepared_activity_schedule r last =
    waits_until
      (if r.origin == manual then schedule_of_last (last? r.resolutions) else last.retry_schedule)
      r.next_attempt_at

abbrev was_failed : ActivityRecord → Attempt → Bool
was_failed r last = last.state == failed || (r.origin == manual && last.state == unknown)

valid_prepared_activity : ActivityRecord → Attempt → Bool
unfolding valid_prepared_activity_schedule
valid_prepared_activity r last =
    r.classification == retryable
    && not (is_zero r.next_attempt_at)
    && r.retry.safe_retry_contract != []
    && ltb_ℤ (int_length r.attempts) r.retry.max_attempts
    && was_failed r last
    && r.outcome == []
    && valid_prepared_activity_schedule r last

valid_completed_activity : ActivityRecord → Attempt → Bool
valid_completed_activity r last =
    is_zero r.next_attempt_at
    && (((r.origin == live || r.origin == simulated) && last.state == completed)
        || ((r.origin == reconciled || r.origin == manual) && last.state == unknown))

valid_failed_activity : ActivityRecord → Attempt → Bool
valid_failed_activity r last =
    is_zero r.next_attempt_at
    && r.outcome == []
    && (r.classification == non_retryable || r.classification == retryable)
    && was_failed r last

-- The `switch` of validateActivityRecordState.
valid_state : State → ActivityRecord → Attempt → Bool
unfolding valid_prepared_activity valid_completed_activity valid_failed_activity
valid_state prepared r last = valid_prepared_activity r last
valid_state running r last =
    last.state == running
    && r.classification == unclassified
    && is_zero r.next_attempt_at
    && r.outcome == []
valid_state unknown r last =
    last.state == unknown
    && r.classification == ambiguous
    && is_zero r.next_attempt_at
    && r.outcome == []
valid_state completed r last = valid_completed_activity r last
valid_state failed r last = valid_failed_activity r last
valid_state (other_state s) r last = false

abbrev is_fresh : ActivityRecord → Bool
is_fresh r =
    r.state == prepared
    && r.classification == unclassified
    && is_zero r.next_attempt_at
    && r.origin == no_origin
    && r.outcome == []

unfoldable pub validate_activity_record_state : ActivityRecord → Result (Unit {0})
unfolding valid_state
validate_activity_record_state r = elim (last? r.attempts) [
  | none ↦ reject_if (not (is_fresh r)) execution_corrupt
  | some last ↦ reject_if (not (valid_state r.state r last)) execution_corrupt
]

module _ (activity_address_identity : Text → Text → ℕ → Text → Text) where
  unfoldable pub valid_activity_address : ActivityRecord → Bool
  unfolding text_discrete
  valid_activity_address r =
      r.execution_id != []
      && r.node != []
      && r.activation != 0
      && valid_runtime_text (r.execution_id ∷ r.node ∷ r.key ∷ [])
      && r.identity == activity_address_identity r.execution_id r.node r.activation r.key

  -- The zero limit stands for one attempt.
  abbrev attempt_limit : ActivityRecord → ℤ
  attempt_limit r = if r.retry.max_attempts == pos 0 then pos 1 else r.retry.max_attempts

  unfoldable pub validate_activity_record : ActivityRecord → Result (Unit {0})
  validate_activity_record r = do
    reject_if
        (not (valid_activity_address r)
          || not (valid_activity_digest r.input_digest)
          || r.key == []
          || r.implementation == []
          || not (valid_runtime_text (r.implementation ∷ []))
          || fails (validate_activity_retry r.retry))
        execution_corrupt
    reject_if (not (valid_attempts (length r.attempts) 0 r.attempts)) execution_corrupt
    reject_if (ltb_ℤ (attempt_limit r) (int_length r.attempts)) execution_corrupt
    validate_activity_decisions r
    validate_activity_record_schedules r
    validate_activity_attempt_history r
    validate_activity_record_state r

  -- The loop of decodeActivityJournal, over the map that the JSON gave.
  unfoldable pub valid_journal : Map ActivityRecord → Bool
  unfolding text_discrete
  valid_journal [] = true
  valid_journal ((identity, r) ∷ rest) =
      not (identity != r.identity || fails (validate_activity_record r)) && valid_journal rest

  unfoldable pub bound_activity_identity : Envelope → Text → Text
  bound_activity_identity e key = elim (lookup key e.progress.journal_references) [
    | some identity ↦ identity
    | none ↦ activity_address_identity e.execution_id e.progress.execution_pointer e.activation key
  ]

  abbrev activity_unresolved : State → Bool
  activity_unresolved s = s == prepared || s == running || s == unknown

  abbrev refers_to : Option ActivityRecord → Text → ℕ → Bool
  refers_to none key activation = false
  refers_to (some r) key activation = key == r.key && r.activation == activation

  valid_references : Envelope → Map ActivityRecord → Map Text → Bool
  valid_references e journal [] = true
  valid_references e journal ((key, identity) ∷ rest) =
      refers_to (lookup identity journal) key e.activation && valid_references e journal rest

  bound_records : Envelope → Map ActivityRecord → Bool
  bound_records e [] = true
  bound_records e ((_, r) ∷ rest) =
      (not (activity_unresolved r.state)
        || (r.activation == e.activation && bound_activity_identity e r.key == r.identity))
      && bound_records e rest

  unfoldable pub validate_activity_references : Envelope → Map ActivityRecord → Result (Unit {0})
  unfolding valid_references bound_records
  validate_activity_references e journal = do
    reject_if (not (valid_references e journal e.progress.journal_references)) execution_corrupt
    reject_if (not (bound_records e journal)) execution_corrupt

  abbrev is_fake : Option ForkLineage → Bool
  is_fake none = false
  is_fake (some f) = elim f.mode [ fake ↦ true | _ ↦ false ]

  past_revisions : ℕ → List ResolutionRecord → Bool
  past_revisions revision [] = true
  past_revisions revision (d ∷ rest) =
      ltb d.source_revision revision && past_revisions revision rest

  -- The loop of executionActivityJournal.
  belongs : Envelope → Map ActivityRecord → Bool
  unfolding past_revisions
  belongs e [] = true
  belongs e ((_, r) ∷ rest) =
      not (r.origin == simulated && not (is_fake e.fork))
      && not (r.origin == live && is_fake e.fork)
      && not (r.execution_id != e.execution_id || ltb e.activation r.activation)
      && past_revisions e.revision r.resolutions
      && belongs e rest

  -- executionActivityJournal, from the map that the payload gave.
  unfoldable pub execution_activity_journal :
      Envelope → Map ActivityRecord → Result (Map ActivityRecord)
  unfolding belongs
  execution_activity_journal e journal = do
    reject_if (not (valid_journal journal)) execution_corrupt
    reject_if (not (belongs e journal)) execution_corrupt
    validate_activity_references e journal
    ok journal
