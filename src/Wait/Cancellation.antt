-- ===== src/Wait/Cancellation.antt =====
-- durable_wait_cancellation.go: the request of CancelWait, the record it writes, and the terminal of
-- a canceled wait. The session and the commit around them are calls of the runner's store.
use flowy.Prelude.{
  ℕ, Bool, true, false, not, ◌||◌, [], ◌∷◌, Option, none, some, ◌==◌, ◌!=◌, nat_eq, if◌then◌else◌,
  ltb, i64_mod, ◌-◌,
}
use flowy.Base.{
  Text, text_eq, text_discrete, valid_runtime_text, Time, is_zero, wait_invalid, wait_conflict,
  wait_stale, wait_canceled, wait_expired, Result, ok, ◌>>◌, reject_if,
}
use flowy.Wait.Types.{WaitRecord, canceled, CancellationRecord, WaitCancellation}
use flowy.Wait.Validate.{is_armed, is_canceled, is_expired}

-- The guard at the head of CancelWait, on the token's thread and revision and the request.
unfoldable pub check_cancellation : Text → ℕ → WaitCancellation → Result (Unit {0})
unfolding text_discrete
check_cancellation thread revision request =
    reject_if
      (thread == []
        || revision == 0
        || request.generation == []
        || request.id == []
        || not (
            valid_runtime_text
              (thread ∷ request.generation ∷ request.id ∷ request.reason ∷ request.evidence ∷ []))
        || request.reason == []
        || request.evidence == [])
      wait_invalid

abbrev pub differs : Option CancellationRecord → WaitCancellation → Bool
differs none request = true
differs (some prior) request = prior.reason != request.reason || prior.evidence != request.evidence

abbrev pub other_id : Option CancellationRecord → WaitCancellation → Bool
other_id none request = false
other_id (some prior) request = prior.id != request.id

-- `source` is the revision of the source, `terminal` whether it has a terminal, `token` the
-- revision of the token.
unfoldable pub validate_wait_cancellation_request :
    ℕ → Bool → WaitRecord → ℕ → WaitCancellation → Result (Unit {0})
unfolding text_discrete
validate_wait_cancellation_request source terminal w token request = do
  reject_if (ltb token w.arm_revision || ltb source token) wait_stale
  if is_canceled w.state
      then (do
        reject_if (other_id w.cancellation request) wait_canceled
        reject_if (differs w.cancellation request) wait_conflict)
      else (do
        reject_if (is_expired w.state) wait_expired
        reject_if (not (is_armed w.state) || terminal) wait_conflict
        reject_if (token != source) wait_stale
        reject_if (source == i64_mod - 1) wait_invalid)

unfoldable pub canceled_record : WaitRecord → ℕ → WaitCancellation → ℕ → Time → WaitRecord
canceled_record w source request incarnation now = record w {
  state = canceled;
  cancellation = some (record {
    id = request.id;
    reason = request.reason;
    evidence = request.evidence;
    source_revision = source;
    incarnation = incarnation;
    at = now;
  });
}

-- CancelWait from its guard to the record it commits, and whether that is a replay.
unfoldable pub cancel_wait :
    Text → ℕ → Bool → WaitRecord → ℕ → WaitCancellation → ℕ → Time → Result (WaitRecord × Bool)
cancel_wait thread source terminal w token request incarnation now = do
  check_cancellation thread token request
  validate_wait_cancellation_request source terminal w token request
  if is_canceled w.state then ok (w, true) else (do
    reject_if (is_zero now) wait_invalid
    ok (canceled_record w source request incarnation now, false))
