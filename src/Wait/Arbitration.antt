-- ===== src/Wait/Arbitration.antt =====
-- prepareWaitDecision (durable_wait_arbitration.go): which delivery wins a wait. Records are values
-- here, so cloneDurableWait leaves nothing to model.
use flowy.Prelude.{
  ℕ, Bool, true, false, not, ◌&&◌, ◌||◌, [], none, some, ◌==◌, ◌!=◌, nat_eq, if◌then◌else◌, ltb,
  i64_mod, ◌-◌,
}
use flowy.Base.{
  text_eq, text_discrete, Time, is_zero, before, lookup, insert, wait_invalid, wait_conflict,
  wait_stale, Result, ok, err, ◌>>◌, reject_if, fails,
}
use flowy.Wait.Types.{
  resolved, expired, DeliveryKind, delivery_kind_eq, delivery_kind_discrete, DecisionStatus,
  accepted, unmatched, lost, rejected_canceled, WaitDelivery, WaitDecision, WaitRecord, WaitHashes,
}
use flowy.Wait.Validate.{is_event, is_timer, is_armed, is_canceled, validate_durable_wait}

unfoldable pub wait_decision_status : WaitRecord → DeliveryKind → Bool → DecisionStatus
wait_decision_status w kind matched =
    if is_canceled w.state
    then rejected_canceled
    else if not (is_armed w.state)
    then lost
    else if is_event kind && not matched
    then unmatched
    else accepted

unfoldable pub validate_wait_delivery : WaitRecord → WaitDelivery → ℕ → Result (Unit {0})
unfolding text_discrete
validate_wait_delivery w delivery revision = do
  reject_if
      (delivery.generation != w.generation
        || ltb delivery.expected_revision w.arm_revision
        || ltb revision delivery.expected_revision)
      wait_stale
  reject_if (delivery.id == [] || (not (is_event delivery.kind) && not (is_timer delivery.kind)))
      wait_invalid

abbrev pub is_accepting : DecisionStatus → Bool
is_accepting accepted = true
is_accepting _ = false

-- The record with the decision: a winner resolves the wait, or expires it if it is the timer.
unfoldable pub decided : WaitRecord → WaitDecision → WaitRecord
decided w d =
    let decisions = insert d.id d w.decisions in
    if is_accepting d.status
    then record w {
      winner_id = d.id;
      state = if is_timer d.kind then expired else resolved;
      decisions = decisions;
    }
    else record w { decisions = decisions }

module _ (h : WaitHashes) where
  open h use {payload_digest}

  unfoldable pub decision_of : WaitRecord → WaitDelivery → ℕ → ℕ → Time → Bool → WaitDecision
  decision_of w delivery revision incarnation now matched = record {
    id = delivery.id;
    kind = delivery.kind;
    correlation_id = delivery.correlation_id;
    payload_digest = payload_digest delivery.payload;
    status = wait_decision_status w delivery.kind matched;
    source_revision = revision;
    incarnation = incarnation;
    at = now;
  }

  -- A delivery with the id of a decision is that decision again, or a conflict.
  unfoldable pub replayed :
      WaitRecord → WaitDelivery → WaitDecision → Result (WaitRecord × WaitDecision × Bool)
  unfolding text_discrete delivery_kind_discrete
  replayed w delivery prior =
      if prior.kind != delivery.kind
        || prior.correlation_id != delivery.correlation_id
        || prior.payload_digest != payload_digest delivery.payload
      then err wait_conflict
      else ok (w, prior, true)

  unfoldable pub decide :
      WaitRecord → WaitDelivery → ℕ → ℕ → Time → Bool → Result (WaitRecord × WaitDecision × Bool)
  unfolding text_discrete
  decide w delivery revision incarnation now matched = do
    reject_if (revision == i64_mod - 1) wait_invalid
    reject_if
        (delivery.correlation_id != w.spec.correlation_id
          || (is_timer delivery.kind && delivery.payload != []))
        wait_invalid
    reject_if (is_timer delivery.kind && before now w.spec.deadline.instant) wait_invalid
    reject_if (is_armed w.state && delivery.expected_revision != revision) wait_stale
    let d = decision_of w delivery revision incarnation now matched
    ok (decided w d, d, false)

  -- The result is the target record, its decision, and whether it is a replay.
  unfoldable pub prepare_wait_decision :
      WaitRecord → WaitDelivery → ℕ → ℕ → Time → Bool → Result (WaitRecord × WaitDecision × Bool)
  prepare_wait_decision w delivery revision incarnation now matched = do
    reject_if (fails (validate_durable_wait h w revision) || incarnation == 0 || is_zero now)
        wait_invalid
    validate_wait_delivery w delivery revision
    elim (lookup delivery.id w.decisions) [
      | some prior ↦ replayed w delivery prior
      | none ↦ decide w delivery revision incarnation now matched
    ]
