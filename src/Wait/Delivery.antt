-- ===== src/Wait/Delivery.antt =====
-- What prepareWaitDecision promises to the deliveries of a wait.
use flowy.Prelude.{
  ℕ, ◌+◌, ◌≤◌, ◌≡◌, refl, Bool, true, false, not, ◌&&◌, ◌||◌, [], ap, ◌⊎◌, inl, inr, none, some,
  ◌==◌, nat_eq, if◌then◌else◌, arith, ◌≢◌, Option-cases, Bool-cases,
}
use flowy.Base.{
  text_eq, Time, is_zero, lookup, lookup-insert, ok, fails, ok_of_not-fails, reject_if-eq-ok,
  wait_invalid, >>-eq-ok,
}
use flowy.Wait.Types.{
  WaitDelivery, WaitDecision, WaitRecord, WaitHashes, IsHex, accepted, delivery_kind_eq,
}
use flowy.Wait.Validate.{is_event, is_timer, is_armed, validate_durable_wait, bad_address}
use flowy.Wait.Arbitration.{
  decided, is_accepting, decision_of, decide, replayed, prepare_wait_decision,
  validate_wait_delivery, wait_decision_status,
}
use flowy.Wait.Decisions.{validate-IsValid, armed_winner}
use flowy.Wait.Target.{IsAdmitted, target_valid}

module _ (h : WaitHashes) (hex : IsHex h) where
  module _ (w t : WaitRecord) (delivery : WaitDelivery) (r incarnation : ℕ) (now : Time)
      (matched : Bool) (d : WaitDecision) (replay : Bool)
      (run : prepare_wait_decision h w delivery r incarnation now matched ≡ ok (t, d, replay)) where
    checked : (fails (validate_durable_wait h w r) || incarnation == 0 || is_zero now) ≡ false
    unfolding prepare_wait_decision
    checked =
        (reject_if-eq-ok (fails (validate_durable_wait h w r) || incarnation == 0 || is_zero now)
          wait_invalid _ run).0

    source_valid : validate_durable_wait h w r ≡ ok tt
    source_valid = ok_of_not-fails (validate_durable_wait h w r) (ground (arith, checked))

    delivered : validate_wait_delivery w delivery r ≡ ok tt
    unfolding prepare_wait_decision
    delivered =
        (>>-eq-ok (validate_wait_delivery w delivery r) _
          (reject_if-eq-ok (fails (validate_durable_wait h w r) || incarnation == 0 || is_zero now)
            wait_invalid _ run).1).0

    decided_by :
        lookup delivery.id w.decisions ≡ none
        → decide h w delivery r incarnation now matched ≡ ok (t, d, replay)
    unfolding prepare_wait_decision
    decided_by e = ground (arith, checked, delivered)

    replayed_by :
        (prior : WaitDecision)
        → lookup delivery.id w.decisions ≡ some prior
        → replayed h w delivery prior ≡ ok (t, d, replay)
    unfolding prepare_wait_decision
    replayed_by prior e = ground (arith, checked, delivered)

    new-IsAdmitted :
        lookup delivery.id w.decisions ≡ none → IsAdmitted h hex w delivery r incarnation now
    unfolding decide validate_wait_delivery
    new-IsAdmitted e = record {
      named = ground (arith, delivered);
      kind_known = ground (arith, delivered);
      correlated = ground (arith, decided_by e);
      fenced = ground (arith, checked);
      clocked = ground (arith, checked);
      timer_bare = λ b. ground (arith, decided_by e);
      timer_due = λ b. ground (arith, decided_by e);
      new_id = e;
    }

    new_target :
        lookup delivery.id w.decisions ≡ none
        → (t ≡ decided w (decision_of h w delivery r incarnation now matched))
          × (d ≡ decision_of h w delivery r incarnation now matched)
          × (replay ≡ false)
    unfolding decide
    new_target e =
        (ground (arith, decided_by e), ground (arith, decided_by e), ground (arith, decided_by e))

    old_target :
        (prior : WaitDecision)
        → lookup delivery.id w.decisions ≡ some prior
        → (t ≡ w) × (d ≡ prior) × (replay ≡ true)
    unfolding replayed
    old_target prior e = (
      ground (arith, replayed_by prior e),
      ground (arith, replayed_by prior e),
      ground (arith, replayed_by prior e),
    )

    decision_kept : lookup delivery.id t.decisions ≡ some d
    unfolding decided decision_of
    decision_kept = elim (Option-cases (lookup delivery.id w.decisions)) [
      | inl e ↦
          let x = decision_of h w delivery r incarnation now matched in
          let (tgt, dec, rep) = new_target e in
          ground (arith, tgt, dec, lookup-insert delivery.id delivery.id x w.decisions)
      | inr (prior, e) ↦ let (tgt, dec, rep) = old_target prior e in ground (arith, tgt, dec, e)
    ]

    replay_unchanged : replay ≡ true → t ≡ w
    replay_unchanged again = elim (Option-cases (lookup delivery.id w.decisions)) [
      | inl e ↦ let (tgt, dec, rep) = new_target e in cc
      | inr (prior, e) ↦ let (tgt, dec, rep) = old_target prior e in tgt
    ]

    fresh : replay ≡ false → lookup delivery.id w.decisions ≡ none
    fresh new = elim (Option-cases (lookup delivery.id w.decisions)) [
      | inl e ↦ e
      | inr (prior, e) ↦ let (tgt, dec, rep) = old_target prior e in cc
    ]

    named : (delivery.id == []) ≡ false
    unfolding validate_wait_delivery
    named = ground (arith, delivered)

    kind_known : (not (is_event delivery.kind) && not (is_timer delivery.kind)) ≡ false
    unfolding validate_wait_delivery
    kind_known = ground (arith, delivered)

    same_generation : t.generation ≡ delivery.generation
    unfolding validate_wait_delivery decided
    same_generation = elim (Option-cases (lookup delivery.id w.decisions)) [
      | inl e ↦ let (tgt, dec, rep) = new_target e in ground (arith, delivered, tgt)
      | inr (prior, e) ↦ let (tgt, dec, rep) = old_target prior e in ground (arith, delivered, tgt)
    ]

    same_decision :
        (d.kind ≡ delivery.kind)
        × (d.correlation_id ≡ delivery.correlation_id)
        × (d.payload_digest ≡ h.payload_digest delivery.payload)
    unfolding decision_of replayed
    same_decision = elim (Option-cases (lookup delivery.id w.decisions)) [
      | inl e ↦
          let (tgt, dec, rep) = new_target e in
          (ground (arith, dec), ground (arith, dec), ground (arith, dec))
      | inr (prior, e) ↦
          let (tgt, dec, rep) = old_target prior e in
          let same = replayed_by prior e in
          (ground (arith, same), ground (arith, same), ground (arith, same))
    ]

    not_bad : bad_address h w r ≡ false
    unfolding validate_durable_wait
    not_bad = (reject_if-eq-ok (bad_address h w r) wait_invalid _ source_valid).0

    valid_target : validate_durable_wait h t (if replay then r else r + 1) ≡ ok tt
    valid_target = elim (Option-cases (lookup delivery.id w.decisions)) [
      | inl e ↦
          let (tgt, dec, rep) = new_target e in
          let v = validate-IsValid h w r source_valid in
          let lemma =
            target_valid h hex w delivery r incarnation now matched v (new-IsAdmitted e) not_bad in
          ground (arith, tgt, rep, lemma)
      | inr (prior, e) ↦
          let (tgt, dec, rep) = old_target prior e in ground (arith, tgt, rep, source_valid)
    ]

  -- When a delivery is decided, the record that prepareWaitDecision returns is again valid: at the
  -- next revision if it carries a new decision, and at the same one, unchanged and with the decision
  -- that it already holds for this delivery, if it is a replay. Either way it holds the decision under
  -- the delivery's id. The digests of payloads are canonical.
  pub prepare-valid :
      (w t : WaitRecord) (delivery : WaitDelivery) (r incarnation : ℕ) (now : Time) (matched : Bool)
      (d : WaitDecision) (replay : Bool)
      → prepare_wait_decision h w delivery r incarnation now matched ≡ ok (t, d, replay)
      → (validate_durable_wait h t (if replay then r else r + 1) ≡ ok tt)
        × (lookup delivery.id t.decisions ≡ some d)
        × (replay ≡ true → t ≡ w)
  unfolding decided
  prepare-valid w t delivery r incarnation now matched d replay run = (
    valid_target w t delivery r incarnation now matched d replay run,
    decision_kept w t delivery r incarnation now matched d replay run,
    replay_unchanged w t delivery r incarnation now matched d replay run,
  )

  -- A new decision that accepts its delivery is made on an armed wait only; it
  -- names the winner and disarms the wait. Every other decision leaves the state and the winner as
  -- they were. The digests of payloads are canonical.
  pub one_winner :
      (w t : WaitRecord) (delivery : WaitDelivery) (r incarnation : ℕ) (now : Time) (matched : Bool)
      (d : WaitDecision)
      → prepare_wait_decision h w delivery r incarnation now matched ≡ ok (t, d, false)
      → ((d.status ≡ accepted)
          × (is_armed w.state ≡ true)
          × (w.winner_id ≡ [])
          × (t.winner_id ≡ delivery.id)
          × (is_armed t.state ≡ false))
        ⊎ ((d.status ≢ accepted) × (t.state ≡ w.state) × (t.winner_id ≡ w.winner_id))
  unfolding decided decision_of wait_decision_status
  one_winner w t delivery r incarnation now matched d run =
      let e = fresh w t delivery r incarnation now matched d false run refl in
      let (tgt, dec, rep) = new_target w t delivery r incarnation now matched d false run e in
      let valid =
        validate-IsValid h w r (source_valid w t delivery r incarnation now matched d false run) in
      let x = decision_of h w delivery r incarnation now matched in
      elim (Bool-cases (is_accepting x.status)) [
        | inl acc ↦
            let a : is_armed w.state ≡ true = ground (arith, acc) in
            inl (
              ground (arith, acc, dec),
              a,
              armed_winner h w r valid a,
              ground (arith, acc, tgt),
              ground (arith, acc, tgt),
            )
        | inr oth ↦
            inr (ground (arith, oth, dec), ground (arith, oth, tgt), ground (arith, oth, tgt))
      ]

  -- A delivery that was decided gets the same decision again when it is sent again: at any revision at
  -- which the decided record is valid, under any lease with an incarnation other than 0, any clock
  -- reading other than the zero time and any match result, if its generation, id, kind, correlation
  -- and payload are the same and its expected revision lies between the arming and the head. The
  -- record stays as it is. The digests of payloads are canonical.
  pub redelivery_replays :
      (w t : WaitRecord) (delivery again : WaitDelivery) (r r' incarnation incarnation' : ℕ)
      (now now' : Time) (matched matched' : Bool) (d : WaitDecision) (replay : Bool)
      → prepare_wait_decision h w delivery r incarnation now matched ≡ ok (t, d, replay)
      → validate_durable_wait h t r' ≡ ok tt
      → again ≡ record delivery { expected_revision = again.expected_revision }
      → t.arm_revision ≤ again.expected_revision
      → again.expected_revision ≤ r'
      → (incarnation' == 0) ≡ false
      → is_zero now' ≡ false
      → prepare_wait_decision h t again r' incarnation' now' matched' ≡ ok (t, d, true)
  unfolding prepare_wait_decision validate_wait_delivery replayed
  redelivery_replays w t delivery again r r' i i' now now' m m' d replay run valid same low high
        live clock =
      let kept = decision_kept w t delivery r i now m d replay run in
      let generation = same_generation w t delivery r i now m d replay run in
      let (kind, correlation, payload) = same_decision w t delivery r i now m d replay run in
      let id = named w t delivery r i now m d replay run in
      let known = kind_known w t delivery r i now m d replay run in
      let same_id = ap (λ x. x.id) same in
      let same_kind = ap (λ x. x.kind) same in
      let same_correlation = ap (λ x. x.correlation_id) same in
      let same_payload = ap (λ x. x.payload) same in
      let generations = ap (λ x. x.generation) same in
      ground (
        arith, kept, generation, kind, correlation, payload, id, known, same_id, same_kind,
        same_correlation, same_payload, generations, valid, low, high, live, clock,
      )
