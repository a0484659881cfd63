-- ===== src/Wait/Canceled.antt =====
-- What CancelWait promises: a valid record, one cancellation, and no winner after it.
use flowy.Prelude.{
  ℕ, ◌+◌, ◌≤◌, ◌<◌, ◌≡◌, refl, Bool, true, false, List, [], ◌∷◌, Option, ◌==◌, nat_eq,
  if◌then◌else◌, arith, Bool-cases, inl, inr,
}
use flowy.Base.{
  Text, text_eq, valid_runtime_text, Time, is_zero, Map, lookup, ok, reject_if-eq-ok, >>-eq-ok,
  wait_invalid,
}
use flowy.Wait.Types.{WaitRecord, WaitCancellation, WaitHashes, WaitDecision}
use flowy.Wait.Validate.{
  is_armed, is_canceled, bad_address, valid_wait_cancellation, valid_cancel, valid_winner,
  valid_status, valid_wait_decision, valid_decisions, validate_durable_wait, contains,
}
use flowy.Wait.Cancellation.{
  check_cancellation, validate_wait_cancellation_request, canceled_record, cancel_wait, differs,
  other_id,
}
use flowy.Wait.Decisions.{validate-IsValid, validate_of_parts, armed_winner, armed_cancel}

module _ (h : WaitHashes) where
  -- The decisions of an armed wait stay valid when it is canceled at a later revision.
  module _ (w : WaitRecord) (r : ℕ) (request : WaitCancellation) (i : ℕ) (now : Time)
      (is_open : is_armed w.state ≡ true) (bare : w.winner_id ≡ []) where
    kept_status :
        (d : WaitDecision) (winner : Option WaitDecision)
        → d.source_revision < r
        → valid_status d.status w d winner ≡ true
        → valid_status d.status (canceled_record w r request i now) d winner ≡ true
    unfolding valid_status canceled_record
    kept_status d winner lt s = ground (arith, is_open, bare)

    kept_decision :
        (winner : Option WaitDecision) (s s' : List ℕ) (id : Text) (d : WaitDecision)
        → (d.source_revision < r → contains s' d.source_revision ≡ contains s d.source_revision)
        → valid_wait_decision h w r winner s id d ≡ true
        → valid_wait_decision h (canceled_record w r request i now) (r + 1) winner s' id d ≡ true
    unfolding valid_wait_decision canceled_record
    kept_decision winner s s' id d same v = ground (arith, kept_status d winner)

    kept_decisions :
        (winner : Option WaitDecision) (s s' : List ℕ) (ds : Map WaitDecision)
        → ((n : ℕ) → n < r → contains s' n ≡ contains s n)
        → valid_decisions h w r winner s ds ≡ true
        → valid_decisions h (canceled_record w r request i now) (r + 1) winner s' ds ≡ true
    unfolding valid_decisions contains
    kept_decisions winner s s' [] same v = refl
    kept_decisions winner s s' ((k, d) ∷ ds) same v = ground (
      arith,
      kept_decision winner s s' k d (same d.source_revision),
      kept_decisions winner (d.source_revision ∷ s) (d.source_revision ∷ s') ds
          (λ n lt. ground (arith, same n lt)),
    )

    first_source : (n : ℕ) → n < r → contains (r ∷ []) n ≡ contains [] n
    unfolding contains
    first_source n lt = ground arith

  module _ (w t : WaitRecord) (thread : Text) (r token i : ℕ) (terminal : Bool)
      (request : WaitCancellation) (now : Time) (replay : Bool)
      (run : cancel_wait thread r terminal w token request i now ≡ ok (t, replay)) where
    checked : check_cancellation thread token request ≡ ok tt
    unfolding cancel_wait
    checked = (>>-eq-ok (check_cancellation thread token request) _ run).0

    requested : validate_wait_cancellation_request r terminal w token request ≡ ok tt
    unfolding cancel_wait
    requested =
        (>>-eq-ok (validate_wait_cancellation_request r terminal w token request) _
          (>>-eq-ok (check_cancellation thread token request) _ run).1).0

    outcome :
        (is_canceled w.state ≡ true → (t ≡ w) × (replay ≡ true))
        × (is_canceled w.state ≡ false
            → (t ≡ canceled_record w r request i now) × (replay ≡ false) × (is_zero now ≡ false))
    unfolding cancel_wait
    outcome = (
      λ c. (ground (arith, checked, requested, c), ground (arith, checked, requested, c)),
      λ c. (
        ground (arith, checked, requested, c),
        ground (arith, checked, requested, c),
        ground (arith, checked, requested, c),
      ),
    )

    was_armed : is_canceled w.state ≡ false → is_armed w.state ≡ true
    unfolding validate_wait_cancellation_request
    was_armed c = ground (arith, requested, c)

    texts : valid_runtime_text (request.id ∷ request.reason ∷ request.evidence ∷ []) ≡ true
    unfolding check_cancellation valid_runtime_text
    texts = ground (arith, checked)

    valid_record :
        validate_durable_wait h w r ≡ ok tt
        → (i == 0) ≡ false
        → is_canceled w.state ≡ false
        → validate_durable_wait h (canceled_record w r request i now) (r + 1) ≡ ok tt
    unfolding check_cancellation validate_durable_wait validate_wait_cancellation_request
        canceled_record bad_address valid_wait_cancellation valid_cancel valid_winner
    valid_record source live open_ =
        let v = validate-IsValid h w r source in
        let a = was_armed open_ in
        let bare = armed_winner h w r v a in
        let none_yet = armed_cancel h w r v a in
        let bad = (reject_if-eq-ok (bad_address h w r) wait_invalid _ source).0 in
        validate_of_parts h (canceled_record w r request i now) (r + 1) (ground (arith, bad))
          (ground (arith, v.armed_before, checked, texts, live, (outcome.1 open_).2))
          (ground (arith, bare)) (ground (arith, bare))
          (kept_decisions w r request i now a bare (lookup w.winner_id w.decisions) [] (r ∷ [])
            w.decisions (first_source w r request i now a bare)
            (ground (arith, v.decisions_ok, none_yet)))

    canceled_target :
        (is_canceled t.state ≡ true)
        × (other_id t.cancellation request ≡ false)
        × (differs t.cancellation request ≡ false)
    unfolding validate_wait_cancellation_request canceled_record
    canceled_target = elim (Bool-cases (is_canceled w.state)) [
      | inl c ↦
          let (tgt, rep) = outcome.0 c in
          (
            ground (arith, tgt, c),
            ground (arith, tgt, c, requested),
            ground (arith, tgt, c, requested),
          )
      | inr c ↦
          let (tgt, rep, clock) = outcome.1 c in
          (ground (arith, tgt), ground (arith, tgt), ground (arith, tgt))
    ]

    valid_target :
        validate_durable_wait h w r ≡ ok tt
        → (i == 0) ≡ false
        → validate_durable_wait h t (if replay then r else r + 1) ≡ ok tt
    valid_target source live = elim (Bool-cases (is_canceled w.state)) [
      | inl c ↦ let (tgt, rep) = outcome.0 c in ground (arith, tgt, rep, source)
      | inr c ↦
          let (tgt, rep, clock) = outcome.1 c in
          ground (arith, tgt, rep, valid_record source live c)
    ]

    arm_bound : t.arm_revision ≤ token
    unfolding validate_wait_cancellation_request canceled_record
    arm_bound = elim (Bool-cases (is_canceled w.state)) [
      | inl c ↦ let (tgt, rep) = outcome.0 c in ground (arith, tgt, requested)
      | inr c ↦ let (tgt, rep, clock) = outcome.1 c in ground (arith, tgt, requested)
    ]

  -- When CancelWait succeeds on a valid wait, under a lease whose incarnation is not 0, the record is
  -- canceled, with the id, the reason and the evidence of the request, and it is valid: at the next
  -- revision, or at the same one when the request replays the cancellation that the record already
  -- holds.
  pub cancel-valid :
      (w t : WaitRecord) (thread : Text) (r token i : ℕ) (terminal : Bool)
      (request : WaitCancellation) (now : Time) (replay : Bool)
      → validate_durable_wait h w r ≡ ok tt
      → (i == 0) ≡ false
      → cancel_wait thread r terminal w token request i now ≡ ok (t, replay)
      → (is_canceled t.state ≡ true)
        × (other_id t.cancellation request ≡ false)
        × (differs t.cancellation request ≡ false)
        × (validate_durable_wait h t (if replay then r else r + 1) ≡ ok tt)
  cancel-valid w t thread r token i terminal request now replay source live run =
      let (state, same_id, same) =
        canceled_target w t thread r token i terminal request now replay run in
      (
        state,
        same_id,
        same,
        valid_target w t thread r token i terminal request now replay run source live,
      )

  -- A cancellation that was made is replayed: the same request under the same token gives the same
  -- record again, at any revision from the token's on, with any terminal, lease and clock.
  pub cancellation_replays :
      (w t : WaitRecord) (thread : Text) (r r' token i i' : ℕ) (terminal terminal' : Bool)
      (request : WaitCancellation) (now now' : Time) (replay : Bool)
      → cancel_wait thread r terminal w token request i now ≡ ok (t, replay)
      → token ≤ r'
      → cancel_wait thread r' terminal' t token request i' now' ≡ ok (t, true)
  unfolding cancel_wait validate_wait_cancellation_request
  cancellation_replays w t thread r r' token i i' terminal terminal' request now now' replay run
        later =
      let (state, same_id, same) =
        canceled_target w t thread r token i terminal request now replay run in
      let first = checked w t thread r token i terminal request now replay run in
      let low = arm_bound w t thread r token i terminal request now replay run in
      ground (arith, state, same_id, same, first, low, later)
