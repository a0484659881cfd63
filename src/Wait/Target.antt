-- ===== src/Wait/Target.antt =====
-- What prepareWaitDecision returns: a valid record with one more decision.
use flowy.Prelude.{
  ℕ, ◌+◌, ◌<◌, ◌≡◌, refl, Bool, true, false, not, ◌&&◌, List, [], ◌∷◌, ◌++◌, sym, subst, Option,
  none, some, ◌==◌, ◌!=◌, nat_eq, if◌then◌else◌, arith, Bool-cases, inl, inr,
}
use flowy.Base.{Text, text_eq, Time, is_zero, before, Map, lookup, insert_new, lookup-insert, ok}
use flowy.Wait.Types.{WaitDelivery, WaitDecision, WaitRecord, WaitHashes, IsHex, CancellationRecord}
use flowy.Wait.Validate.{
  is_event, is_timer, is_armed, is_canceled, is_accepted, has, canceled_at, cancel_sources,
  valid_wait_cancellation, valid_cancel, valid_winner, valid_status, bad_address,
  valid_wait_decision, valid_decisions, validate_durable_wait, contains,
}
use flowy.Wait.Arbitration.{decided, is_accepting, wait_decision_status, decision_of}
use flowy.Wait.Decisions.{
  IsValid, validate_of_parts, source_below, valid_decisions-append, accept_status, other_status,
  keeps_decision, armed_winner, armed_cancel, AllBelow,
}

module _ (h : WaitHashes) (hex : IsHex h) where
  lookup_below :
      (w : WaitRecord) (r : ℕ) (winner : Option WaitDecision) (s : List ℕ) (ds : Map WaitDecision)
      (k : Text) (x : WaitDecision)
      → valid_decisions h w r winner s ds ≡ true
      → lookup k ds ≡ some x
      → x.source_revision < r
  unfolding valid_decisions lookup
  lookup_below w r winner s [] k x v e = absurd (cc)
  lookup_below w r winner s ((j, y) ∷ ds) k x v e = ground (
    arith,
    source_below h w r winner s j y,
    lookup_below w r winner (y.source_revision ∷ s) ds k x,
  )

  -- What a new decision has passed.
  pub record IsAdmitted (w : WaitRecord) (delivery : WaitDelivery) (r incarnation : ℕ) (now : Time)
      : Type 0 where
    pub named : (delivery.id == []) ≡ false
    pub kind_known : (not (is_event delivery.kind) && not (is_timer delivery.kind)) ≡ false
    pub correlated : delivery.correlation_id ≡ w.spec.correlation_id
    pub fenced : (incarnation == 0) ≡ false
    pub clocked : is_zero now ≡ false
    pub timer_bare : is_timer delivery.kind ≡ true → delivery.payload ≡ []
    pub timer_due : is_timer delivery.kind ≡ true → before now w.spec.deadline.instant ≡ false
    pub new_id : lookup delivery.id w.decisions ≡ none

  module _ (w : WaitRecord) (delivery : WaitDelivery) (r incarnation : ℕ) (now : Time)
      (matched : Bool) (v : IsValid h w r) (a : IsAdmitted w delivery r incarnation now) where
    abbrev d : WaitDecision
    d = decision_of h w delivery r incarnation now matched

    cancel_below :
        is_canceled w.state ≡ true → (canceled_at w.cancellation < r) × (has w.cancellation ≡ true)
    unfolding valid_wait_cancellation valid_cancel
    cancel_below c = (ground (arith, v.cancellation_ok), ground (arith, v.cancellation_ok))

    cancel_bounds :
        (o : Option CancellationRecord) → w.cancellation ≡ o → AllBelow r (cancel_sources h o)
    unfolding valid_wait_cancellation valid_cancel
    cancel_bounds none e = tt
    cancel_bounds (some k) e = (ground (arith, v.cancellation_ok), tt)

    winner_below :
        (x : WaitDecision) → lookup w.winner_id w.decisions ≡ some x → x.source_revision < r
    winner_below x e =
        lookup_below w r (lookup w.winner_id w.decisions) (cancel_sources h w.cancellation)
          w.decisions w.winner_id x v.decisions_ok e

    added_decision :
        (winner : Option WaitDecision) (s : List ℕ)
        → valid_status d.status (decided w d) d winner ≡ true
        → contains s r ≡ false
        → valid_wait_decision h (decided w d) (r + 1) winner s d.id d ≡ true
    unfolding valid_wait_decision decided decision_of
    added_decision winner s status fresh = ground (
      arith,
      a.named,
      a.kind_known,
      a.correlated,
      a.fenced,
      a.clocked,
      a.timer_bare,
      a.timer_due,
      hex.canonical delivery.payload,
      v.armed_before,
    )

    accept_state : is_accepting d.status ≡ true → is_armed w.state ≡ true
    unfolding decision_of wait_decision_status
    accept_state acc = ground arith

    added_accept :
        is_accepting d.status ≡ true → valid_status d.status (decided w d) d (some d) ≡ true
    unfolding decision_of decided valid_status wait_decision_status
    added_accept acc = ground (arith, a.kind_known)

    added_other :
        (winner : Option WaitDecision)
        → winner ≡ lookup w.winner_id w.decisions
        → is_accepting d.status ≡ false
        → valid_status d.status (decided w d) d winner ≡ true
    unfolding decision_of decided valid_status wait_decision_status valid_winner
    added_other none e acc = ground (
      arith,
      armed_winner h w r v,
      armed_cancel h w r v,
      cancel_below,
      v.winner_ok,
      v.winner_accepted,
    )
    added_other (some x) e acc = ground (
      arith,
      armed_winner h w r v,
      armed_cancel h w r v,
      cancel_below,
      v.winner_ok,
      winner_below x,
    )

    decision_source : d.source_revision ≡ r
    unfolding decision_of
    decision_source = refl

    cancel_sources_below : AllBelow r (cancel_sources h w.cancellation)
    cancel_sources_below = cancel_bounds w.cancellation refl

    target_decisions : (decided w d).decisions ≡ w.decisions ++ (d.id, d) ∷ []
    unfolding decided decision_of
    target_decisions = ground (arith, insert_new d.id d w.decisions a.new_id)

    target_winner :
        lookup (decided w d).winner_id (decided w d).decisions
        ≡ (if is_accepting d.status then some d else lookup w.winner_id w.decisions)
    unfolding decided decision_of
    target_winner = ground (
      arith,
      lookup-insert d.id w.winner_id d w.decisions,
      lookup-insert d.id d.id d w.decisions,
      a.new_id,
      a.named,
      v.winner_accepted,
    )

    target_cancellation : valid_wait_cancellation (decided w d) (r + 1) ≡ true
    unfolding decided decision_of valid_wait_cancellation valid_cancel
    target_cancellation = ground (arith, v.cancellation_ok, armed_cancel h w r v, accept_state)

    target_state : valid_winner h (decided w d).state (decided w d).winner_id ≡ true
    unfolding decided decision_of valid_winner
    target_state = ground (arith, v.winner_ok, a.named)

    -- The decisions of the target, in both cases.
    target_list :
        (winner' : Option WaitDecision)
        → ((s : List ℕ) (id : Text) (x : WaitDecision)
            → valid_wait_decision h w r (lookup w.winner_id w.decisions) s id x ≡ true
            → valid_wait_decision h (decided w d) (r + 1) winner' s id x ≡ true)
        → valid_status d.status (decided w d) d winner' ≡ true
        → valid_decisions h
            (decided w d)
            (r + 1)
            winner'
            (cancel_sources h w.cancellation)
            (decided w d).decisions
          ≡ true
    target_list winner' keeps status =
        subst
          (λ ds.
            valid_decisions h (decided w d) (r + 1) winner' (cancel_sources h w.cancellation) ds
            ≡ true)
          (sym target_decisions)
          (valid_decisions-append h w (decided w d) r (lookup w.winner_id w.decisions) winner' keeps
            d.id d decision_source (λ s fresh. added_decision winner' s status fresh)
            (cancel_sources h w.cancellation) w.decisions cancel_sources_below v.decisions_ok)

    target_keeps :
        (s : List ℕ) (id : Text) (x : WaitDecision)
        → valid_wait_decision h w r (lookup w.winner_id w.decisions) s id x ≡ true
        → valid_wait_decision h
            (decided w d)
            (r + 1)
            (if is_accepting d.status then some d else lookup w.winner_id w.decisions)
            s
            id
            x
          ≡ true
    target_keeps s id x ok_x = elim (Bool-cases (is_accepting d.status)) [
      | inl acc ↦ rw acc (
          keeps_decision h w r d v decision_source (lookup w.winner_id w.decisions) (some d) s id x
            (accept_status h w r d v decision_source x (lookup w.winner_id w.decisions)
              (accept_state acc) acc)
            ok_x)
      | inr oth ↦ rw oth (
          keeps_decision h w r d v decision_source (lookup w.winner_id w.decisions)
            (lookup w.winner_id w.decisions) s id x
            (λ lt. other_status h w r d v decision_source x (lookup w.winner_id w.decisions) oth)
            ok_x)
    ]

    target_added :
        valid_status d.status
          (decided w d)
          d
          (if is_accepting d.status then some d else lookup w.winner_id w.decisions)
        ≡ true
    target_added = elim (Bool-cases (is_accepting d.status)) [
      | inl acc ↦ rw acc (added_accept acc)
      | inr oth ↦ rw oth (added_other (lookup w.winner_id w.decisions) refl oth)
    ]

    target_address : bad_address h w r ≡ false → bad_address h (decided w d) (r + 1) ≡ false
    unfolding bad_address decided
    target_address b = ground arith

    target_cancel_sources : (decided w d).cancellation ≡ w.cancellation
    unfolding decided
    target_cancel_sources = ground arith

    target_accepted :
        ((decided w d).winner_id != []
          && not (
              is_accepted h
                (if is_accepting d.status then some d else lookup w.winner_id w.decisions)))
        ≡ false
    unfolding decided decision_of wait_decision_status
    target_accepted = ground (arith, v.winner_accepted)

    pub target_valid :
        bad_address h w r ≡ false → validate_durable_wait h (decided w d) (r + 1) ≡ ok tt
    target_valid old =
        validate_of_parts h (decided w d) (r + 1) (target_address old) target_cancellation
          target_state
          (subst (λ o. ((decided w d).winner_id != [] && not (is_accepted h o)) ≡ false)
            (sym target_winner) target_accepted)
          (subst
            (λ k.
              valid_decisions h (decided w d) (r + 1)
                (lookup (decided w d).winner_id (decided w d).decisions) (cancel_sources h k)
                (decided w d).decisions
              ≡ true)
            (sym target_cancel_sources)
            (subst
              (λ o.
                valid_decisions h (decided w d) (r + 1) o (cancel_sources h w.cancellation)
                  (decided w d).decisions
                ≡ true)
              (sym target_winner) (target_list _ target_keeps target_added)))
