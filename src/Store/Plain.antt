-- ===== src/Store/Plain.antt =====
-- Stores that no execution has been rolled over in, and what their anchors say of the next envelope.
use flowy.Prelude.{
  ℕ, ◌≡◌, refl, sym, subst, ap, ◌∙◌, true, false, Option, none, some, nat_eq, arith, ltb,
  Bool-cases, Option-cases, inl, inr, eq_of_==, ==-refl,
}
use flowy.Base.{Text, text_eq, ok, ◌>>=◌, >>=-eq-ok, >>-eq-ok}
use flowy.Execution.Types.{Envelope, ForkLineage, fork_lineage_eq, RolloverLineage}
use flowy.Execution.Codec.{Codec}
use flowy.Execution.Transition.{
  same_fork, valid_fork_of, validate_fork_transition, validate_fork_anchor,
  validate_rollover_transition, equal_rollover_lineage, validate_lifecycle_anchors,
}
use flowy.Store.{
  Store, new_memory_execution_store, acquire_execution, renew_execution, release_execution, publish,
  predecessor, decode_execution, decode_anchored_execution,
}
use flowy.Store.Commit.{commit-IsCommitted}
use flowy.Store.Step.{Step, Reach, acquire, renew, release, commit, here, next}

pub same_fork_refl : (f : Option ForkLineage) → same_fork f f ≡ true
unfolding same_fork
same_fork_refl none = refl
same_fork_refl (some f) = ==-refl f

eq_of_same_fork : (f g : Option ForkLineage) → same_fork f g ≡ true → f ≡ g
unfolding same_fork
eq_of_same_fork none none h = refl
eq_of_same_fork none (some g) h = cc
eq_of_same_fork (some f) none h = cc
eq_of_same_fork (some f) (some g) h = ap some (eq_of_== f g h)

none_of_equal_lineage :
    (l : Option RolloverLineage) → equal_rollover_lineage l none ≡ true → l ≡ none
unfolding equal_rollover_lineage
none_of_equal_lineage none h = refl
none_of_equal_lineage (some l) h = cc

none_of_equal_none : (l : Option RolloverLineage) → equal_rollover_lineage none l ≡ true → l ≡ none
unfolding equal_rollover_lineage
none_of_equal_none none h = refl
none_of_equal_none (some l) h = cc

module _ (c : Codec) where
  -- No execution has been rolled over, and none without a revision has a fork.
  pub record IsPlain (s : Store c) : Type 0 where
    pub incoming : (id : Text) → s.incoming id ≡ none
    pub outgoing : (id : Text) → s.outgoing id ≡ none
    pub unforked : (id : Text) → s.heads id ≡ 0 → s.lineage id ≡ none

  pub new-IsPlain : IsPlain (new_memory_execution_store c)
  unfolding new_memory_execution_store
  new-IsPlain = record { incoming = λ id. refl; outgoing = λ id. refl; unforked = λ id h. refl }

  pub publish-IsPlain :
      (s : Store c) (id : Text) (expected : ℕ) (b : c.Encoded) (r : Envelope)
      → IsPlain s
      → IsPlain (publish c s id expected b r)
  unfolding publish
  publish-IsPlain s id expected b r p = record {
    incoming = p.incoming;
    outgoing = p.outgoing;
    unforked = λ j h. ground (arith, p.unforked j);
  }

  Step-IsPlain : (s t : Store c) → Step c s t → IsPlain s → IsPlain t
  unfolding acquire_execution renew_execution release_execution
  Step-IsPlain s t (acquire now again ctx id owner ttl l h) p = record {
    incoming = λ j. ground (arith, p.incoming j);
    outgoing = λ j. ground (arith, p.outgoing j);
    unforked = λ j e. ground (arith, p.unforked j);
  }
  Step-IsPlain s t (renew now again ctx lease l ttl h) p = record {
    incoming = λ j. ground (arith, p.incoming j);
    outgoing = λ j. ground (arith, p.outgoing j);
    unforked = λ j e. ground (arith, p.unforked j);
  }
  Step-IsPlain s t (release ctx lease h) p = record {
    incoming = λ j. ground (arith, p.incoming j);
    outgoing = λ j. ground (arith, p.outgoing j);
    unforked = λ j e. ground (arith, p.unforked j);
  }
  Step-IsPlain s t (commit now ctx expected lease e r h) p =
      let k = commit-IsCommitted c s t now ctx expected lease e r h in
      subst IsPlain (sym k.written) (publish-IsPlain s e.execution_id expected k.bytes r p)

  pub Reach-IsPlain : (s t : Store c) → Reach c s t → IsPlain s → IsPlain t
  Reach-IsPlain s t here p = p
  Reach-IsPlain s t (next {t = m} run st) p = Step-IsPlain m t st (Reach-IsPlain s m run p)

  fork_of_anchor :
      (q : Envelope) (anchor : Option ForkLineage)
      → validate_fork_anchor q anchor ≡ ok tt
      → anchor ≡ q.fork
  unfolding validate_fork_anchor validate_fork_transition
  fork_of_anchor q anchor h = eq_of_same_fork anchor q.fork (ground (arith, h))

  rollover_of_anchors :
      (q : Envelope) → validate_lifecycle_anchors c q none none ≡ ok tt → q.rollover ≡ none
  unfolding validate_lifecycle_anchors
  rollover_of_anchors q h = none_of_equal_lineage q.rollover (ground (arith, h))

  -- What the anchors of a plain store say of a stored envelope.
  anchored :
      (s : Store c) (o : Option c.Encoded) (id : Text) (n : ℕ) (p : Envelope)
      → IsPlain s
      → decode_anchored_execution c s o id n ≡ ok p
      → (s.lineage id ≡ p.fork) × (p.rollover ≡ none)
  unfolding decode_anchored_execution
  anchored s none id n p plain h = cc
  anchored s (some b) id n p plain h =
      let (q, d, h1) = >>=-eq-ok (decode_execution c b id n) _ h in
      let (forked, h2) = >>-eq-ok (validate_fork_anchor q (s.lineage id)) _ h1 in
      let (lived, h3) =
        >>-eq-ok (validate_lifecycle_anchors c q (s.incoming id) (s.outgoing id)) _ h2 in
      let same : q ≡ p = ground (arith, h3) in
      let bare =
        subst (λ o. validate_lifecycle_anchors c q (s.incoming id) o ≡ ok tt) (plain.outgoing id)
          lived in
      let open_ =
        subst (λ o. validate_lifecycle_anchors c q o none ≡ ok tt) (plain.incoming id) bare in
      (
        fork_of_anchor q (s.lineage id) forked ∙ ap (λ x. x.fork) same,
        sym (ap (λ x. x.rollover) same) ∙ rollover_of_anchors q open_,
      )

  module _ (s : Store c) (expected : ℕ) (e : Envelope) (previous : Option Envelope)
      (plain : IsPlain s) (loaded : predecessor c s e.execution_id expected ≡ ok previous)
      (rolled : validate_rollover_transition previous e ≡ ok tt)
      (forked : validate_fork_transition previous e ≡ ok tt) where
    first_commit : ltb 0 expected ≡ false → previous ≡ none
    unfolding predecessor
    first_commit z = ground (arith, loaded, z)

    later_commit :
        ltb 0 expected ≡ true
        → (p : Envelope) × (previous ≡ some p)
          × (s.lineage e.execution_id ≡ p.fork)
          × (p.rollover ≡ none)
    unfolding predecessor
    later_commit z =
        let id = e.execution_id in
        let stores : (decode_anchored_execution c s (s.history id expected) id expected >>= λ x.
        ok (some x))
            ≡ ok previous =
          ground (arith, loaded, z) in
        let (p, stored, h) =
          >>=-eq-ok (decode_anchored_execution c s (s.history id expected) id expected)
            (λ x. ok (some x)) stores in
        let (lineage, rollover) = anchored s (s.history id expected) id expected p plain stored in
        (p, ground (arith, h), lineage, rollover)

    pub fork_named : valid_fork_of e.fork e.execution_id ≡ true
    unfolding validate_fork_transition
    fork_named = ground (arith, forked)

    fork_kept : (p : Envelope) → previous ≡ some p → same_fork p.fork e.fork ≡ true
    unfolding validate_fork_transition
    fork_kept p q = ground (arith, forked, q)

    lineage_kept : (p : Envelope) → previous ≡ some p → p.rollover ≡ none → e.rollover ≡ none
    unfolding validate_rollover_transition
    lineage_kept p q r = none_of_equal_none e.rollover (ground (arith, rolled, q, r))

    not_rolled : previous ≡ none → e.rollover ≡ none
    unfolding validate_rollover_transition
    not_rolled q = ground (arith, rolled, q)

    pub not_transferred : e.transfer ≡ none
    unfolding validate_rollover_transition
    not_transferred = elim (Option-cases previous) [
      | inl q ↦ ground (arith, rolled, q)
      | inr (p, q) ↦ ground (arith, rolled, q)
    ]

    pub rollover_none : e.rollover ≡ none
    rollover_none = elim (Bool-cases (ltb 0 expected)) [
      | inl z ↦ let (p, q, lineage, rollover) = later_commit z in lineage_kept p q rollover
      | inr z ↦ not_rolled (first_commit z)
    ]

    pub fork_known : ltb 0 expected ≡ true → s.lineage e.execution_id ≡ e.fork
    fork_known z =
        let (p, q, lineage, rollover) = later_commit z in
        lineage ∙ eq_of_same_fork p.fork e.fork (fork_kept p q)
