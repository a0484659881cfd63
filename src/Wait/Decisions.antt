-- ===== src/Wait/Decisions.antt =====
-- A decided wait is a valid record at the next revision: the lemmas on its parts.
use flowy.Prelude.{
  ℕ, ◌+◌, ◌≤◌, ◌<◌, ◌≡◌, refl, true, false, not, ◌&&◌, List, [], ◌∷◌, ◌++◌, Option, none, some,
  ◌!=◌, nat_eq, arith,
}
use flowy.Base.{reject_if-eq-ok, wait_invalid, Text, text_eq, Map, lookup, ok}
use flowy.Wait.Types.{WaitDecision, WaitRecord, WaitHashes}
use flowy.Wait.Validate.{
  is_armed, is_accepted, cancel_sources, valid_wait_cancellation, valid_winner, valid_status,
  bad_address, valid_wait_decision, valid_decisions, validate_wait_decisions, validate_durable_wait,
  contains,
}
use flowy.Wait.Arbitration.{decided, is_accepting}

-- Every number of the list is below the bound.
abbrev pub AllBelow : ℕ → List ℕ → Type 0
AllBelow n [] = Unit {0}
AllBelow n (m ∷ rest) = (m < n) × AllBelow n rest

fresh_of_below : (n : ℕ) (l : List ℕ) → AllBelow n l → contains l n ≡ false
unfolding contains
fresh_of_below n [] b = refl
fresh_of_below n (m ∷ l) b = ground (arith, fresh_of_below n l b.1)

module _ (h : WaitHashes) where
  -- What validateDurableWait establishes.
  pub record IsValid (w : WaitRecord) (r : ℕ) : Type 0 where
    pub armed_before : w.arm_revision ≤ r
    pub cancellation_ok : valid_wait_cancellation w r ≡ true
    pub winner_ok : valid_winner h w.state w.winner_id ≡ true
    pub winner_accepted :
        (w.winner_id != [] && not (is_accepted h (lookup w.winner_id w.decisions))) ≡ false
    pub decisions_ok :
        valid_decisions h w r
          (lookup w.winner_id w.decisions)
          (cancel_sources h w.cancellation)
          w.decisions
        ≡ true

  arm_before : (w : WaitRecord) (r : ℕ) → bad_address h w r ≡ false → w.arm_revision ≤ r
  unfolding bad_address
  arm_before w r b = ground arith

  pub validate-IsValid :
      (w : WaitRecord) (r : ℕ) → validate_durable_wait h w r ≡ ok tt → IsValid w r
  unfolding validate_durable_wait validate_wait_decisions
  validate-IsValid w r v = record {
    armed_before = arm_before w r (reject_if-eq-ok (bad_address h w r) wait_invalid _ v).0;
    cancellation_ok = ground arith;
    winner_ok = ground arith;
    winner_accepted = ground arith;
    decisions_ok = ground arith;
  }

  -- The parts make a valid record.
  pub validate_of_parts :
      (w : WaitRecord) (r : ℕ)
      → bad_address h w r ≡ false
      → valid_wait_cancellation w r ≡ true
      → valid_winner h w.state w.winner_id ≡ true
      → (w.winner_id != [] && not (is_accepted h (lookup w.winner_id w.decisions))) ≡ false
      → valid_decisions h w r
          (lookup w.winner_id w.decisions)
          (cancel_sources h w.cancellation)
          w.decisions
        ≡ true
      → validate_durable_wait h w r ≡ ok tt
  unfolding validate_durable_wait validate_wait_decisions
  validate_of_parts w r address cancel state winner decisions =
      rw (address, cancel, state, winner, decisions)

  pub source_below :
      (w : WaitRecord) (r : ℕ) (winner : Option WaitDecision) (s : List ℕ) (id : Text)
      (d : WaitDecision)
      → valid_wait_decision h w r winner s id d ≡ true
      → d.source_revision < r
  unfolding valid_wait_decision
  source_below w r winner s id d v = ground arith

  -- Of one decision under the old record and under the new one.
  module _ (w u : WaitRecord) (r : ℕ) (winner winner' : Option WaitDecision)
      (keeps : (s : List ℕ) (id : Text) (d : WaitDecision)
        → valid_wait_decision h w r winner s id d ≡ true
        → valid_wait_decision h u (r + 1) winner' s id d ≡ true)
      (id : Text) (d : WaitDecision) (at_revision : d.source_revision ≡ r)
      (added : (s : List ℕ)
        → contains s r ≡ false
        → valid_wait_decision h u (r + 1) winner' s id d ≡ true) where
    pub valid_decisions-append :
        (s : List ℕ) (ds : Map WaitDecision)
        → AllBelow r s
        → valid_decisions h w r winner s ds ≡ true
        → valid_decisions h u (r + 1) winner' s (ds ++ (id, d) ∷ []) ≡ true
    unfolding valid_decisions
    valid_decisions-append s [] b v = ground (arith, added s (fresh_of_below r s b))
    valid_decisions-append s ((j, x) ∷ ds) b v = ground (
      arith,
      keeps s j x,
      source_below w r winner s j x,
      valid_decisions-append (x.source_revision ∷ s) ds,
    )

  module _ (w : WaitRecord) (r : ℕ) (v : IsValid w r) where
    pub armed_winner : is_armed w.state ≡ true → w.winner_id ≡ []
    unfolding valid_winner
    armed_winner a = ground (arith, v.winner_ok)

    pub armed_cancel : is_armed w.state ≡ true → w.cancellation ≡ none
    unfolding valid_wait_cancellation
    armed_cancel a = ground (arith, v.cancellation_ok)

  module _ (w : WaitRecord) (r : ℕ) (d : WaitDecision) (v : IsValid w r)
      (now : d.source_revision ≡ r) where
    pub accept_status :
        (x : WaitDecision) (winner : Option WaitDecision)
        → is_armed w.state ≡ true
        → is_accepting d.status ≡ true
        → x.source_revision < r
        → valid_status x.status w x winner ≡ true
        → valid_status x.status (decided w d) x (some d) ≡ true
    unfolding valid_status decided
    accept_status x winner a acc lt st = ground (arith, armed_winner w r v a, armed_cancel w r v a)

    pub other_status :
        (x : WaitDecision) (winner : Option WaitDecision)
        → is_accepting d.status ≡ false
        → valid_status x.status w x winner ≡ true
        → valid_status x.status (decided w d) x winner ≡ true
    unfolding valid_status decided
    other_status x winner acc st = ground arith

    pub keeps_decision :
        (winner winner' : Option WaitDecision) (s : List ℕ) (id : Text) (x : WaitDecision)
        → (x.source_revision < r
            → valid_status x.status w x winner ≡ true
            → valid_status x.status (decided w d) x winner' ≡ true)
        → valid_wait_decision h w r winner s id x ≡ true
        → valid_wait_decision h (decided w d) (r + 1) winner' s id x ≡ true
    unfolding valid_wait_decision decided
    keeps_decision winner winner' s id x status ok_x = ground arith
