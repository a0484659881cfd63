-- ===== src/Handoff/Once.antt =====
-- RecoverStaleHandoff recovers a handoff once (handoff_outbox.go, runner_recovery.go).
use flowy.Prelude.{
  ℕ, ◌≡◌, ◌≢◌, refl, Bool, true, false, not, ◌&&◌, [], Option, none, some, arith, ◌==◌, ◌!=◌,
  nat_eq, apart_of_==, sym, ◌∙◌, ap, subst, if◌then◌else◌,
}
use flowy.Base.{
  Text, text, text_eq, Time, Err, invalid_snapshot, invalid_resume_token, Result, ok, err,
  reject_if-eq-ok, ok-injective,
}
use flowy.Graph.{Graph, is_some}
use flowy.Graph.Routing.{validate_execution_pointer}
use flowy.Checkpoint.{Snapshot}
use flowy.Checkpoint.Interface.{Checkpointer, IsCheckpointer}
use flowy.Handoff.{Outbox, recover_handoff_enqueue}
use flowy.Handoff.Recovery.{
  RecoverOpts, DecisionStatus, invalid_token, not_found, invalid_status, load_failed, pending,
  recoverable, already_scheduled, not_recoverable, Decision, normalize_loaded_snapshot,
  decide_recovery, checked_pointer, normalized, after_load, evaluate_handoff_recovery, unloaded,
  recovery_error, recover_with, recover_decided, recover_stale_handoff,
}
use flowy.Handoff.Scheduled.{recovered_scheduled}

no_errors : (a b : Option Err) → not (is_some (recovery_error a b)) ≡ true → (a ≡ none) × (b ≡ none)
no_errors none none h = (refl, refl)
no_errors none (some e) h = absurd (cc)
no_errors (some e) none h = absurd (cc)
no_errors (some e) (some f) h = absurd (cc)

some-injective : {A : Type 0} (a b : A) → some a ≡ some b → a ≡ b
some-injective a b h = cc

module _ {T E : Type 0} (g : Graph T E) where
  -- A snapshot that may be handed off again.
  IsSound : Text → Snapshot T E → Type 0
  IsSound thread snapshot =
      (snapshot.thread_id ≡ thread)
      × (thread ≢ [])
      × (snapshot.execution_pointer ≢ [])
      × (validate_execution_pointer g snapshot.execution_pointer ≡ ok tt)

  -- A decision loads such a snapshot if it lets it be recovered.
  IsSafe : Text → Decision T E → Type 0
  IsSafe thread d =
      (snapshot : Snapshot T E) (revision : ℕ)
      → d.status ≡ recoverable
      → d.loaded ≡ some (snapshot, revision)
      → IsSound thread snapshot

  decided_loaded :
      (cfg : RecoverOpts) (now : Time) (s : Snapshot T E) (revision : ℕ)
      → (decide_recovery cfg now s revision).loaded ≡ some (s, revision)
  unfolding decide_recovery
  decided_loaded cfg now s revision = ground arith

  checked-IsSafe :
      (cfg : RecoverOpts) (now : Time) (thread : Text) (s : Snapshot T E) (revision : ℕ)
      (r : Result (Unit {0}))
      → validate_execution_pointer g s.execution_pointer ≡ r
      → s.thread_id ≡ thread
      → thread ≢ []
      → s.execution_pointer ≢ []
      → IsSafe thread (checked_pointer cfg now s revision r)
  unfolding IsSafe IsSound
  checked-IsSafe cfg now thread s revision (err e) is same named pointed snapshot n status loaded =
      absurd (cc)
  checked-IsSafe cfg now thread s revision (ok _) is same named pointed snapshot n status loaded =
      let it : s ≡ snapshot =
        ap (λ p. p.0)
          (some-injective (s, revision) (snapshot, n)
            (sym (decided_loaded cfg now s revision) ∙ loaded)) in
      (
        subst (λ x. x.thread_id ≡ thread) it same,
        named,
        subst (λ x. x.execution_pointer ≢ []) it pointed,
        subst (λ x. validate_execution_pointer g x.execution_pointer ≡ ok tt) it is,
      )

  normalize-eq-ok :
      (thread : Text) (raw s : Snapshot T E) (revision : ℕ)
      → normalize_loaded_snapshot thread raw revision ≡ ok s
      → (s.thread_id ≡ thread) × (thread ≢ []) × (s.execution_pointer ≢ [])
  unfolding normalize_loaded_snapshot
  normalize-eq-ok thread raw s revision h =
      let (named, h1) = reject_if-eq-ok (thread == []) invalid_snapshot _ h in
      let (_, h2) =
        reject_if-eq-ok (raw.thread_id != [] && raw.thread_id != thread) invalid_snapshot _ h1 in
      let (_, h3) = reject_if-eq-ok (revision == 0) invalid_snapshot _ h2 in
      let (_, h4) =
        reject_if-eq-ok (raw.revision != 0 && raw.revision != revision) invalid_snapshot _ h3 in
      let (pointed, h5) = reject_if-eq-ok (raw.execution_pointer == []) invalid_snapshot _ h4 in
      let made = ok-injective _ s h5 in
      (
        sym (ap (λ x. x.thread_id) made),
        apart_of_== thread [] named,
        subst (λ x. x.execution_pointer ≢ []) made (apart_of_== raw.execution_pointer [] pointed),
      )

  normalized-IsSafe :
      (cfg : RecoverOpts) (now : Time) (thread : Text) (raw : Snapshot T E) (revision : ℕ)
      (r : Result (Snapshot T E))
      → normalize_loaded_snapshot thread raw revision ≡ r
      → IsSafe thread (normalized g cfg now revision r)
  unfolding IsSafe
  normalized-IsSafe cfg now thread raw revision (err e) is snapshot n status loaded = absurd (cc)
  normalized-IsSafe cfg now thread raw revision (ok s) is snapshot n status loaded =
      let (same, named, pointed) = normalize-eq-ok thread raw s revision is in
      checked-IsSafe cfg now thread s revision (validate_execution_pointer g s.execution_pointer)
        refl same named pointed snapshot n status loaded

  loaded-IsSafe :
      (cfg : RecoverOpts) (now : Time) (thread : Text) (r : Result (Snapshot T E × ℕ))
      → IsSafe thread (after_load g cfg now thread r)
  unfolding IsSafe
  loaded-IsSafe cfg now thread (err e) snapshot n status loaded = absurd (cc)
  loaded-IsSafe cfg now thread (ok (raw, revision)) snapshot n status loaded =
      normalized-IsSafe cfg now thread raw revision (normalize_loaded_snapshot thread raw revision)
        refl snapshot n status loaded

  if-IsSafe :
      (test : Bool) (thread : Text) (d e : Decision T E)
      → IsSafe thread d
      → IsSafe thread e
      → IsSafe thread (if test then d else e)
  if-IsSafe true thread d e h k = h
  if-IsSafe false thread d e h k = k

  empty-IsSafe :
      (thread : Text)
      → IsSafe thread (unloaded invalid_token (text "empty_thread_id") invalid_resume_token)
  unfolding IsSafe
  empty-IsSafe thread snapshot n status loaded = absurd (cc)

module _ {T E : Type 0} (c : Checkpointer T E) (g : Graph T E) where
  evaluated-IsSafe :
      (cfg : RecoverOpts) (now : Time) (s : c.Store) (thread : Text)
      → IsSafe g thread (evaluate_handoff_recovery c g cfg now s thread)
  unfolding evaluate_handoff_recovery
  evaluated-IsSafe cfg now s thread =
      if-IsSafe g (thread == []) thread
        (unloaded invalid_token (text "empty_thread_id") invalid_resume_token)
        (after_load g cfg now thread (c.load s thread)) (empty-IsSafe g thread)
        (loaded-IsSafe g cfg now thread (c.load s thread))

  module _ (laws : IsCheckpointer c) where
    recovered_with :
        (cfg : RecoverOpts) (later : Time) (outbox : Outbox) (now : Time) (s : c.Store)
        (thread : Text) (d : Decision T E) (snapshot : Snapshot T E) (revision : ℕ)
        → IsSound g thread snapshot
        → cfg.force_reenqueue ≡ false
        → let o = recover_with c outbox now s thread d snapshot revision in
          o.1.recovered ≡ true
          → (evaluate_handoff_recovery c g cfg later o.0 thread).status ≡ already_scheduled
    unfolding IsSound
    recovered_with cfg later none now s thread d snapshot revision sound force done = absurd (cc)
    recovered_with cfg later (some enqueue) now s thread d snapshot revision
          (same, named, pointed, valid) force done =
        let o = recover_handoff_enqueue c s thread snapshot revision (some enqueue) now in
        let (taken, stored) = no_errors o.1.enqueue_err o.1.patch_err done in
        subst
          (λ t.
            let r = recover_handoff_enqueue c s t snapshot revision (some enqueue) now in
            r.1.enqueue_err ≡ none
            → r.1.patch_err ≡ none
            → (evaluate_handoff_recovery c g cfg later r.0 t).status ≡ already_scheduled)
          same
          (recovered_scheduled c laws g cfg later s revision snapshot (some enqueue) now
            (subst (λ t. t ≢ []) (sym same) named) pointed valid force)
          taken stored

    recovered_decided :
        (cfg first : RecoverOpts) (later now : Time) (s : c.Store) (thread : Text)
        (d : Decision T E) (status : DecisionStatus) (loaded : Option (Snapshot T E × ℕ))
        → d.status ≡ status
        → d.loaded ≡ loaded
        → IsSafe g thread d
        → cfg.force_reenqueue ≡ false
        → let o = recover_decided c first now s thread d status loaded in
          o.1.recovered ≡ true
          → (evaluate_handoff_recovery c g cfg later o.0 thread).status ≡ already_scheduled
    unfolding IsSafe
    recovered_decided cfg first later now s thread d recoverable (some (snapshot, revision)) is at
          safe force done =
        recovered_with cfg later first.outbox now s thread d snapshot revision
          (safe snapshot revision is at) force done
    recovered_decided cfg first later now s thread d recoverable none is at safe force done =
        absurd (cc)
    recovered_decided cfg first later now s thread d invalid_token loaded is at safe force done =
        absurd (cc)
    recovered_decided cfg first later now s thread d not_found loaded is at safe force done =
        absurd (cc)
    recovered_decided cfg first later now s thread d invalid_status loaded is at safe force done =
        absurd (cc)
    recovered_decided cfg first later now s thread d load_failed loaded is at safe force done =
        absurd (cc)
    recovered_decided cfg first later now s thread d pending loaded is at safe force done =
        absurd (cc)
    recovered_decided cfg first later now s thread d already_scheduled loaded is at safe force
          done =
        absurd (cc)
    recovered_decided cfg first later now s thread d not_recoverable loaded is at safe force done =
        absurd (cc)

    -- Once RecoverStaleHandoff has recovered a thread, an evaluation of that thread in the store that it
    -- leaves finds the handoff scheduled already, at any time and under any options that do not force it
    -- to be enqueued again.
    pub recovered_once :
        (first cfg : RecoverOpts) (now later : Time) (s : c.Store) (thread : Text)
        → cfg.force_reenqueue ≡ false
        → (recover_stale_handoff c g first now s thread).1.recovered ≡ true
        → (evaluate_handoff_recovery c g cfg later
            (recover_stale_handoff c g first now s thread).0
            thread).status
          ≡ already_scheduled
    unfolding recover_stale_handoff
    recovered_once first cfg now later s thread force done =
        let d = evaluate_handoff_recovery c g first now s thread in
        recovered_decided cfg first later now s thread d d.status d.loaded refl refl
          (evaluated-IsSafe first now s thread) force done
