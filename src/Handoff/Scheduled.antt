-- ===== src/Handoff/Scheduled.antt =====
-- A recovered handoff is not recovered again (handoff_outbox.go, runner_recovery.go).
use flowy.Prelude.{
  ℕ, suc, ◌≡◌, ◌≢◌, refl, true, false, [], none, some, arith, ◌==◌, nat_eq, ==-refl, ==-false, sym,
  ◌∙◌, ap, subst,
}
use flowy.Base.{Text, text, text_eq, text_discrete, Time, Err, Result, ok, err}
use flowy.Execution.Types.{RunMetadata}
use flowy.Graph.{Graph}
use flowy.Graph.Routing.{validate_execution_pointer}
use flowy.Checkpoint.{Snapshot}
use flowy.Checkpoint.Interface.{Checkpointer, IsCheckpointer}
use flowy.Handoff.{
  status_pending, status_enqueued, status_orphaned, Outbox, FsmResult, patched,
  patch_handoff_status, after_orphan, after_enqueue, after_patch, enqueue_handoff_intent,
  build_handoff_intent, run_handoff_outbox_fsm, normalize_recovery_fsm_result,
  recover_handoff_enqueue,
}
use flowy.Handoff.Persisted.{patch_loads, enqueued_apart}
use flowy.Handoff.Recovery.{
  RecoverOpts, already_scheduled, normalize_loaded_snapshot, decide_recovery, checked_pointer,
  normalized, after_load, evaluate_handoff_recovery,
}

enqueued_not_orphaned : (status_enqueued == status_orphaned) ≡ false
unfolding text_discrete
enqueued_not_orphaned = refl

normalized_errors :
    (initial : RunMetadata) (r : FsmResult)
    → ((normalize_recovery_fsm_result initial r).enqueue_err ≡ r.enqueue_err)
      × ((normalize_recovery_fsm_result initial r).patch_err ≡ r.patch_err)
unfolding normalize_recovery_fsm_result
normalized_errors initial r = (ground arith, ground arith)

module _ {T E : Type 0} where
  stored_normalized :
      (snapshot : Snapshot T E) (revision : ℕ)
      → snapshot.revision ≡ suc revision
      → snapshot.thread_id ≢ []
      → snapshot.execution_pointer ≢ []
      → normalize_loaded_snapshot snapshot.thread_id snapshot (suc revision)
        ≡ ok (record snapshot { revision = suc revision })
  unfolding normalize_loaded_snapshot
  stored_normalized snapshot revision numbered named pointed = ground (
    arith,
    ==-false snapshot.thread_id [] named,
    ==-false snapshot.execution_pointer [] pointed,
    ==-refl snapshot.thread_id,
    numbered,
  )

  decided :
      (cfg : RecoverOpts) (later : Time) (snapshot : Snapshot T E) (revision : ℕ)
      → snapshot.run_meta.handoff_status ≡ status_enqueued
      → cfg.force_reenqueue ≡ false
      → (decide_recovery cfg later snapshot revision).status ≡ already_scheduled
  unfolding decide_recovery
  decided cfg later snapshot revision status force =
      let not_orphaned : (snapshot.run_meta.handoff_status == status_orphaned) ≡ false =
        subst (λ x. (x == status_orphaned) ≡ false) (sym status) enqueued_not_orphaned in
      let not_pending : (snapshot.run_meta.handoff_status == status_pending) ≡ false =
        subst (λ x. (x == status_pending) ≡ false) (sym status) enqueued_apart in
      let is : (snapshot.run_meta.handoff_status == status_enqueued) ≡ true =
        subst (λ x. (x == status_enqueued) ≡ true) (sym status) (==-refl status_enqueued) in
      ground (arith, not_orphaned, not_pending, is, force)

module _ {T E : Type 0} (c : Checkpointer T E) (laws : IsCheckpointer c) (g : Graph T E) where
  -- The evaluation of a stored snapshot that is enqueued.
  evaluated :
      (cfg : RecoverOpts) (later : Time) (s : c.Store) (snapshot : Snapshot T E) (revision : ℕ)
      → c.load s snapshot.thread_id ≡ ok (snapshot, suc revision)
      → snapshot.revision ≡ suc revision
      → snapshot.thread_id ≢ []
      → snapshot.execution_pointer ≢ []
      → validate_execution_pointer g snapshot.execution_pointer ≡ ok tt
      → snapshot.run_meta.handoff_status ≡ status_enqueued
      → cfg.force_reenqueue ≡ false
      → (evaluate_handoff_recovery c g cfg later s snapshot.thread_id).status ≡ already_scheduled
  unfolding evaluate_handoff_recovery
  evaluated cfg later s snapshot revision at numbered named pointed valid status force =
      let stored : Snapshot T E = record snapshot { revision = suc revision } in
      let entered : evaluate_handoff_recovery c g cfg later s snapshot.thread_id
          ≡ after_load g cfg later snapshot.thread_id (c.load s snapshot.thread_id) =
        ground (arith, ==-false snapshot.thread_id [] named) in
      ap (λ d. d.status)
        (entered
          ∙ ap (after_load g cfg later snapshot.thread_id) at
          ∙ ap (normalized g cfg later (suc revision))
              (stored_normalized snapshot revision numbered named pointed)
          ∙ ap (checked_pointer cfg later stored (suc revision)) valid)
      ∙ decided cfg later stored (suc revision) status force

  orphan_refused :
      (s : c.Store) (thread : Text) (revision : ℕ) (meta : RunMetadata) (refusal : Err)
      (res : c.Store × Result ℕ)
      → (after_orphan c thread revision meta refusal res).1.enqueue_err ≡ some refusal
  orphan_refused s thread revision meta refusal (s', err e) = refl
  orphan_refused s thread revision meta refusal (s', ok orphan) = refl

  queued_at :
      (cfg : RecoverOpts) (later : Time) (s s' : c.Store) (expected revision : ℕ)
      (snapshot : Snapshot T E) (now : Time) (res : Result (Unit {0}))
      → patch_handoff_status c s expected snapshot snapshot.run_meta status_enqueued now
        ≡ (s', ok revision)
      → snapshot.thread_id ≢ []
      → snapshot.execution_pointer ≢ []
      → validate_execution_pointer g snapshot.execution_pointer ≡ ok tt
      → cfg.force_reenqueue ≡ false
      → let o = after_enqueue c s' snapshot.thread_id revision snapshot snapshot.run_meta now res in
        o.1.enqueue_err ≡ none
        → (evaluate_handoff_recovery c g cfg later o.0 snapshot.thread_id).status
          ≡ already_scheduled
  unfolding patch_handoff_status
  queued_at cfg later s s' expected revision snapshot now (err refusal) h named pointed valid force
        no_refusal =
      let is =
        orphan_refused s' snapshot.thread_id revision snapshot.run_meta refusal
          (patch_handoff_status c s' revision snapshot snapshot.run_meta status_orphaned now) in
      let bad : some refusal ≡ none = sym is ∙ no_refusal in absurd (cc)
  queued_at cfg later s s' expected revision snapshot now (ok _) h named pointed valid force
        no_refusal =
      let stored : Snapshot T E = record snapshot {
        run_meta = patched snapshot.run_meta status_enqueued now;
      } in
      let next = laws.next s s' expected revision stored h in
      let one_on : revision ≡ suc expected = omega (arith, next) in
      let at =
        patch_loads c laws s s' expected revision snapshot snapshot.run_meta status_enqueued now
          h in
      evaluated cfg later s' (record stored { revision = suc expected }) expected
        (subst (λ r. c.load s' snapshot.thread_id ≡ ok (record stored { revision = r }, r)) one_on
          at)
        refl named pointed valid refl force

  recovered_at :
      (cfg : RecoverOpts) (later : Time) (s : c.Store) (expected : ℕ) (snapshot : Snapshot T E)
      (outbox : Outbox) (now : Time) (res : c.Store × Result ℕ)
      → patch_handoff_status c s expected snapshot snapshot.run_meta status_enqueued now ≡ res
      → snapshot.thread_id ≢ []
      → snapshot.execution_pointer ≢ []
      → validate_execution_pointer g snapshot.execution_pointer ≡ ok tt
      → cfg.force_reenqueue ≡ false
      → let o =
          after_patch c snapshot.thread_id expected snapshot snapshot.run_meta outbox
            snapshot.execution_pointer
            (text "handoff_recovery")
            now
            res in
        o.1.enqueue_err ≡ none
        → o.1.patch_err ≡ none
        → (evaluate_handoff_recovery c g cfg later o.0 snapshot.thread_id).status
          ≡ already_scheduled
  recovered_at cfg later s expected snapshot outbox now (s', err e) h named pointed valid force
        no_refusal no_error =
      absurd (cc)
  recovered_at cfg later s expected snapshot outbox now (s', ok revision) h named pointed valid
        force no_refusal no_error =
      queued_at cfg later s s' expected revision snapshot now
        (enqueue_handoff_intent outbox (
          build_handoff_intent snapshot.thread_id snapshot.execution_pointer
            (text "handoff_recovery") status_enqueued expected revision))
        h named pointed valid force no_refusal

  -- After a recovery that has met no error, a handoff is found to be scheduled already, at any later
  -- time and by any evaluation that does not force it to be enqueued again: the thread and the pointer
  -- are not empty, and the pointer is a node of the graph.
  pub recovered_scheduled :
      (cfg : RecoverOpts) (later : Time) (s : c.Store) (expected : ℕ) (snapshot : Snapshot T E)
      (outbox : Outbox) (now : Time)
      → snapshot.thread_id ≢ []
      → snapshot.execution_pointer ≢ []
      → validate_execution_pointer g snapshot.execution_pointer ≡ ok tt
      → cfg.force_reenqueue ≡ false
      → let o = recover_handoff_enqueue c s snapshot.thread_id snapshot expected outbox now in
        o.1.enqueue_err ≡ none
        → o.1.patch_err ≡ none
        → (evaluate_handoff_recovery c g cfg later o.0 snapshot.thread_id).status
          ≡ already_scheduled
  unfolding recover_handoff_enqueue run_handoff_outbox_fsm
  recovered_scheduled cfg later s expected snapshot outbox now named pointed valid force no_refusal
        no_error =
      let o =
        run_handoff_outbox_fsm c s snapshot.thread_id expected snapshot snapshot.run_meta outbox
          snapshot.execution_pointer (text "handoff_recovery") now in
      let (same_refusal, same_error) = normalized_errors snapshot.run_meta o.1 in
      recovered_at cfg later s expected snapshot outbox now
        (patch_handoff_status c s expected snapshot snapshot.run_meta status_enqueued now) refl
        named pointed valid force (sym same_refusal ∙ no_refusal) (sym same_error ∙ no_error)
