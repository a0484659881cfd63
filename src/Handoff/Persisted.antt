-- ===== src/Handoff/Persisted.antt =====
-- What the handoff outbox reports is what is stored (handoff_outbox.go).
use flowy.Prelude.{
  ℕ, ◌≡◌, refl, true, false, arith, ◌==◌, nat_eq, Bool-cases, inl, inr, ==-refl, eq_of_==, sym, ◌∙◌,
  subst,
}
use flowy.Base.{Text, text, text_eq, text_discrete, Time, Err, Result, ok, err}
use flowy.Execution.Types.{RunMetadata}
use flowy.Checkpoint.{Snapshot}
use flowy.Checkpoint.Interface.{Checkpointer, IsCheckpointer}
use flowy.Handoff.{
  status_pending, status_enqueued, status_orphaned, build_handoff_intent, Outbox,
  enqueue_handoff_intent, FsmResult, patched, patch_handoff_status, after_orphan, after_enqueue,
  after_patch, run_handoff_outbox_fsm, is_given, normalize_recovery_fsm_result,
  recover_handoff_enqueue,
}

pub enqueued_apart : (status_enqueued == status_pending) ≡ false
unfolding text_discrete
enqueued_apart = refl

orphaned_apart : (status_orphaned == status_pending) ≡ false
unfolding text_discrete
orphaned_apart = refl

normalized_same :
    (initial : RunMetadata) (r : FsmResult)
    → (initial.handoff_status == status_pending) ≡ true
    → normalize_recovery_fsm_result initial r ≡ r
unfolding normalize_recovery_fsm_result
normalized_same initial r still = ground (arith, still)

normalized_initial :
    (initial : RunMetadata) (r : FsmResult)
    → is_given r.patch_err ≡ true
    → (r.persisted_status == status_pending) ≡ true
    → (initial.handoff_status == status_pending) ≡ false
    → normalize_recovery_fsm_result initial r ≡ record r {
      persisted_status = initial.handoff_status;
      persisted_pending_at = initial.handoff_pending_at;
    }
unfolding normalize_recovery_fsm_result
normalized_initial initial r given was other = ground (arith, given, was, other)

module _ {T E : Type 0} (c : Checkpointer T E) where
  -- The thread's snapshot in the store has the revision, the status and the time of the result.
  abbrev pub IsReported : c.Store → Text → FsmResult → Type 0
  IsReported s thread r =
      (snapshot : Snapshot T E) × (c.load s thread
        ≡ ok (snapshot, r.resume_token.snapshot_revision))
      × (snapshot.run_meta.handoff_status ≡ r.persisted_status)
      × (snapshot.run_meta.handoff_pending_at ≡ r.persisted_pending_at)

  module _ (laws : IsCheckpointer c) where
    pub patch_loads :
        (s s' : c.Store) (expected revision : ℕ) (snapshot : Snapshot T E) (meta : RunMetadata)
        (status : Text) (now : Time)
        → patch_handoff_status c s expected snapshot meta status now ≡ (s', ok revision)
        → c.load s' snapshot.thread_id
          ≡ ok (
            record snapshot { run_meta = patched meta status now; revision = revision },
            revision,
          )
    unfolding patch_handoff_status
    patch_loads s s' expected revision snapshot meta status now h =
        laws.loads s s' expected revision (record snapshot { run_meta = patched meta status now }) h

    pub patch_refused :
        (s s' : c.Store) (expected : ℕ) (snapshot : Snapshot T E) (meta : RunMetadata)
        (status : Text) (now : Time) (e : Err)
        → patch_handoff_status c s expected snapshot meta status now ≡ (s', err e)
        → s' ≡ s
    unfolding patch_handoff_status
    patch_refused s s' expected snapshot meta status now e h =
        laws.refused s s' expected (record snapshot { run_meta = patched meta status now }) e h

    -- A refused patch leaves what is loaded.
    still_loads :
        (s s' : c.Store) (expected : ℕ) (snapshot : Snapshot T E) (meta : RunMetadata)
        (status : Text) (now : Time) (e : Err) (loaded : Result (Snapshot T E × ℕ))
        → patch_handoff_status c s expected snapshot meta status now ≡ (s', err e)
        → c.load s snapshot.thread_id ≡ loaded
        → c.load s' snapshot.thread_id ≡ loaded
    still_loads s s' expected snapshot meta status now e loaded h at =
        subst (λ x. c.load x snapshot.thread_id ≡ loaded)
          (sym (patch_refused s s' expected snapshot meta status now e h)) at

    after_orphan-IsReported :
        (s : c.Store) (enqueued : ℕ) (snapshot : Snapshot T E) (meta : RunMetadata) (refusal : Err)
        (now : Time) (res : c.Store × Result ℕ)
        → patch_handoff_status c s enqueued snapshot meta status_orphaned now ≡ res
        → c.load s snapshot.thread_id
          ≡ ok (
            record snapshot { run_meta = patched meta status_enqueued now; revision = enqueued },
            enqueued,
          )
        → let o = after_orphan c snapshot.thread_id enqueued meta refusal res in
          IsReported o.0 snapshot.thread_id o.1
    after_orphan-IsReported s enqueued snapshot meta refusal now (s', err e) h before = (
      record snapshot { run_meta = patched meta status_enqueued now; revision = enqueued },
      still_loads s s' enqueued snapshot meta status_orphaned now e
          (ok (
            record snapshot { run_meta = patched meta status_enqueued now; revision = enqueued },
            enqueued,
          ))
          h before,
      refl,
      ground (arith, enqueued_apart),
    )
    after_orphan-IsReported s enqueued snapshot meta refusal now (s', ok orphan) h before = (
      record snapshot { run_meta = patched meta status_orphaned now; revision = orphan },
      patch_loads s s' enqueued orphan snapshot meta status_orphaned now h,
      refl,
      ground (arith, orphaned_apart),
    )

    after_enqueue-IsReported :
        (s : c.Store) (enqueued : ℕ) (snapshot : Snapshot T E) (meta : RunMetadata) (now : Time)
        (res : Result (Unit {0}))
        → c.load s snapshot.thread_id
          ≡ ok (
            record snapshot { run_meta = patched meta status_enqueued now; revision = enqueued },
            enqueued,
          )
        → let o = after_enqueue c s snapshot.thread_id enqueued snapshot meta now res in
          IsReported o.0 snapshot.thread_id o.1
    after_enqueue-IsReported s enqueued snapshot meta now (ok _) before = (
      record snapshot { run_meta = patched meta status_enqueued now; revision = enqueued },
      before,
      refl,
      ground (arith, enqueued_apart),
    )
    after_enqueue-IsReported s enqueued snapshot meta now (err refusal) before =
        after_orphan-IsReported s enqueued snapshot meta refusal now
          (patch_handoff_status c s enqueued snapshot meta status_orphaned now) refl before

    -- With the first patch done, what is reported is stored.
    patched-IsReported :
        (s s' : c.Store) (pending enqueued : ℕ) (snapshot : Snapshot T E) (meta : RunMetadata)
        (outbox : Outbox) (pointer reason : Text) (now : Time)
        → patch_handoff_status c s pending snapshot meta status_enqueued now ≡ (s', ok enqueued)
        → let o =
            after_patch c snapshot.thread_id pending snapshot meta outbox pointer reason now
              (s', ok enqueued) in
          IsReported o.0 snapshot.thread_id o.1
    patched-IsReported s s' pending enqueued snapshot meta outbox pointer reason now h =
        after_enqueue-IsReported s' enqueued snapshot meta now
          (enqueue_handoff_intent outbox (
            build_handoff_intent snapshot.thread_id pointer reason status_enqueued pending
              enqueued))
          (patch_loads s s' pending enqueued snapshot meta status_enqueued now h)

    after_orphan_apart :
        (s : c.Store) (thread : Text) (enqueued : ℕ) (meta : RunMetadata) (refusal : Err)
        (res : c.Store × Result ℕ)
        → ((after_orphan c thread enqueued meta refusal res).1.persisted_status == status_pending)
          ≡ false
    after_orphan_apart s thread enqueued meta refusal (s', err e) = enqueued_apart
    after_orphan_apart s thread enqueued meta refusal (s', ok orphan) = orphaned_apart

    after_enqueue_apart :
        (s : c.Store) (thread : Text) (enqueued : ℕ) (snapshot : Snapshot T E) (meta : RunMetadata)
        (now : Time) (res : Result (Unit {0}))
        → ((after_enqueue c s thread enqueued snapshot meta now res).1.persisted_status
            == status_pending)
          ≡ false
    after_enqueue_apart s thread enqueued snapshot meta now (ok _) = enqueued_apart
    after_enqueue_apart s thread enqueued snapshot meta now (err refusal) =
        after_orphan_apart s thread enqueued meta refusal
          (patch_handoff_status c s enqueued snapshot meta status_orphaned now)

    machine_from :
        (s : c.Store) (pending : ℕ) (stored snapshot : Snapshot T E) (meta : RunMetadata)
        (outbox : Outbox) (pointer reason : Text) (now : Time)
        → c.load s snapshot.thread_id ≡ ok (stored, pending)
        → stored.run_meta.handoff_status ≡ status_pending
        → stored.run_meta.handoff_pending_at ≡ meta.handoff_pending_at
        → (res : c.Store × Result ℕ)
        → patch_handoff_status c s pending snapshot meta status_enqueued now ≡ res
        → let o =
            after_patch c snapshot.thread_id pending snapshot meta outbox pointer reason now res in
          IsReported o.0 snapshot.thread_id o.1
    machine_from s pending stored snapshot meta outbox pointer reason now at is_pending since
          (s', err e) h =
        (
          stored,
          still_loads s s' pending snapshot meta status_enqueued now e (ok (stored, pending)) h at,
          is_pending,
          since ∙ ground (arith, ==-refl status_pending),
        )
    machine_from s pending stored snapshot meta outbox pointer reason now at is_pending since
          (s', ok enqueued) h =
        patched-IsReported s s' pending enqueued snapshot meta outbox pointer reason now h

    -- When the outbox machine runs on a handoff that is stored as pending, at the revision of that
    -- snapshot, then whatever the saves and the outbox answer, the thread's snapshot in the store that
    -- it leaves has the revision of the token, the status and the time that it reports. A save that
    -- fails leaves the store, and nobody else writes to it meanwhile.
    pub fsm_reports :
        (s : c.Store) (pending : ℕ) (stored snapshot : Snapshot T E) (meta : RunMetadata)
        (outbox : Outbox) (pointer reason : Text) (now : Time)
        → c.load s snapshot.thread_id ≡ ok (stored, pending)
        → stored.run_meta.handoff_status ≡ status_pending
        → stored.run_meta.handoff_pending_at ≡ meta.handoff_pending_at
        → let o =
            run_handoff_outbox_fsm c s snapshot.thread_id pending snapshot meta outbox pointer
              reason now in
          IsReported o.0 snapshot.thread_id o.1
    unfolding run_handoff_outbox_fsm
    fsm_reports s pending stored snapshot meta outbox pointer reason now at is_pending since =
        machine_from s pending stored snapshot meta outbox pointer reason now at is_pending since
          (patch_handoff_status c s pending snapshot meta status_enqueued now) refl

    normalized_apart :
        (s : c.Store) (thread : Text) (initial : RunMetadata) (r : FsmResult)
        → (r.persisted_status == status_pending) ≡ false
        → IsReported s thread r
        → IsReported s thread (normalize_recovery_fsm_result initial r)
    unfolding normalize_recovery_fsm_result
    normalized_apart s thread initial r apart h =
        let same : normalize_recovery_fsm_result initial r ≡ r = ground (arith, apart) in
        subst (IsReported s thread) (sym same) h

    recovered_from :
        (s : c.Store) (expected : ℕ) (snapshot : Snapshot T E) (outbox : Outbox) (now : Time)
        → c.load s snapshot.thread_id ≡ ok (snapshot, expected)
        → (res : c.Store × Result ℕ)
        → patch_handoff_status c s expected snapshot snapshot.run_meta status_enqueued now ≡ res
        → let o =
            after_patch c snapshot.thread_id expected snapshot snapshot.run_meta outbox
              snapshot.execution_pointer
              (text "handoff_recovery")
              now
              res in
          IsReported o.0 snapshot.thread_id (normalize_recovery_fsm_result snapshot.run_meta o.1)
    unfolding normalize_recovery_fsm_result
    recovered_from s expected snapshot outbox now at (s', err e) h =
        let there : c.load s' snapshot.thread_id ≡ ok (snapshot, expected) =
          still_loads s s' expected snapshot snapshot.run_meta status_enqueued now e
            (ok (snapshot, expected)) h at in
        let r : FsmResult =
          (after_patch c snapshot.thread_id expected snapshot snapshot.run_meta outbox
            snapshot.execution_pointer (text "handoff_recovery") now (s', err e)).1 in
        elim (Bool-cases (snapshot.run_meta.handoff_status == status_pending)) [
          | inl still ↦
              let same : normalize_recovery_fsm_result snapshot.run_meta r ≡ r =
                normalized_same snapshot.run_meta r still in
              subst (IsReported s' snapshot.thread_id) (sym same) (
                snapshot,
                there,
                eq_of_== snapshot.run_meta.handoff_status status_pending still,
                ground (arith, ==-refl status_pending),
              )
          | inr other ↦
              let same : normalize_recovery_fsm_result snapshot.run_meta r ≡ record r {
                persisted_status = snapshot.run_meta.handoff_status;
                persisted_pending_at = snapshot.run_meta.handoff_pending_at;
              } =
                normalized_initial snapshot.run_meta r refl (==-refl status_pending) other in
              subst (IsReported s' snapshot.thread_id) (sym same) (snapshot, there, refl, refl)
        ]
    recovered_from s expected snapshot outbox now at (s', ok enqueued) h =
        normalized_apart
          (after_patch c snapshot.thread_id expected snapshot snapshot.run_meta outbox
            snapshot.execution_pointer (text "handoff_recovery") now (s', ok enqueued)).0
          snapshot.thread_id snapshot.run_meta
          (after_patch c snapshot.thread_id expected snapshot snapshot.run_meta outbox
            snapshot.execution_pointer (text "handoff_recovery") now (s', ok enqueued)).1
          (after_enqueue_apart s' snapshot.thread_id enqueued snapshot snapshot.run_meta now (
            enqueue_handoff_intent outbox (
              build_handoff_intent snapshot.thread_id snapshot.execution_pointer
                (text "handoff_recovery") status_enqueued expected enqueued)))
          (patched-IsReported s s' expected enqueued snapshot snapshot.run_meta outbox
            snapshot.execution_pointer (text "handoff_recovery") now h)

    -- Recovery runs the machine on the snapshot that it has loaded, whatever status that has; again the
    -- thread's snapshot in the store that it leaves has the revision of the token, the status and the
    -- time that it reports. A save that fails leaves the store, and nobody else writes to it meanwhile.
    pub recovery_reports :
        (s : c.Store) (expected : ℕ) (snapshot : Snapshot T E) (outbox : Outbox) (now : Time)
        → c.load s snapshot.thread_id ≡ ok (snapshot, expected)
        → let o = recover_handoff_enqueue c s snapshot.thread_id snapshot expected outbox now in
          IsReported o.0 snapshot.thread_id o.1
    unfolding recover_handoff_enqueue run_handoff_outbox_fsm
    recovery_reports s expected snapshot outbox now at =
        recovered_from s expected snapshot outbox now at
          (patch_handoff_status c s expected snapshot snapshot.run_meta status_enqueued now) refl
