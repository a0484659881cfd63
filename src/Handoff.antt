-- ===== src/Handoff.antt =====
-- The handoff outbox as a state machine over a checkpointer: pending, enqueued, orphaned
-- (handoff_outbox.go, runner_checkpoint.go), the intents (flowy.go), and recovery. The outbox is the
-- function that says whether an intent is taken; a nil one is `none`. Metrics are not modelled.
pub mod Persisted
pub mod Asked
pub mod Recovery
pub mod Scheduled
pub mod Once
pub mod Examples
use flowy.Prelude.{
  ℕ, ◌+◌, Bool, true, false, not, ◌&&◌, ◌||◌, [], ◌∷◌, Option, none, some, ◌==◌, ◌!=◌, nat_eq, ltb,
  if◌then◌else◌,
}
use flowy.Base.{
  Text, text, text_eq, Time, zero_time, Err, handoff_patch_failed, handoff_enqueue_failed,
  invalid_handoff_intent, joined, concurrency_conflict, failed_with, Result, ok, err, ◌>>=◌, ◌>>◌,
  reject_if, joining,
}
use flowy.Execution.Types.{RunMetadata}
use flowy.Checkpoint.{Snapshot}
use flowy.Checkpoint.Interface.{Checkpointer}

-- HandoffStatus
abbrev pub status_pending : Text
status_pending = text "pending"

abbrev pub status_enqueued : Text
status_enqueued = text "enqueued"

abbrev pub status_orphaned : Text
status_orphaned = text "orphaned"

pub record ResumeToken : Type 0 where
  pub thread_id : Text
  pub snapshot_revision : ℕ

pub record HandoffIntent : Type 0 where
  pub thread_id : Text
  pub execution_pointer : Text
  pub reason : Text
  pub handoff_status : Text
  pub pending_snapshot_revision : ℕ
  pub committed_snapshot_revision : ℕ
  pub snapshot_revision : ℕ
  pub resume_token : ResumeToken

unfoldable pub build_handoff_intent : Text → Text → Text → Text → ℕ → ℕ → HandoffIntent
build_handoff_intent thread_id pointer reason status pending committed = record {
  thread_id = thread_id;
  execution_pointer = pointer;
  reason = reason;
  handoff_status = status;
  pending_snapshot_revision = pending;
  committed_snapshot_revision = committed;
  snapshot_revision = committed;
  resume_token = record { thread_id = thread_id; snapshot_revision = committed };
}

unfoldable pub validate_handoff_intent : HandoffIntent → Result (Unit {0})
validate_handoff_intent i = do
  reject_if (i.thread_id == []) invalid_handoff_intent
  reject_if (i.execution_pointer == []) invalid_handoff_intent
  reject_if (i.handoff_status != status_enqueued) invalid_handoff_intent
  reject_if (i.pending_snapshot_revision == 0) invalid_handoff_intent
  reject_if (i.committed_snapshot_revision == 0) invalid_handoff_intent
  reject_if (i.snapshot_revision == 0) invalid_handoff_intent
  reject_if (i.resume_token.thread_id != i.thread_id) invalid_handoff_intent
  reject_if (i.resume_token.snapshot_revision != i.snapshot_revision) invalid_handoff_intent
  reject_if (i.snapshot_revision != i.committed_snapshot_revision) invalid_handoff_intent
  reject_if (ltb i.committed_snapshot_revision i.pending_snapshot_revision) invalid_handoff_intent

-- HandoffOutbox
abbrev pub Outbox : Type 0
Outbox = Option (HandoffIntent → Result (Unit {0}))

unfoldable pub enqueue_handoff_intent : Outbox → HandoffIntent → Result (Unit {0})
enqueue_handoff_intent none intent = ok tt
enqueue_handoff_intent (some enqueue) intent =
    validate_handoff_intent intent >> joining handoff_enqueue_failed (enqueue intent)

-- handoffOutboxFSMResult
pub record FsmResult : Type 0 where
  pub resume_token : ResumeToken
  pub enqueue_err : Option Err
  pub patch_err : Option Err
  pub persisted_status : Text
  pub persisted_pending_at : Time

abbrev pub persisted_handoff_pending_at : Text → Time → Time
persisted_handoff_pending_at status pending_at =
    if status == status_pending then pending_at else zero_time

abbrev pub wrap_handoff_patch_failed : Err → Option Err
wrap_handoff_patch_failed e = some (joined handoff_patch_failed e)

-- The metadata that a patch writes at `now`.
abbrev pub patched : RunMetadata → Text → Time → RunMetadata
patched meta status now = record meta {
  handoff_status = status;
  handoff_pending_at = if status == status_pending then now else zero_time;
}

abbrev pub is_given : Option Err → Bool
is_given none = false
is_given (some e) = true

unfoldable pub normalize_recovery_fsm_result : RunMetadata → FsmResult → FsmResult
normalize_recovery_fsm_result initial fsm =
    if is_given fsm.patch_err
      && fsm.persisted_status == status_pending
      && initial.handoff_status != status_pending
    then record fsm {
      persisted_status = initial.handoff_status;
      persisted_pending_at = initial.handoff_pending_at;
    }
    else fsm

module _ {T E : Type 0} (c : Checkpointer T E) where
  unfoldable pub patch_handoff_status :
      c.Store → ℕ → Snapshot T E → RunMetadata → Text → Time → c.Store × Result ℕ
  patch_handoff_status s expected snapshot meta status now =
      c.save s expected (record snapshot { run_meta = patched meta status now })

  -- The last phase, after the outbox has refused the intent.
  abbrev pub after_orphan : Text → ℕ → RunMetadata → Err → c.Store × Result ℕ → c.Store × FsmResult
  after_orphan thread_id enqueued meta refusal (s', err e) = (
    s',
    record {
      resume_token = record { thread_id = thread_id; snapshot_revision = enqueued };
      enqueue_err = some refusal;
      patch_err = wrap_handoff_patch_failed e;
      persisted_status = status_enqueued;
      persisted_pending_at = persisted_handoff_pending_at status_enqueued meta.handoff_pending_at;
    },
  )
  after_orphan thread_id enqueued meta refusal (s', ok orphan) = (
    s',
    record {
      resume_token = record { thread_id = thread_id; snapshot_revision = orphan };
      enqueue_err = some refusal;
      patch_err = none;
      persisted_status = status_orphaned;
      persisted_pending_at = persisted_handoff_pending_at status_orphaned meta.handoff_pending_at;
    },
  )

  abbrev pub after_enqueue :
      c.Store
      → Text
      → ℕ
      → Snapshot T E
      → RunMetadata
      → Time
      → Result (Unit {0})
      → c.Store × FsmResult
  after_enqueue s thread_id enqueued snapshot meta now (ok _) = (
    s,
    record {
      resume_token = record { thread_id = thread_id; snapshot_revision = enqueued };
      enqueue_err = none;
      patch_err = none;
      persisted_status = status_enqueued;
      persisted_pending_at = zero_time;
    },
  )
  after_enqueue s thread_id enqueued snapshot meta now (err refusal) =
      after_orphan thread_id enqueued meta refusal
        (patch_handoff_status s enqueued snapshot meta status_orphaned now)

  -- newHandoffIntent panics on an intent that is not valid.
  abbrev pub after_patch :
      Text
      → ℕ
      → Snapshot T E
      → RunMetadata
      → Outbox
      → Text
      → Text
      → Time
      → c.Store × Result ℕ
      → c.Store × FsmResult
  after_patch thread_id pending snapshot meta outbox pointer reason now (s', err e) = (
    s',
    record {
      resume_token = record { thread_id = thread_id; snapshot_revision = pending };
      enqueue_err = none;
      patch_err = wrap_handoff_patch_failed e;
      persisted_status = status_pending;
      persisted_pending_at = persisted_handoff_pending_at status_pending meta.handoff_pending_at;
    },
  )
  after_patch thread_id pending snapshot meta outbox pointer reason now (s', ok enqueued) =
      after_enqueue s' thread_id enqueued snapshot meta now (
        enqueue_handoff_intent outbox
          (build_handoff_intent thread_id pointer reason status_enqueued pending enqueued))

  unfoldable pub run_handoff_outbox_fsm :
      c.Store
      → Text
      → ℕ
      → Snapshot T E
      → RunMetadata
      → Outbox
      → Text
      → Text
      → Time
      → c.Store × FsmResult
  run_handoff_outbox_fsm s thread_id pending snapshot meta outbox pointer reason now =
      after_patch thread_id pending snapshot meta outbox pointer reason now
        (patch_handoff_status s pending snapshot meta status_enqueued now)

  -- recoverHandoffEnqueue, with the store and the result that it reports; its error joins those of
  -- the result.
  unfoldable pub recover_handoff_enqueue :
      c.Store → Text → Snapshot T E → ℕ → Outbox → Time → c.Store × FsmResult
  recover_handoff_enqueue s thread_id snapshot expected outbox now =
      let ran =
        run_handoff_outbox_fsm s thread_id expected snapshot snapshot.run_meta outbox
          snapshot.execution_pointer (text "handoff_recovery") now in
      (ran.0, normalize_recovery_fsm_result snapshot.run_meta ran.1)
