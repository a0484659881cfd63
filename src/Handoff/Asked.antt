-- ===== src/Handoff/Asked.antt =====
-- The one intent that the outbox is asked to take (runHandoffOutboxFSM of handoff_outbox.go).
use flowy.Prelude.{ℕ, ◌≡◌, Option, none, some}
use flowy.Base.{Text, text_eq, Time, Err, handoff_enqueue_failed, joined, Result, ok, err}
use flowy.Execution.Types.{RunMetadata}
use flowy.Checkpoint.{Snapshot}
use flowy.Checkpoint.Interface.{Checkpointer}
use flowy.Handoff.{
  status_enqueued, HandoffIntent, FsmResult, validate_handoff_intent, run_handoff_outbox_fsm,
}

-- What the machine reports of the outbox's answer.
abbrev pub refusal : Result (Unit {0}) → Option Err
refusal (ok _) = none
refusal (err e) = some (joined handoff_enqueue_failed e)

module _ {T E : Type 0} (c : Checkpointer T E) (s : c.Store) (pending : ℕ) (snapshot : Snapshot T E)
    (meta : RunMetadata) (pointer reason : Text) (now : Time) where
  abbrev run : (HandoffIntent → Result (Unit {0})) → c.Store × FsmResult
  run enqueue =
      run_handoff_outbox_fsm c s snapshot.thread_id pending snapshot meta (some enqueue) pointer
        reason now

  -- By the answer of the first patch. If it failed, the machine is done, whatever outbox it has. If it
  -- is stored, there is one valid intent whose token is the stored snapshot's revision, and the error
  -- that the machine reports is that outbox's answer to this intent.
  abbrev pub IsAsked : c.Store × Result ℕ → Type 0
  IsAsked (s', err e) =
      (enqueue : HandoffIntent → Result (Unit {0}))
      → ((run enqueue).0 ≡ s) × ((run enqueue).1.enqueue_err ≡ none)
  IsAsked (s', ok enqueued) =
      (intent : HandoffIntent) × (validate_handoff_intent intent ≡ ok tt)
      × (intent.pending_snapshot_revision ≡ pending)
      × (stored : Snapshot T E) × (c.load s' snapshot.thread_id
          ≡ ok (stored, intent.resume_token.snapshot_revision))
      × (stored.run_meta.handoff_status ≡ status_enqueued)
      × ((enqueue : HandoffIntent → Result (Unit {0}))
          → (run enqueue).1.enqueue_err ≡ refusal (enqueue intent))
