-- ===== src/Handoff/Recovery.antt =====
-- EvaluateHandoffRecovery and RecoverStaleHandoff (runner_recovery.go, handoff_outbox.go). The token,
-- the pointer, the state and the metadata of a decision are those of the snapshot that it has loaded.
use flowy.Prelude.{
  ℕ, ◌-◌, Bool, true, false, not, ◌&&◌, ◌||◌, List, [], ◌∷◌, Option, none, some, ◌==◌, ◌!=◌, nat_eq,
  leb, ltb_ℤ, leb_ℤ, ℤ, pos, negsuc, sub_ℕ, i64_half, if◌then◌else◌,
}
use flowy.Base.{
  Text, text, text_eq, Time, is_zero, Err, thread_not_found, invalid_snapshot,
  snapshot_envelope_invalid, concurrency_conflict, joined, handoff_orphaned, handoff_pending,
  handoff_already_enqueued, handoff_not_recoverable, handoff_outbox_required, handoff_patch_failed,
  invalid_resume_token, Result, ok, err, ◌>>◌, reject_if,
}
use flowy.Graph.{Graph, is_some}
use flowy.Graph.Routing.{validate_execution_pointer}
use flowy.Checkpoint.{Snapshot}
use flowy.Checkpoint.Interface.{Checkpointer}
use flowy.Handoff.{
  status_pending, status_enqueued, status_orphaned, Outbox, FsmResult, recover_handoff_enqueue,
}

-- recoverStaleHandoffOpts, and the functions that set them.
pub record RecoverOpts : Type 0 where
  pub stale_after : ℤ  -- time.Duration
  pub outbox : Outbox
  pub force_reenqueue : Bool

pub data RecoverOption : Type 0 where
  with_recover_stale_after : ℤ → RecoverOption
  with_recover_outbox : Outbox → RecoverOption
  with_recover_force_reenqueue : Bool → RecoverOption

abbrev set_option : RecoverOpts → RecoverOption → RecoverOpts
set_option cfg (with_recover_stale_after d) = record cfg { stale_after = d }
set_option cfg (with_recover_outbox outbox) = record cfg { outbox = outbox }
set_option cfg (with_recover_force_reenqueue force) = record cfg { force_reenqueue = force }

-- A nil option is skipped.
unfoldable pub recover_stale_handoff_config :
    RecoverOpts → List (Option RecoverOption) → RecoverOpts
recover_stale_handoff_config cfg [] = cfg
recover_stale_handoff_config cfg (none ∷ rest) = recover_stale_handoff_config cfg rest
recover_stale_handoff_config cfg (some opt ∷ rest) =
    recover_stale_handoff_config (set_option cfg opt) rest

-- DefaultHandoffStaleAfter, five minutes.
abbrev default_handoff_stale_after : ℤ
default_handoff_stale_after = pos 300000000000

abbrev pub with_default : RecoverOpts → RecoverOpts
with_default cfg =
    if leb_ℤ cfg.stale_after (pos 0)
    then record cfg { stale_after = default_handoff_stale_after }
    else cfg

-- time.Since, which saturates.
abbrev saturated : ℤ → ℤ
saturated (pos n) = if leb i64_half n then pos (i64_half - 1) else pos n
saturated (negsuc n) = if leb i64_half n then negsuc (i64_half - 1) else negsuc n

unfoldable pub is_handoff_pending_stale : Time → Time → ℤ → Bool
is_handoff_pending_stale now pending_at stale_after =
    is_zero pending_at || ltb_ℤ stale_after (saturated (sub_ℕ now pending_at))

-- ResumeDecisionStatus
pub data DecisionStatus : Type 0 where
  invalid_token not_found invalid_status load_failed : DecisionStatus
  pending recoverable already_scheduled not_recoverable : DecisionStatus

pub record Decision (T E : Type 0) : Type 0 where
  pub status : DecisionStatus
  pub loaded : Option (Snapshot T E × ℕ)
  pub reason : Text
  pub error : Option Err

abbrev is_not_found : Err → Bool
is_not_found thread_not_found = true
is_not_found (joined a b) = is_not_found a || is_not_found b
is_not_found _ = false

abbrev is_envelope_invalid : Err → Bool
is_envelope_invalid snapshot_envelope_invalid = true
is_envelope_invalid (joined a b) = is_envelope_invalid a || is_envelope_invalid b
is_envelope_invalid _ = false

abbrev is_invalid : Err → Bool
is_invalid snapshot_envelope_invalid = true
is_invalid invalid_snapshot = true
is_invalid (joined a b) = is_invalid a || is_invalid b
is_invalid _ = false

abbrev ensure_snapshot_envelope_invalid : Err → Err
ensure_snapshot_envelope_invalid e =
    if is_envelope_invalid e then e else joined snapshot_envelope_invalid e

abbrev load_error : Err → Err
load_error e =
    if is_not_found e then e else if is_invalid e then ensure_snapshot_envelope_invalid e else e

abbrev status_for_error : Err → DecisionStatus
status_for_error e =
    if is_not_found e then not_found else if is_invalid e then invalid_status else load_failed

abbrev reason_for_error : Err → Text
reason_for_error e =
    if is_not_found e
    then text "thread_not_found"
    else if is_invalid e
    then text "invalid_snapshot"
    else text "load_failed"

abbrev pub invalid_reason : Text → Text
invalid_reason pointer = if pointer == [] then text "invalid_snapshot" else text "invalid_pointer"

module _ {T E : Type 0} where
  -- An empty thread and a zero revision are filled in.
  unfoldable pub normalize_loaded_snapshot : Text → Snapshot T E → ℕ → Result (Snapshot T E)
  normalize_loaded_snapshot thread_id snapshot revision = do
    reject_if (thread_id == []) invalid_snapshot
    reject_if (snapshot.thread_id != [] && snapshot.thread_id != thread_id) invalid_snapshot
    reject_if (revision == 0) invalid_snapshot
    reject_if (snapshot.revision != 0 && snapshot.revision != revision) invalid_snapshot
    reject_if (snapshot.execution_pointer == []) invalid_snapshot
    ok (record snapshot { thread_id = thread_id; revision = revision })

  abbrev pub decision : DecisionStatus → Snapshot T E → ℕ → Text → Option Err → Decision T E
  decision status snapshot revision reason error = record {
    status = status;
    loaded = some (snapshot, revision);
    reason = reason;
    error = error;
  }

  abbrev pub unloaded : DecisionStatus → Text → Err → Decision T E
  unloaded status reason e = record {
    status = status;
    loaded = none;
    reason = reason;
    error = some e;
  }

  -- What the stored status says.
  unfoldable pub decide_recovery : RecoverOpts → Time → Snapshot T E → ℕ → Decision T E
  decide_recovery cfg now s revision =
      if s.run_meta.handoff_status == status_orphaned
      then decision recoverable s revision (text "handoff_orphaned") (some handoff_orphaned)
      else if s.run_meta.handoff_status == status_pending
      then if is_handoff_pending_stale now s.run_meta.handoff_pending_at cfg.stale_after
        then decision recoverable s revision (text "handoff_pending_stale") (some handoff_pending)
        else decision pending s revision (text "handoff_pending") (some handoff_pending)
      else if s.run_meta.handoff_status == status_enqueued
      then if cfg.force_reenqueue
        then decision recoverable s revision (text "handoff_force_reenqueue") none
        else decision already_scheduled s revision (text "handoff_already_enqueued")
            (some handoff_already_enqueued)
      else if s.run_meta.handoff_status == []
      then decision not_recoverable s revision (text "handoff_status_none")
          (some handoff_not_recoverable)
      else decision not_recoverable s revision (text "invalid_handoff_status")
          (some (joined handoff_not_recoverable invalid_snapshot))

  abbrev pub checked_pointer :
      RecoverOpts → Time → Snapshot T E → ℕ → Result (Unit {0}) → Decision T E
  checked_pointer cfg now s revision (err e) =
      decision invalid_status s revision (invalid_reason s.execution_pointer) (some e)
  checked_pointer cfg now s revision (ok _) = decide_recovery cfg now s revision

  -- An error of Load that names a snapshot does not hold one here.
  abbrev pub normalized : Graph T E → RecoverOpts → Time → ℕ → Result (Snapshot T E) → Decision T E
  normalized g cfg now revision (err e) =
      unloaded (status_for_error (ensure_snapshot_envelope_invalid e))
        (reason_for_error (ensure_snapshot_envelope_invalid e)) (ensure_snapshot_envelope_invalid e)
  normalized g cfg now revision (ok s) =
      checked_pointer cfg now s revision (validate_execution_pointer g s.execution_pointer)

  abbrev pub after_load :
      Graph T E → RecoverOpts → Time → Text → Result (Snapshot T E × ℕ) → Decision T E
  after_load g cfg now thread_id (err e) =
      unloaded (status_for_error (load_error e)) (reason_for_error (load_error e)) (load_error e)
  after_load g cfg now thread_id (ok (s, revision)) =
      normalized g cfg now revision (normalize_loaded_snapshot thread_id s revision)

  -- For a runner with a checkpointer; `cfg` has its defaults.
  unfoldable pub evaluate_handoff_recovery :
      (c : Checkpointer T E) → Graph T E → RecoverOpts → Time → c.Store → Text → Decision T E
  evaluate_handoff_recovery c g cfg now s thread_id =
      if thread_id == []
      then unloaded invalid_token (text "empty_thread_id") invalid_resume_token
      else after_load g cfg now thread_id (c.load s thread_id)

-- HandoffRecoveryResult, with what the phases have reported if they ran.
pub record RecoveryResult (T E : Type 0) : Type 0 where
  pub decision : Decision T E
  pub fsm : Option FsmResult
  pub recovered : Bool
  pub error : Option Err

abbrev is_conflict : Err → Bool
is_conflict concurrency_conflict = true
is_conflict (joined a b) = is_conflict a || is_conflict b
is_conflict _ = false

abbrev wrap_handoff_patch_recovery_err : Err → Err
wrap_handoff_patch_recovery_err e = if is_conflict e then joined handoff_patch_failed e else e

-- The error of recoverHandoffEnqueue.
abbrev pub recovery_error : Option Err → Option Err → Option Err
recovery_error (some refusal) (some e) = some (joined refusal e)
recovery_error (some refusal) none = some refusal
recovery_error none (some e) = some (wrap_handoff_patch_recovery_err e)
recovery_error none none = none

module _ {T E : Type 0} (c : Checkpointer T E) where
  abbrev pub finished : Decision T E → c.Store × FsmResult → c.Store × RecoveryResult T E
  finished d o =
      let error = recovery_error o.1.enqueue_err o.1.patch_err in
      (o.0, record { decision = d; fsm = some o.1; recovered = not (is_some error); error = error })

  abbrev pub recover_with :
      Outbox
      → Time
      → c.Store
      → Text
      → Decision T E
      → Snapshot T E
      → ℕ
      → c.Store × RecoveryResult T E
  recover_with none now s thread_id d snapshot revision = (
    s,
    record {
      decision = record d {
        reason = text "handoff_outbox_required";
        error = some handoff_outbox_required;
      };
      fsm = none;
      recovered = false;
      error = some handoff_outbox_required;
    },
  )
  recover_with (some enqueue) now s thread_id d snapshot revision =
      finished d (recover_handoff_enqueue c s thread_id snapshot revision (some enqueue) now)

  abbrev pub recover_decided :
      RecoverOpts
      → Time
      → c.Store
      → Text
      → Decision T E
      → DecisionStatus
      → Option (Snapshot T E × ℕ)
      → c.Store × RecoveryResult T E
  recover_decided cfg now s thread_id d recoverable (some (snapshot, revision)) =
      recover_with cfg.outbox now s thread_id d snapshot revision
  recover_decided cfg now s thread_id d status loaded =
      (s, record { decision = d; fsm = none; recovered = false; error = d.error })

  -- `cfg` has its defaults.
  unfoldable pub recover_stale_handoff :
      Graph T E → RecoverOpts → Time → c.Store → Text → c.Store × RecoveryResult T E
  recover_stale_handoff g cfg now s thread_id =
      let d = evaluate_handoff_recovery c g cfg now s thread_id in
      recover_decided cfg now s thread_id d d.status d.loaded
