-- ===== src/Execution/Transition.antt =====
-- What a store checks between a committed predecessor and the next envelope, and against the
-- anchors that it keeps apart (execution_fork_transition.go, execution_lifecycle_validation.go).
use flowy.Prelude.{
  Bool, true, false, not, ◌&&◌, ◌||◌, Option, none, some, ◌==◌, ◌!=◌, nat_eq, ltb, if◌then◌else◌,
}
use flowy.Base.{
  Text, text_eq, text_discrete, execution_corrupt, rollover_conflict, execution_transferred, Result,
  ok, ◌>>◌, reject_if, fails,
}
use flowy.Execution.Types.{
  Envelope, ForkLineage, fork_lineage_eq, fork_lineage_discrete, RolloverLineage, RolloverReceipt,
  rollover_lineage_eq, rollover_lineage_discrete, rollover_receipt_eq, rollover_receipt_discrete,
  Terminal, transferred, run_status_eq, run_status_discrete,
}
use flowy.Execution.Codec.{Codec}
use flowy.Execution.Validate.{validate_fork_lineage, validate_rollover_receipt}

abbrev pub is_some {ℓ} : {A : Type ℓ} → Option A → Bool
is_some none = false
is_some (some a) = true

unfoldable pub valid_fork_of : Option ForkLineage → Text → Bool
unfolding text_discrete
valid_fork_of none id = true
valid_fork_of (some f) id = not (fails (validate_fork_lineage f) || f.target_id != id)

unfoldable pub same_fork : Option ForkLineage → Option ForkLineage → Bool
unfolding fork_lineage_discrete
same_fork none none = true
same_fork (some f) (some g) = f == g
same_fork _ _ = false

-- ValidateExecutionForkTransition; of the predecessor it reads the id and the fork.
abbrev fork_transition : Text → Option ForkLineage → Envelope → Bool
fork_transition id fork next = id == next.execution_id && same_fork fork next.fork

unfoldable pub validate_fork_transition : Option Envelope → Envelope → Result (Unit {0})
unfolding text_discrete valid_fork_of same_fork
validate_fork_transition previous next = do
  reject_if (not (valid_fork_of next.fork next.execution_id)) execution_corrupt
  elim previous [
    | none ↦ ok tt
    | some p ↦ reject_if (not (fork_transition p.execution_id p.fork next)) execution_corrupt
  ]

-- ValidateExecutionForkAnchor
unfoldable pub validate_fork_anchor : Envelope → Option ForkLineage → Result (Unit {0})
validate_fork_anchor e anchor = validate_fork_transition (some (record e { fork = anchor })) e

unfoldable pub equal_rollover_lineage : Option RolloverLineage → Option RolloverLineage → Bool
unfolding rollover_lineage_discrete
equal_rollover_lineage none none = true
equal_rollover_lineage (some l) (some r) = l == r
equal_rollover_lineage _ _ = false

-- ValidateExecutionRolloverTransition
unfoldable pub validate_rollover_transition : Option Envelope → Envelope → Result (Unit {0})
validate_rollover_transition none next =
    reject_if (is_some next.rollover || is_some next.transfer) rollover_conflict
validate_rollover_transition (some previous) next = do
  reject_if (is_some previous.transfer) execution_transferred
  reject_if (not (equal_rollover_lineage previous.rollover next.rollover) || is_some next.transfer)
      execution_corrupt

lineage_of : Option RolloverReceipt → Option RolloverLineage
lineage_of none = none
lineage_of (some r) = some r.lineage

module _ (c : Codec) where
  bad_incoming : Envelope → Option RolloverReceipt → Bool
  unfolding text_discrete
  bad_incoming e none = false
  bad_incoming e (some r) =
      fails (validate_rollover_receipt c r)
      || r.target.execution_id != e.execution_id
      || (e.revision == r.target.revision && e.digest != r.target.digest)

  is_transferred : Option Terminal → Bool
  unfolding run_status_discrete
  is_transferred none = false
  is_transferred (some t) = t.status == transferred

  transfers : Option RolloverReceipt → RolloverReceipt → Bool
  unfolding rollover_receipt_discrete
  transfers none out = false
  transfers (some t) out = t == out

  bad_outgoing : Envelope → Option RolloverReceipt → Bool
  unfolding text_discrete is_transferred transfers
  bad_outgoing e none = is_some e.transfer
  bad_outgoing e (some out) =
      if fails (validate_rollover_receipt c out)
        || out.lineage.source.execution_id != e.execution_id
      then true
      else if ltb e.revision out.source_revision
      then is_some e.transfer
        || (e.revision == out.lineage.source.revision && e.digest != out.lineage.source.digest)
      else not (transfers e.transfer out)
        || e.revision != out.source_revision
        || not (is_transferred e.terminal)

  -- ValidateExecutionLifecycleAnchors
  unfoldable pub validate_lifecycle_anchors :
      Envelope → Option RolloverReceipt → Option RolloverReceipt → Result (Unit {0})
  unfolding bad_incoming bad_outgoing lineage_of
  validate_lifecycle_anchors e incoming outgoing = do
    reject_if (not (equal_rollover_lineage e.rollover (lineage_of incoming))) execution_corrupt
    reject_if (bad_incoming e incoming) execution_corrupt
    reject_if (bad_outgoing e outgoing) execution_corrupt
