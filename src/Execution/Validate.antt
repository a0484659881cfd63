-- ===== src/Execution/Validate.antt =====
-- The Validate methods of the envelope's parts, SealExecutionEnvelope and
-- ValidateExecutionIntegrity (execution_contract.go, execution_history.go, execution_text.go,
-- execution_rollover_contract.go, execution_fork_contract.go, execution_integrity.go).
use flowy.Prelude.{
  ℕ, ◌+◌, ◌-◌, Bool, true, false, not, ◌&&◌, ◌||◌, [], ◌∷◌, ◌==◌, ◌!=◌, nat_eq, leb_ℤ, pos, i64_mod,
  int_eq, ℤ_discrete,
}
use flowy.Base.{
  Text, text_eq, text_discrete, valid_runtime_text, valid_activity_digest, Map, is_zero,
  schedule_time_valid, execution_incompatible, lifecycle_invalid, source_digest, lifecycle_limit,
  execution_corrupt, fork_policy, execution_capability, Result, ok, ◌>>=◌, ◌>>◌, reject_if, fails,
}
use flowy.Execution.Types.{
  Descriptor, replay_safe, replay_mode_eq, replay_mode_discrete, descriptor_eq, descriptor_discrete,
  Progress, CheckpointReference, RolloverPolicy, RolloverLineage, RolloverReceipt, ForkLineage,
  ForkMode, fake, live, other_fork_mode, Envelope, WaitProfile,
}
use flowy.Execution.Codec.{Codec}

unfoldable pub validate_descriptor : Descriptor → Result (Unit {0})
unfolding text_discrete replay_mode_discrete
validate_descriptor d =
    reject_if
      (d.graph_id == []
        || d.graph_revision == []
        || d.state_codec == []
        || d.effects_codec == []
        || d.execution_contract == []
        || not (
            valid_runtime_text (
              d.graph_id ∷ d.graph_revision ∷ d.state_codec ∷ d.effects_codec ∷ d.execution_contract
              ∷ d.replay_policy.label ∷ []))
        || d.replay_policy.label == []
        || d.replay_policy.mode != replay_safe)
      execution_incompatible

-- ExecutionDescriptor.Check
unfoldable pub check_descriptor : Descriptor → Descriptor → Result (Unit {0})
unfolding descriptor_discrete
check_descriptor d target = do
  validate_descriptor d
  validate_descriptor target
  reject_if (d != target) execution_incompatible

all_valid : Map Text → Bool
all_valid [] = true
all_valid ((key, value) ∷ rest) = valid_runtime_text (key ∷ value ∷ []) && all_valid rest

unfoldable pub valid_migration_text : Progress → Bool
unfolding all_valid
valid_migration_text p =
    valid_runtime_text (p.execution_pointer ∷ [])
    && all_valid p.child_cursors
    && all_valid p.journal_references
    && all_valid p.child_group_references

-- HistoricalCheckpointReference.Validate
unfoldable pub validate_reference : CheckpointReference → Result (Unit {0})
unfolding text_discrete
validate_reference s = do
  reject_if
      (s.execution_id == [] || not (valid_runtime_text (s.execution_id ∷ [])) || s.revision == 0)
      lifecycle_invalid
  reject_if (not (valid_activity_digest s.digest)) source_digest

unfoldable pub validate_rollover_policy : RolloverPolicy → Result (Unit {0})
unfolding text_discrete
validate_rollover_policy p =
    reject_if
      (p.label == []
        || not (valid_runtime_text (p.label ∷ []))
        || leb_ℤ p.max_records (pos 0)
        || leb_ℤ p.max_aggregate_bytes (pos 0)
        || leb_ℤ p.max_target_bytes (pos 0))
      lifecycle_limit

unfoldable pub validate_wait_profile : WaitProfile → Result (Unit {0})
unfolding text_discrete
validate_wait_profile p =
    reject_if
      (p.label == []
        || p.journal_owner == []
        || p.lease_owner == []
        || p.timer_owner == []
        || not (
            valid_runtime_text (
              p.label ∷ p.journal_owner ∷ p.lease_owner ∷ p.timer_owner ∷ p.clock_owner
              ∷ p.retry_owner ∷ p.recovery_owner ∷ []))
        || p.clock_owner == []
        || p.retry_owner == []
        || p.recovery_owner == [])
      execution_capability

valid_fork_mode : ForkMode → Text → Bool
unfolding text_discrete
valid_fork_mode fake projection = true
valid_fork_mode live projection = projection != []
valid_fork_mode (other_fork_mode m) projection = false

-- ForkLineage.Validate
unfoldable pub validate_fork_lineage : ForkLineage → Result (Unit {0})
unfolding text_discrete ℤ_discrete valid_fork_mode
validate_fork_lineage f = do
  reject_if
      (fails (validate_reference f.source)
        || fails (validate_descriptor f.source_descriptor)
        || fails (validate_descriptor f.target_descriptor)
        || not (
            valid_runtime_text (
              f.target_id ∷ f.source.execution_id ∷ f.policy_label ∷ f.transform_label
              ∷ f.projection_label ∷ []))
        || f.target_id == []
        || f.target_id == f.source.execution_id
        || f.policy_label == []
        || f.transform_label == []
        || is_zero f.created_at.instant
        || not f.created_at.utc_location)
      lifecycle_invalid
  reject_if (not (valid_fork_mode f.mode f.projection_label)) fork_policy

module _ (c : Codec) where
  open c use {digest, request_digest}

  -- RolloverLineage.Validate
  unfoldable pub validate_rollover_lineage : RolloverLineage → Result (Unit {0})
  unfolding text_discrete ℤ_discrete
  validate_rollover_lineage l = do
    reject_if
        (fails (validate_reference l.source)
          || fails (validate_descriptor l.source_descriptor)
          || fails (validate_descriptor l.target_descriptor)
          || fails (validate_rollover_policy l.policy)
          || l.target_id == []
          || l.target_id == l.source.execution_id
          || l.decision_id == []
          || l.projection_label == []
          || not (valid_runtime_text (l.target_id ∷ l.decision_id ∷ l.projection_label ∷ []))
          || not (valid_activity_digest l.request_digest)
          || not (schedule_time_valid l.created_at.instant)
          || not l.created_at.utc_location)
        execution_corrupt
    reject_if
        (request_digest l.source l.source_descriptor l.target_descriptor l.target_id l.decision_id
            l.policy l.projection_label
          != l.request_digest)
        execution_corrupt

  -- RolloverReceipt.Validate
  unfoldable pub validate_rollover_receipt : RolloverReceipt → Result (Unit {0})
  unfolding text_discrete
  validate_rollover_receipt r =
      reject_if
        (fails (validate_rollover_lineage r.lineage)
          || fails (validate_reference r.target)
          || r.target.execution_id != r.lineage.target_id
          || r.target.revision != 1
          || r.lineage.source.revision == i64_mod - 1
          || r.source_revision != r.lineage.source.revision + 1)
        execution_corrupt

  -- EnvelopeDigest
  unfoldable pub envelope_digest : Envelope → Result Text
  envelope_digest e = digest (record e { digest = [] })

  -- SealExecutionEnvelope
  unfoldable pub seal_execution_envelope : Envelope → Result Envelope
  unfolding text_discrete
  seal_execution_envelope e = do
    reject_if
        (e.execution_id == []
          || e.revision == 0
          || e.progress.execution_pointer == []
          || not (valid_runtime_text (e.execution_id ∷ []))
          || not (valid_migration_text e.progress))
        execution_corrupt
    digest ← envelope_digest e
    ok (record e { digest = digest })

  -- ValidateExecutionIntegrity
  unfoldable pub validate_execution_integrity : Envelope → Text → ℕ → Result (Unit {0})
  unfolding text_discrete
  validate_execution_integrity e id revision = do
    reject_if
        (id == []
          || revision == 0
          || e.execution_id != id
          || e.revision != revision
          || not (valid_runtime_text (id ∷ []))
          || not (valid_migration_text e.progress)
          || e.progress.execution_pointer == []
          || e.digest == [])
        execution_corrupt
    digest ← envelope_digest e
    reject_if (digest != e.digest) execution_corrupt
