-- ===== src/Execution/Types.antt =====
-- The data of execution_contract.go, execution_history.go, execution_rollover_contract.go,
-- execution_fork_contract.go, execution_import.go, durable_wait_backend.go and the run metadata of
-- flowy.go. Payloads that the core does not decode are bytes; pointers to structs are options.
use flowy.Prelude.{ℕ, Option, Eq, eq_of_discrete, ℕ_discrete, ℤ, ℤ_discrete, List}
use flowy.Base.{Bytes, Text, Time, Zoned, Map}

-- StepReplayMode
pub data ReplayMode : Type 0 where
  replay_safe : ReplayMode
  other_mode : Text → ReplayMode

-- StepReplayPolicy
pub record ReplayPolicy : Type 0 where
  pub label : Text
  pub mode : ReplayMode

-- ExecutionDescriptor
pub record Descriptor : Type 0 where
  pub graph_id : Text
  pub graph_revision : Text
  pub state_codec : Text
  pub effects_codec : Text
  pub execution_contract : Text
  pub replay_policy : ReplayPolicy

unfoldable pub replay_mode_discrete : Discrete ReplayMode
unfolding ℕ_discrete
replay_mode_discrete = hlevel ℕ_discrete

instance abbrev pub replay_mode_eq : Eq ReplayMode
replay_mode_eq = eq_of_discrete replay_mode_discrete

unfoldable pub descriptor_discrete : Discrete Descriptor
unfolding ℕ_discrete
descriptor_discrete = hlevel ℕ_discrete

instance abbrev pub descriptor_eq : Eq Descriptor
descriptor_eq = eq_of_discrete descriptor_discrete

-- WaitCapabilityProfile
pub record WaitProfile : Type 0 where
  pub label : Text
  pub journal_owner : Text
  pub lease_owner : Text
  pub timer_owner : Text
  pub clock_owner : Text
  pub retry_owner : Text
  pub recovery_owner : Text

unfoldable pub profile_discrete : Discrete WaitProfile
unfolding ℕ_discrete
profile_discrete = hlevel ℕ_discrete

instance abbrev pub profile_eq : Eq WaitProfile
profile_eq = eq_of_discrete profile_discrete

-- ExecutionProgress
pub record Progress : Type 0 where
  pub state_payload : Bytes
  pub execution_pointer : Text
  pub child_cursors : Map Text
  pub journal_references : Map Text
  pub child_group_references : Map Text

-- MigrationProvenance
pub record MigrationProvenance : Type 0 where
  pub source_revision : ℕ
  pub source_digest : Text
  pub chain : List Text

-- RunStatus
pub data RunStatus : Type 0 where
  completed transferred suspended context_canceled failed handoff : RunStatus
  other_status : Text → RunStatus

unfoldable pub run_status_discrete : Discrete RunStatus
unfolding ℕ_discrete
run_status_discrete = hlevel ℕ_discrete

instance abbrev pub run_status_eq : Eq RunStatus
run_status_eq = eq_of_discrete run_status_discrete

-- ExecutionTerminal; ExecutionFailure is its message.
pub record Terminal : Type 0 where
  pub status : RunStatus
  pub reason : Text
  pub failure : Option Text

-- SegmentInfo
pub record SegmentInfo : Type 0 where
  pub segment_id : Text
  pub start_time : Time
  pub end_time : Time
  pub end_reason : Text

-- RunMetadata
pub record RunMetadata : Type 0 where
  pub segment : SegmentInfo
  pub segment_start_time : Time
  pub retry_counts : Map ℤ
  pub budget_counts : Map ℤ
  pub step_count : ℤ
  pub telemetry_context : Map Text
  pub handoff_status : Text
  pub handoff_pending_at : Time

-- HistoricalCheckpointReference
pub record CheckpointReference : Type 0 where
  pub execution_id : Text
  pub revision : ℕ  -- uint64
  pub digest : Text

-- LegacyExecutionSource
pub record LegacySource : Type 0 where
  pub id : Text
  pub revision : ℕ
  pub format : Text
  pub digest : Text
  pub payload : Bytes

-- ImportProvenance
pub record ImportProvenance : Type 0 where
  pub source : LegacySource
  pub importer_id : Text

-- RolloverPolicy
pub record RolloverPolicy : Type 0 where
  pub label : Text
  pub max_records : ℤ
  pub max_aggregate_bytes : ℤ
  pub max_target_bytes : ℤ

-- RolloverLineage
pub record RolloverLineage : Type 0 where
  pub source : CheckpointReference
  pub source_descriptor : Descriptor
  pub target_descriptor : Descriptor
  pub target_id : Text
  pub decision_id : Text
  pub policy : RolloverPolicy
  pub projection_label : Text
  pub request_digest : Text
  pub created_at : Zoned

-- RolloverReceipt
pub record RolloverReceipt : Type 0 where
  pub lineage : RolloverLineage
  pub target : CheckpointReference
  pub source_revision : ℕ

unfoldable pub rollover_lineage_discrete : Discrete RolloverLineage
unfolding ℕ_discrete ℤ_discrete
rollover_lineage_discrete = hlevel (ℕ_discrete, ℤ_discrete)

instance abbrev pub rollover_lineage_eq : Eq RolloverLineage
rollover_lineage_eq = eq_of_discrete rollover_lineage_discrete

unfoldable pub rollover_receipt_discrete : Discrete RolloverReceipt
unfolding ℕ_discrete ℤ_discrete
rollover_receipt_discrete = hlevel (ℕ_discrete, ℤ_discrete)

instance abbrev pub rollover_receipt_eq : Eq RolloverReceipt
rollover_receipt_eq = eq_of_discrete rollover_receipt_discrete

-- ForkActivityMode
pub data ForkMode : Type 0 where
  fake live : ForkMode
  other_fork_mode : Text → ForkMode

-- ForkLineage
pub record ForkLineage : Type 0 where
  pub source : CheckpointReference
  pub source_descriptor : Descriptor
  pub target_descriptor : Descriptor
  pub target_id : Text
  pub mode : ForkMode
  pub policy_label : Text
  pub transform_label : Text
  pub projection_label : Text
  pub created_at : Zoned

unfoldable pub fork_lineage_discrete : Discrete ForkLineage
unfolding ℕ_discrete ℤ_discrete
fork_lineage_discrete = hlevel (ℕ_discrete, ℤ_discrete)

instance abbrev pub fork_lineage_eq : Eq ForkLineage
fork_lineage_eq = eq_of_discrete fork_lineage_discrete

-- ExecutionEnvelope
pub record Envelope : Type 0 where
  pub execution_id : Text
  pub revision : ℕ  -- uint64
  pub digest : Text
  pub descriptor : Descriptor
  pub runtime_profile : Option WaitProfile
  pub progress : Progress
  pub effects_payload : Bytes
  pub journal_payload : Bytes
  pub children_payload : Bytes
  pub waits_payload : Bytes
  pub run_meta : RunMetadata
  pub activation : ℕ  -- uint64
  pub terminal : Option Terminal
  pub migration : Option MigrationProvenance
  pub import_ : Option ImportProvenance
  pub rollover : Option RolloverLineage
  pub transfer : Option RolloverReceipt
  pub fork : Option ForkLineage

-- ExecutionLease (execution_store.go)
pub record ExecutionLease : Type 0 where
  pub execution_id : Text
  pub owner : Text
  pub incarnation : ℕ  -- uint64
  pub expires_at : Time
