-- ===== src/Execution/Sample.antt =====
-- An envelope for the examples of the modules that keep one.
use flowy.Prelude.{[], none, pos}
use flowy.Base.{text}
use flowy.Execution.Types.{Envelope, Descriptor, replay_safe, RunMetadata}

abbrev pub descriptor : Descriptor
descriptor = record {
  graph_id = text "g";
  graph_revision = text "1";
  state_codec = text "json";
  effects_codec = text "json";
  execution_contract = text "v1";
  replay_policy = record { label = text "safe"; mode = replay_safe };
}

abbrev pub meta : RunMetadata
meta = record {
  segment = record { segment_id = text "s"; start_time = 0; end_time = 0; end_reason = [] };
  segment_start_time = 0;
  retry_counts = [];
  budget_counts = [];
  step_count = pos 0;
  telemetry_context = [];
  handoff_status = [];
  handoff_pending_at = 0;
}

abbrev pub envelope : Envelope
envelope = record {
  execution_id = text "run";
  revision = 0;
  digest = [];
  descriptor = descriptor;
  runtime_profile = none;
  progress = record {
    state_payload = [];
    execution_pointer = text "start";
    child_cursors = [];
    journal_references = [];
    child_group_references = [];
  };
  effects_payload = [];
  journal_payload = [];
  children_payload = [];
  waits_payload = [];
  run_meta = meta;
  activation = 1;
  terminal = none;
  migration = none;
  import_ = none;
  rollover = none;
  transfer = none;
  fork = none;
}
