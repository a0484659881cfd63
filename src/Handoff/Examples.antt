-- ===== src/Handoff/Examples.antt =====
-- A handoff of a thread in memory, whose outbox refuses the intent.
use flowy.Prelude.{ℕ, ◌≡◌, refl, [], ◌∷◌, some}
use flowy.Base.{
  text, text_discrete, lookup, insert, host, Result, ok, err, valid_runtime_text, valid_text,
}
use flowy.Execution.Sample.{meta}
use flowy.Checkpoint.{Snapshot, MemoryCheckpointer, save, load, validate_snapshot_header}
use flowy.Checkpoint.Interface.{memory, memory-IsCheckpointer}
use flowy.Checkpoint.Examples.{snapshot}
use flowy.Handoff.{
  status_enqueued, HandoffIntent, build_handoff_intent, validate_handoff_intent,
  patch_handoff_status, patched, run_handoff_outbox_fsm, recover_handoff_enqueue,
}
use flowy.Prelude.{false, true, none, pos}
use flowy.Base.{is_zero, zero_time}
use flowy.Graph.{Graph}
use flowy.Graph.Routing.{validate_execution_pointer}
use flowy.Handoff.{normalize_recovery_fsm_result, enqueue_handoff_intent}
use flowy.Handoff.Recovery.{
  RecoverOpts, already_scheduled, is_handoff_pending_stale, normalize_loaded_snapshot,
  decide_recovery, evaluate_handoff_recovery, recover_stale_handoff,
}
use flowy.Handoff.Once.{recovered_once}
use flowy.Handoff.Persisted.{IsReported, fsm_reports, recovery_reports}

abbrev stored : Snapshot ℕ ℕ
stored = record snapshot {
  revision = 1;
  run_meta = record meta { handoff_status = text "pending"; handoff_pending_at = 60 };
}

abbrev store : MemoryCheckpointer ℕ ℕ
store = record { history = (text "t", stored ∷ []) ∷ [] }

abbrev refuse : HandoffIntent → Result (Unit {0})
refuse intent = err (host (text "down"))

loads : load store (text "t") ≡ ok (stored, 1)
unfolding load lookup text_discrete
loads = refl

fsm_reports_example :
    let o =
      run_handoff_outbox_fsm
        (memory ℕ ℕ)
        store
        (text "t")
        1
        stored
        stored.run_meta
        (some refuse)
        (text "node")
        (text "handoff")
        90 in
    IsReported (memory ℕ ℕ) o.0 (text "t") o.1
fsm_reports_example =
    fsm_reports (memory ℕ ℕ) memory-IsCheckpointer store 1 stored stored stored.run_meta
      (some refuse) (text "node") (text "handoff") 90 loads refl refl

recovery_reports_example :
    let o = recover_handoff_enqueue (memory ℕ ℕ) store (text "t") stored 1 (some refuse) 90 in
    IsReported (memory ℕ ℕ) o.0 (text "t") o.1
recovery_reports_example =
    recovery_reports (memory ℕ ℕ) memory-IsCheckpointer store 1 stored (some refuse) 90 loads

abbrev marked : MemoryCheckpointer ℕ ℕ
marked = record {
  history =
      (
        text "t",
        stored
            ∷ record stored { revision = 2; run_meta = patched stored.run_meta status_enqueued 90 }
            ∷ [],
      )
      ∷ [];
}

marks :
    patch_handoff_status (memory ℕ ℕ) store 1 stored stored.run_meta status_enqueued 90
    ≡ (marked, ok 2)
unfolding patch_handoff_status save validate_snapshot_header lookup insert text_discrete
    valid_runtime_text valid_text
marks = refl

abbrev graph : Graph ℕ ℕ
graph = record {
  nodes = (text "node", none) ∷ [];
  edges = [];
  conditional_edges = [];
  conditional_allowed = [];
  retry_routes = [];
  entry_point = text "node";
  reducer = none;
  defaults = record {
    max_steps = pos 1;
    delete_on_success = false;
    retention_limit = pos 0;
    budget_limits = [];
  };
}

abbrev accept : HandoffIntent → Result (Unit {0})
accept intent = ok tt

abbrev options : RecoverOpts
options = record { stale_after = pos 10; outbox = some accept; force_reenqueue = false }

recovers : (recover_stale_handoff (memory ℕ ℕ) graph options 90 store (text "t")).1.recovered ≡ true
unfolding recover_stale_handoff evaluate_handoff_recovery normalize_loaded_snapshot decide_recovery
    is_handoff_pending_stale is_zero zero_time validate_execution_pointer recover_handoff_enqueue
    run_handoff_outbox_fsm normalize_recovery_fsm_result enqueue_handoff_intent build_handoff_intent
    validate_handoff_intent patch_handoff_status save load validate_snapshot_header lookup insert
    text_discrete valid_runtime_text valid_text
recovers = refl

recovered_once_example :
    (evaluate_handoff_recovery
      (memory ℕ ℕ)
      graph
      options
      200
      (recover_stale_handoff (memory ℕ ℕ) graph options 90 store (text "t")).0
      (text "t")).status
    ≡ already_scheduled
recovered_once_example =
    recovered_once (memory ℕ ℕ) graph memory-IsCheckpointer options options 90 200 store (text "t")
      refl recovers
