-- ===== src/Checkpoint/Examples.antt =====
-- Two saves of a thread in memory.
use flowy.Prelude.{ℕ, ◌≡◌, refl, true, [], ◌∷◌, ◌==◌, if◌then◌else◌}
use flowy.Base.{
  text, text_eq, text_discrete, lookup, insert, ok, fails, valid_runtime_text, valid_text,
}
use flowy.Execution.Sample.{meta}
use flowy.Checkpoint.{
  Snapshot, MemoryCheckpointer, new_memory_checkpointer, save, load, validate_snapshot_header,
}
use flowy.Checkpoint.History.{save-load, saved_once, loaded}

abbrev pub snapshot : Snapshot ℕ ℕ
snapshot = record {
  thread_id = text "t";
  execution_pointer = text "node";
  revision = 0;
  state = 7;
  run_meta = meta;
  effects = [];
}

abbrev pub saved_first : MemoryCheckpointer ℕ ℕ
saved_first = record { history = (text "t", record snapshot { revision = 1 } ∷ []) ∷ [] }

saves : save new_memory_checkpointer 0 snapshot ≡ ok (saved_first, 1)
unfolding save new_memory_checkpointer validate_snapshot_header lookup insert text_discrete
    valid_runtime_text valid_text
saves = refl

save-load_example : load saved_first (text "t") ≡ (
    if snapshot.thread_id == text "t"
    then loaded snapshot 1
    else load new_memory_checkpointer (text "t"))
save-load_example = save-load new_memory_checkpointer saved_first 0 1 snapshot (text "t") saves

saved_once_example : fails (save saved_first 0 snapshot) ≡ true
saved_once_example = saved_once new_memory_checkpointer saved_first 0 1 snapshot snapshot saves refl
