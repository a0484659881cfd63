-- ===== src/Checkpoint.antt =====
-- Snapshots and MemoryCheckpointer (flowy.go, snapshot_header.go, testutil/memory_checkpointer.go).
-- Clones are values here. A method holds the mutex, so that it is one step.
pub mod History
pub mod Interface
pub mod Examples
use flowy.Prelude.{
  ℕ, zero, suc, ◌+◌, ◌-◌, Bool, true, false, not, ◌&&◌, ◌||◌, List, [], ◌∷◌, ◌++◌, Option, none,
  some, ◌==◌, ◌!=◌, nat_eq, leb, leb_ℤ, ltb_ℤ, ℤ, pos, pos_part, if◌then◌else◌,
}
use flowy.Base.{
  Text, text_eq, valid_runtime_text, Map, length, last?, lookup, insert, Err, concurrency_conflict,
  execution_capability, thread_not_found, snapshot_envelope_invalid, Result, ok, err, ◌>>=◌, ◌>>◌,
  reject_if,
}
use flowy.Execution.Types.{RunMetadata}

pub record Snapshot (T E : Type 0) : Type 0 where
  pub thread_id : Text
  pub execution_pointer : Text
  pub revision : ℕ  -- uint64
  pub state : T
  pub run_meta : RunMetadata
  pub effects : List E

pub record MemoryCheckpointer (T E : Type 0) : Type 0 where
  pub history : Map (List (Snapshot T E))

abbrev pub max_uint64 : ℕ
max_uint64 = 18446744073709551615

unfoldable pub validate_snapshot_header : Text → ℕ → Text → Result (Unit {0})
validate_snapshot_header thread_id revision pointer =
    reject_if
      (thread_id == []
        || pointer == []
        || revision == 0
        || not (valid_runtime_text (thread_id ∷ pointer ∷ [])))
      snapshot_envelope_invalid

-- The list of a missing key is empty.
abbrev pub items_of {ℓ} : {A : Type ℓ} → Option (List A) → List A
items_of none = []
items_of (some items) = items

abbrev pub drop {ℓ} : {A : Type ℓ} → ℕ → List A → List A
drop zero xs = xs
drop (suc n) [] = []
drop (suc n) (_ ∷ xs) = drop n xs

-- `delete(m, key)`
unfoldable pub delete {ℓ} : {V : Type ℓ} → Text → Map V → Map V
delete key [] = []
delete key ((k, v) ∷ rest) = if k == key then delete key rest else (k, v) ∷ delete key rest

abbrev pub first {ℓ} : {A : Type ℓ} → ℕ → List A → List A
first zero xs = []
first (suc n) [] = []
first (suc n) (x ∷ xs) = x ∷ first n xs

abbrev pub reversed {ℓ} : {A : Type ℓ} → List A → List A
reversed [] = []
reversed (x ∷ xs) = reversed xs ++ x ∷ []

module _ {T E : Type 0} where
  unfoldable pub new_memory_checkpointer : MemoryCheckpointer T E
  new_memory_checkpointer = record { history = [] }

  abbrev pub items_at : MemoryCheckpointer T E → Text → List (Snapshot T E)
  items_at m thread_id = items_of (lookup thread_id m.history)

  abbrev pub revision_of : Option (Snapshot T E) → ℕ
  revision_of none = 0
  revision_of (some s) = s.revision

  unfoldable pub save :
      MemoryCheckpointer T E → ℕ → Snapshot T E → Result (MemoryCheckpointer T E × ℕ)
  save m expected snapshot = do
    reject_if (expected == max_uint64) execution_capability
    validate_snapshot_header snapshot.thread_id (expected + 1) snapshot.execution_pointer
    reject_if (revision_of (last? (items_at m snapshot.thread_id)) != expected) concurrency_conflict
    ok (
      record {
        history =
            insert snapshot.thread_id
              (items_at m snapshot.thread_id ++ record snapshot { revision = expected + 1 } ∷ [])
              m.history;
      },
      expected + 1,
    )

  abbrev pub latest : Option (Snapshot T E) → Result (Snapshot T E × ℕ)
  latest none = err thread_not_found
  latest (some s) = ok (s, s.revision)

  unfoldable pub load : MemoryCheckpointer T E → Text → Result (Snapshot T E × ℕ)
  load m thread_id = latest (last? (items_at m thread_id))

  -- The newest first.
  unfoldable pub get_history : MemoryCheckpointer T E → Text → ℤ → List (Snapshot T E)
  get_history m thread_id limit =
      let items = reversed (items_at m thread_id) in
      if leb_ℤ limit (pos 0) then items else first (pos_part limit) items

  unfoldable pub prune : MemoryCheckpointer T E → Text → ℤ → MemoryCheckpointer T E
  prune m thread_id retain_count =
      let items = items_at m thread_id in
      if length items == 0
      then m
      else if leb_ℤ retain_count (pos 0)
      then record { history = delete thread_id m.history }
      else if leb (length items) (pos_part retain_count)
      then m
      else record {
        history = insert thread_id (drop (length items - pos_part retain_count) items) m.history;
      }

  unfoldable pub delete_thread : MemoryCheckpointer T E → Text → MemoryCheckpointer T E
  delete_thread m thread_id = record { history = delete thread_id m.history }
