-- ===== src/Execution/Migration.antt =====
-- PrepareExecutionMigration and its parts (execution_contract.go). The transformations are the
-- host's functions; a nil one is `none`. Clones are values here.
pub mod Chain
pub mod Prepared
pub mod Examples
use flowy.Prelude.{
  ℕ, zero, suc, ◌+◌, Bool, true, false, not, ◌&&◌, ◌||◌, List, [], ◌∷◌, map, Option, none, some,
  ◌==◌, ◌!=◌, if◌then◌else◌,
}
use flowy.Base.{
  Bytes, Text, text_eq, text_discrete, valid_runtime_text, length, Err, migration_invalid,
  migration_missing, joined, Result, ok, err, ◌>>=◌, ◌>>◌, reject_if, fails, joining,
}
use flowy.Execution.Types.{
  Descriptor, descriptor_eq, descriptor_discrete, Progress, Envelope, MigrationProvenance,
}
use flowy.Execution.Codec.{Codec}
use flowy.Execution.Validate.{
  validate_descriptor, valid_migration_text, validate_execution_integrity,
}

-- ExecutionMigration
pub record Migration : Type 0 where
  pub id : Text
  pub source : Descriptor
  pub target : Descriptor
  pub transform : Option (Progress → Result Progress)
  pub effects_transform : Option (Bytes → Result Bytes)

abbrev pub absent {ℓ} : {A : Type ℓ} → Option A → Bool
absent none = true
absent (some a) = false

unfoldable pub edge_from : List Migration → Descriptor → Option Migration
edge_from [] d = none
edge_from (m ∷ rest) d = if m.source == d then some m else edge_from rest d

known_id : List Migration → Text → Bool
known_id [] id = false
known_id (m ∷ rest) id = m.id == id || known_id rest id

-- The first loop of executionMigrationChain, with the edges so far.
unfoldable pub register : List Migration → List Migration → Result (List Migration)
unfolding known_id text_discrete
register edges [] = ok edges
register edges (m ∷ rest) = do
  reject_if
      (m.id == []
        || not (valid_runtime_text (m.id ∷ []))
        || known_id edges m.id
        || absent m.transform)
      migration_invalid
  reject_if (fails (validate_descriptor m.source) || fails (validate_descriptor m.target))
      migration_invalid
  reject_if (not (absent (edge_from edges m.source))) migration_invalid
  register (m ∷ edges) rest

unfoldable pub visited : List Descriptor → Descriptor → Bool
visited [] d = false
visited (x ∷ rest) d = x == d || visited rest d

abbrev pub prepend {ℓ} : {A : Type ℓ} → A → Result (List A) → Result (List A)
prepend a (ok rest) = ok (a ∷ rest)
prepend a (err e) = err e

abbrev pub map_some {ℓ κ} : {A : Type ℓ} {B : Type κ} → (A → B) → Option A → Option B
map_some f none = none
map_some f (some a) = some (f a)

-- The second loop, over fuel; `none` means that it ran out.
unfoldable pub follow :
    ℕ
    → List Migration
    → Descriptor
    → Descriptor
    → List Descriptor
    → Option (Result (List Migration))
follow zero edges source target seen = none
follow (suc fuel) edges source target seen = elim (source == target) [
  | true ↦ some (ok [])
  | false ↦ elim (visited seen source) [
    | true ↦ some (err migration_invalid)
    | false ↦ elim (edge_from edges source) [
      | none ↦ some (err migration_missing)
      | some m ↦ map_some (prepend m) (follow fuel edges m.target target (source ∷ seen))
    ]
  ]
]

-- Each round visits the source of another edge, so that the edges bound the rounds.
unfoldable pub execution_migration_chain :
    Descriptor → Descriptor → List Migration → Option (Result (List Migration))
execution_migration_chain source target registry = elim (register [] registry) [
  | err e ↦ some (err e)
  | ok edges ↦ follow (length edges + 1) edges source target []
]

unfoldable pub validate_effects_migration_chain : List Migration → Result (Unit {0})
validate_effects_migration_chain [] = ok tt
validate_effects_migration_chain (m ∷ rest) = do
  reject_if (m.source.effects_codec != m.target.effects_codec && absent m.effects_transform)
      migration_invalid
  validate_effects_migration_chain rest

-- Registration has refused a nil transform.
abbrev pub transformed : Option (Progress → Result Progress) → Progress → Result Progress
transformed none p = err migration_invalid
transformed (some f) p = f p

abbrev pub effects_of : Option (Bytes → Result Bytes) → Bytes → Result Bytes
effects_of none e = ok e
effects_of (some f) e = f e

unfoldable pub apply_execution_migration : Envelope → Migration → Result Envelope
apply_execution_migration e m = do
  progress ← joining migration_invalid (transformed m.transform e.progress)
  effects ← joining migration_invalid (effects_of m.effects_transform e.effects_payload)
  ok (record e { progress = progress; effects_payload = effects; descriptor = m.target })

unfoldable pub apply_chain : Envelope → List Migration → Result Envelope
apply_chain e [] = ok e
apply_chain e (m ∷ rest) = apply_execution_migration e m >>= λ next. apply_chain next rest

abbrev pub ids : List Migration → List Text
ids [] = []
ids (m ∷ rest) = m.id ∷ ids rest

-- The provenance of a chain that is not empty.
unfoldable pub with_provenance : Envelope → List Migration → Envelope → Envelope
with_provenance source [] result = result
with_provenance source (m ∷ rest) result = record result {
  migration = some (record {
    source_revision = source.revision;
    source_digest = source.digest;
    chain = ids (m ∷ rest);
  });
}

module _ (c : Codec) where
  -- What follows the chain.
  unfoldable pub migrate : Envelope → (Text → Result (Unit {0})) → List Migration → Result Envelope
  unfolding text_discrete
  migrate source validate_pointer chain = do
    validate_effects_migration_chain chain
    result ← apply_chain source chain
    reject_if
        (result.progress.execution_pointer == [] || not (valid_migration_text result.progress))
        migration_invalid
    joining migration_invalid (validate_pointer result.progress.execution_pointer)
    ok (with_provenance source chain result)

  -- A nil validatePointer is `none`; so is the result if the fuel of the chain ran out.
  unfoldable pub prepare_execution_migration :
      Envelope
      → Descriptor
      → List Migration
      → Option (Text → Result (Unit {0}))
      → Option (Result Envelope)
  prepare_execution_migration source target registry none = some (err migration_invalid)
  prepare_execution_migration source target registry (some validate_pointer) =
      elim (joining migration_invalid
          (validate_execution_integrity c source source.execution_id source.revision)
        >> validate_descriptor source.descriptor
        >> validate_descriptor target) [
          | err e ↦ some (err e)
          | ok _ ↦
              map_some (λ chain. chain >>= migrate source validate_pointer)
                (execution_migration_chain source.descriptor target registry)
        ]
