-- ===== src/Execution/Migration/Examples.antt =====
-- A migration in two steps, on envelopes that are stored as they are, with a constant digest.
use flowy.Prelude.{◌≡◌, ◌≢◌, ◌↔◌, refl, none, some, List, [], ◌∷◌}
use flowy.Base.{
  Bytes, Text, text, text_eq, text_discrete, Result, ok, valid_runtime_text, valid_text,
}
use flowy.Execution.Types.{
  Descriptor, descriptor_discrete, replay_mode_discrete, Progress, Envelope,
}
use flowy.Execution.Codec.{Codec}
use flowy.Execution.Sample.{envelope, descriptor}
use flowy.Execution.Validate.{
  validate_descriptor, validate_execution_integrity, valid_migration_text, envelope_digest,
}
use flowy.Execution.Migration.{
  Migration, register, edge_from, visited, follow, execution_migration_chain,
  validate_effects_migration_chain, apply_execution_migration, apply_chain, with_provenance,
  migrate, prepare_execution_migration,
}
use flowy.Execution.Migration.Chain.{IsRoute}
use flowy.Execution.Migration.Prepared.{chain_iff_route, prepare_total, prepared}

abbrev plain : Codec
plain = record {
  Encoded = Envelope;
  encode = λ e. ok e;
  decode = λ e. some e;
  digest = λ e. ok (text "sum");
  request_digest = λ source old new target decision policy projection. text "request";
}

abbrev revised : Text → Descriptor
revised revision = record descriptor { graph_revision = revision }

abbrev step : Text → Text → Text → Migration
step id from to = record {
  id = id;
  source = revised from;
  target = revised to;
  transform = some (λ p. ok (record p { execution_pointer = to }));
  effects_transform = none;
}

abbrev registry : List Migration
registry = step (text "a") (text "1") (text "2") ∷ step (text "b") (text "2") (text "3") ∷ []

abbrev edges : List Migration
edges = step (text "b") (text "2") (text "3") ∷ step (text "a") (text "1") (text "2") ∷ []

abbrev source : Envelope
source = record envelope { revision = 1; digest = text "sum" }

abbrev outcome : Envelope
outcome = record source {
  descriptor = revised (text "3");
  progress = record source.progress { execution_pointer = text "3" };
  migration = some (record {
    source_revision = 1;
    source_digest = text "sum";
    chain = text "a" ∷ text "b" ∷ [];
  });
}

abbrev accept : Text → Result (Unit {0})
accept pointer = ok tt

registered : register [] registry ≡ ok edges
unfolding register edge_from validate_descriptor descriptor_discrete replay_mode_discrete
    text_discrete valid_runtime_text valid_text
registered = refl

chain_iff_route_example :
    (execution_migration_chain (revised (text "1")) (revised (text "3")) registry
      ≡ some (ok registry))
    ↔ IsRoute edges (revised (text "1")) (revised (text "3")) [] registry
chain_iff_route_example =
    chain_iff_route (revised (text "1")) (revised (text "3")) registry edges registry registered

prepare_total_example :
    (r : Result Envelope) × (prepare_execution_migration plain source
        (revised (text "3"))
        registry
        (some accept)
      ≡ some r)
prepare_total_example = prepare_total plain source (revised (text "3")) registry (some accept)

migrates :
    prepare_execution_migration plain source (revised (text "3")) registry (some accept)
    ≡ some (ok outcome)
unfolding prepare_execution_migration migrate validate_effects_migration_chain apply_chain
    apply_execution_migration with_provenance execution_migration_chain register follow edge_from
    visited validate_execution_integrity envelope_digest valid_migration_text validate_descriptor
    descriptor_discrete replay_mode_discrete text_discrete valid_runtime_text valid_text
migrates = refl

prepared_example :
    (es : List Migration) × (chain : List Migration) × (p : Progress) × (effects : Bytes)
    × (register [] registry ≡ ok es)
    × IsRoute es source.descriptor (revised (text "3")) [] chain
    × (with_provenance source chain (record source {
      progress = p;
      effects_payload = effects;
      descriptor = revised (text "3");
    })
        ≡ outcome)
    × (p.execution_pointer ≢ [])
    × (accept p.execution_pointer ≡ ok tt)
prepared_example = prepared plain source (revised (text "3")) registry accept outcome migrates
