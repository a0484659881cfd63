-- ===== src/Execution/Migration/Prepared.antt =====
-- What a migration yields: PrepareExecutionMigration and its chain (execution_contract.go).
use flowy.Prelude.{
  ◌≢◌, apart_of_==, ◌||◌, ◌+◌, ◌≡◌, ◌↔◌, refl, true, false, not, List, [], ◌∷◌, Option, none, some,
  arith, ◌==◌, inl, inr, sym, ◌∙◌, ap, subst,
}
use flowy.Base.{
  Bytes, Text, text_eq, length, migration_invalid, Result, ok, err, ◌>>=◌, ◌>>◌, joining, >>=-eq-ok,
  >>-eq-ok, Result-cases, joining-eq-ok, ok-injective, reject_if-eq-ok,
}
use flowy.Execution.Types.{Descriptor, descriptor_eq, Progress, Envelope}
use flowy.Execution.Codec.{Codec}
use flowy.Execution.Validate.{
  validate_descriptor, valid_migration_text, validate_execution_integrity,
}
use flowy.Execution.Migration.{
  Migration, register, follow, execution_migration_chain, validate_effects_migration_chain,
  apply_execution_migration, transformed, effects_of, apply_chain, with_provenance, migrate,
  prepare_execution_migration, map_some,
}
use flowy.Execution.Migration.Chain.{
  IsRoute, open-le-length, follow_total, follow-IsRoute, route-follow, route_length,
  map_some-eq-some,
}

chain_total :
    (source target : Descriptor) (registry : List Migration)
    → (r : Result (List Migration)) × (execution_migration_chain source target registry ≡ some r)
unfolding execution_migration_chain
chain_total source target registry = elim (Result-cases (register [] registry)) [
  | inl (e, refused) ↦ (err e, ground (arith, refused))
  | inr (edges, registered) ↦
      let le = open-le-length edges [] in
      let (r, found) = follow_total (length edges + 1) edges source target [] (omega arith) in
      (r, ground (arith, registered, found))
]

-- Once a registry is registered, a list of its edges is the chain that is found from one
-- descriptor to another exactly if it is a route: it starts at the source, each edge is the one
-- registered for the descriptor reached, no descriptor is left twice, and it stops at the target
-- the first time it is reached.
pub chain_iff_route :
    (source target : Descriptor) (registry edges chain : List Migration)
    → register [] registry ≡ ok edges
    → (execution_migration_chain source target registry ≡ some (ok chain))
      ↔ IsRoute edges source target [] chain
unfolding execution_migration_chain
chain_iff_route source target registry edges chain registered =
    let searched : execution_migration_chain source target registry
        ≡ follow (length edges + 1) edges source target [] =
      ground (arith, registered) in
    (
      λ h. follow-IsRoute (length edges + 1) edges source target [] chain (sym searched ∙ h),
      λ route.
          let le = open-le-length edges [] in
          let fits = route_length edges source target [] chain route in
          searched
          ∙ route-follow (length edges + 1) edges source target [] chain (omega arith) route,
    )

-- A chain that is found is a route over registered edges.
chain_registered :
    (source target : Descriptor) (registry chain : List Migration)
    → execution_migration_chain source target registry ≡ some (ok chain)
    → (edges : List Migration) × (register [] registry ≡ ok edges)
      × IsRoute edges source target [] chain
unfolding execution_migration_chain
chain_registered source target registry chain h = elim (Result-cases (register [] registry)) [
  | inl (e, refused) ↦ let bad : false ≡ true = ground (arith, refused, h) in cc
  | inr (edges, registered) ↦
      (edges, registered, (chain_iff_route source target registry edges chain registered).0 h)
]

-- One application changes the progress, the effects and the descriptor only.
applied :
    (e : Envelope) (m : Migration) (result : Envelope)
    → apply_execution_migration e m ≡ ok result
    → (p : Progress) × (effects : Bytes) × (record e {
      progress = p;
      effects_payload = effects;
      descriptor = m.target;
    }
        ≡ result)
unfolding apply_execution_migration
applied e m result h =
    let (p, _, next) =
      >>=-eq-ok (joining migration_invalid (transformed m.transform e.progress)) _ h in
    let (effects, _, last) =
      >>=-eq-ok (joining migration_invalid (effects_of m.effects_transform e.effects_payload)) _
        next in
    (p, effects, ok-injective _ result last)

-- A route takes an envelope from its first descriptor to its last, and changes the progress, the
-- effects and the descriptor only.
applied_route :
    (edges : List Migration) (source target : Descriptor) (seen : List Descriptor)
    (chain : List Migration) (e result : Envelope)
    → IsRoute edges source target seen chain
    → e.descriptor ≡ source
    → apply_chain e chain ≡ ok result
    → (p : Progress) × (effects : Bytes) × (record e {
      progress = p;
      effects_payload = effects;
      descriptor = target;
    }
        ≡ result)
unfolding apply_chain
applied_route edges source target seen [] e result there from h = (
  e.progress,
  e.effects_payload,
  ap (λ d. record e { descriptor = d }) (sym (from ∙ there)) ∙ ok-injective e result h,
)
applied_route edges source target seen (m ∷ rest) e result (_, _, _, route) from h =
    let (next, stepped, onward) = >>=-eq-ok (apply_execution_migration e m) _ h in
    let (p, effects, made) = applied e m next stepped in
    let onward' : apply_chain
          (record e { progress = p; effects_payload = effects; descriptor = m.target }) rest
        ≡ ok result =
      subst (λ x. apply_chain x rest ≡ ok result) (sym made) onward in
    applied_route edges m.target target (source ∷ seen) rest
      (record e { progress = p; effects_payload = effects; descriptor = m.target }) result route
      refl onward'

module _ (c : Codec) where
  -- On every source, target and registry, with or without a check of execution pointers, preparing a
  -- migration ends: the fuel given to the search for a chain is enough.
  pub prepare_total :
      (source : Envelope) (target : Descriptor) (registry : List Migration)
      (validate_pointer : Option (Text → Result (Unit {0})))
      → (r : Result Envelope) × (prepare_execution_migration c source target registry
            validate_pointer
          ≡ some r)
  unfolding prepare_execution_migration
  prepare_total source target registry none = (err migration_invalid, refl)
  prepare_total source target registry (some validate_pointer) =
      let checks : Result (Unit {0}) =
        joining migration_invalid
          (validate_execution_integrity c source source.execution_id source.revision)
        >> validate_descriptor source.descriptor
        >> validate_descriptor target in
      elim (Result-cases checks) [
        | inl (e, refused) ↦ (err e, ground (arith, refused))
        | inr (_, passed) ↦
            let (r, found) = chain_total source.descriptor target registry in
            (r >>= migrate c source validate_pointer, ground (arith, passed, found))
      ]

  migrate_lem :
      (source : Envelope) (validate_pointer : Text → Result (Unit {0})) (edges : List Migration)
      (target : Descriptor) (chain : List Migration) (result : Envelope)
      → IsRoute edges source.descriptor target [] chain
      → migrate c source validate_pointer chain ≡ ok result
      → (p : Progress) × (effects : Bytes) × (with_provenance source chain
            (record source { progress = p; effects_payload = effects; descriptor = target })
          ≡ result)
        × (p.execution_pointer ≢ [])
        × (validate_pointer p.execution_pointer ≡ ok tt)
  unfolding migrate
  migrate_lem source validate_pointer edges target chain result route h =
      let (_, h1) = >>-eq-ok (validate_effects_migration_chain chain) _ h in
      let (last, walked, h2) = >>=-eq-ok (apply_chain source chain) _ h1 in
      let (p, effects, made) =
        applied_route edges source.descriptor target [] chain source last route refl walked in
      let (named, h3) =
        reject_if-eq-ok
          (last.progress.execution_pointer == [] || not (valid_migration_text last.progress))
          migration_invalid _ h2 in
      let (accepted, h4) =
        >>-eq-ok (joining migration_invalid (validate_pointer last.progress.execution_pointer)) _
          h3 in
      let pointer : last.progress.execution_pointer == [] ≡ false = ground (arith, named) in
      let fine : validate_pointer last.progress.execution_pointer ≡ ok tt =
        joining-eq-ok migration_invalid _ tt accepted in
      let same : last.progress ≡ p = ap (λ x. x.progress) (sym made) in
      (
        p,
        effects,
        ap (λ x. with_provenance source chain x) made ∙ ok-injective _ result h4,
        subst (λ q. q.execution_pointer ≢ []) same
            (apart_of_== last.progress.execution_pointer [] pointer),
        subst (λ q. validate_pointer q.execution_pointer ≡ ok tt) same fine,
      )

  -- If a migration of a source that has checked out is prepared, then there is a chain from the
  -- source's descriptor to the target, a route over the registered edges, and the result is the
  -- source with the target as its descriptor and with progress and effects of its own, and, unless
  -- the chain is empty, a migration record that names the source's revision and digest and the
  -- chain; the execution pointer of the new progress is not empty and has been accepted.
  pub prepared :
      (source : Envelope) (target : Descriptor) (registry : List Migration)
      (validate_pointer : Text → Result (Unit {0})) (result : Envelope)
      → prepare_execution_migration c source target registry (some validate_pointer)
        ≡ some (ok result)
      → (edges : List Migration) × (chain : List Migration) × (p : Progress) × (effects : Bytes)
        × (register [] registry ≡ ok edges)
        × IsRoute edges source.descriptor target [] chain
        × (with_provenance source chain
              (record source { progress = p; effects_payload = effects; descriptor = target })
            ≡ result)
        × (p.execution_pointer ≢ [])
        × (validate_pointer p.execution_pointer ≡ ok tt)
  unfolding prepare_execution_migration
  prepared source target registry validate_pointer result h =
      let checks : Result (Unit {0}) =
        joining migration_invalid
          (validate_execution_integrity c source source.execution_id source.revision)
        >> validate_descriptor source.descriptor
        >> validate_descriptor target in
      elim (Result-cases checks) [
        | inl (e, refused) ↦ let bad : false ≡ true = ground (arith, refused, h) in cc
        | inr (_, passed) ↦
            let ran : map_some (λ chain. chain >>= migrate c source validate_pointer)
                  (execution_migration_chain source.descriptor target registry)
                ≡ some (ok result) =
              ground (arith, passed, h) in
            let (found, searched, applied) = map_some-eq-some _ _ (ok result) ran in
            let (chain, fine, migrated) =
              >>=-eq-ok found (migrate c source validate_pointer) applied in
            let (edges, registered, route) =
              chain_registered source.descriptor target registry chain (searched ∙ ap some fine) in
            let (p, effects, made, pointer, accepted) =
              migrate_lem source validate_pointer edges target chain result route migrated in
            (edges, chain, p, effects, registered, route, made, pointer, accepted)
      ]
