-- ===== src/Graph/Checked.antt =====
-- What it says of a builder that the checks of Compile (builder.go) report nothing.
use flowy.Prelude.{
  ◌≡◌, ◌≢◌, inl, inr, refl, true, false, not, [], ◌∷◌, some, ◌==◌, arith, Bool-cases, Option-cases,
  apart_of_==,
}
use flowy.Base.{Text, text_eq, Map, lookup, Result}
use flowy.Graph.{ConditionalEdge, GraphBuilder, end_node, is_some, has}
use flowy.Graph.Message.{CompileErr}
use flowy.Graph.Compile.{
  report, collect, check_handler, flag, referenced, check_reference, check_target, check_targets,
  check_retry_route, collect_compile_errors, validate_overwrite_conflicts, validate_topology,
  validate_references, validate_handlers, validate_routing_conflicts, validate_outgoing_routes,
  validate_conditional_allowed_targets, validate_retry_routes, validate_no_outgoing_route_misuse,
  validate_no_outgoing_route_references, validate_retry_route_exemptions,
}
use flowy.Graph.Marks.{++-eq-nil, collect-nil, mark_keys-keeps, mark_edges-marks}

pub has-lookup {ℓ} :
    {V : Type ℓ} (key : Text) (m : Map V) → has key m ≡ true → (v : V) × (lookup key m ≡ some v)
has-lookup key m h = elim (Option-cases (lookup key m)) [
  | inl none_there ↦ absurd (ground (arith, h, none_there))
  | inr (v, at) ↦ (v, at)
]

module _ {T E : Type 0} (b : GraphBuilder T E) where
  -- Nothing is reported by any check.
  pub silent :
      collect_compile_errors b ≡ []
      → (validate_overwrite_conflicts b ≡ [])
        × (validate_topology b ≡ [])
        × (validate_references b ≡ [])
        × (validate_handlers b ≡ [])
        × (validate_routing_conflicts b ≡ [])
        × (validate_outgoing_routes b ≡ [])
        × (validate_conditional_allowed_targets b ≡ [])
        × (validate_retry_routes b ≡ [])
        × (validate_no_outgoing_route_misuse b ≡ [])
        × (validate_no_outgoing_route_references b ≡ [])
        × (validate_retry_route_exemptions b ≡ [])
  unfolding collect_compile_errors
  silent h =
      let (r10, h10) = ++-eq-nil _ (validate_retry_route_exemptions b) h in
      let (r9, h9) = ++-eq-nil _ (validate_no_outgoing_route_references b) r10 in
      let (r8, h8) = ++-eq-nil _ (validate_no_outgoing_route_misuse b) r9 in
      let (r7, h7) = ++-eq-nil _ (validate_retry_routes b) r8 in
      let (r6, h6) = ++-eq-nil _ (validate_conditional_allowed_targets b) r7 in
      let (r5, h5) = ++-eq-nil _ (validate_outgoing_routes b) r6 in
      let (r4, h4) = ++-eq-nil _ (validate_routing_conflicts b) r5 in
      let (r3, h3) = ++-eq-nil _ (validate_handlers b) r4 in
      let (r2, h2) = ++-eq-nil _ (validate_references b) r3 in
      let (h0, h1) = ++-eq-nil (validate_overwrite_conflicts b) (validate_topology b) r2 in
      (h0, h1, h2, h3, h4, h5, h6, h7, h8, h9, h10)

  pub entry_known :
      validate_topology b ≡ [] → (b.entry_point ≢ []) × (has b.entry_point b.nodes ≡ true)
  unfolding validate_topology
  entry_known h =
      let (_, there) = ++-eq-nil (report (not (is_some b.reducer)) CompileErr.reducer_nil) _ h in
      elim (Bool-cases (b.entry_point == [])) [
        | inl empty ↦ absurd (ground (arith, empty, there))
        | inr named ↦ (apart_of_== b.entry_point [] named, ground (arith, named, there))
      ]

  referenced_known :
      (name : Text)
      → validate_references b ≡ []
      → has name (referenced b) ≡ true
      → (name == end_node) ≡ false
      → (name ≢ []) × (has name b.nodes ≡ true)
  unfolding validate_references
  referenced_known name h marked far =
      let (v, at) = has-lookup name (referenced b) marked in
      let clean = collect-nil (check_reference b) (referenced b) name v h at in
      elim (Bool-cases (name == [])) [
        | inl empty ↦ absurd (ground (arith, empty, clean))
        | inr named ↦ (apart_of_== name [] named, ground (arith, named, far, clean))
      ]

  pub edge_known :
      (from to : Text)
      → validate_references b ≡ []
      → lookup from b.edges ≡ some to
      → (to == end_node) ≡ false
      → (to ≢ []) × (has to b.nodes ≡ true)
  unfolding referenced
  edge_known from to h at far =
      referenced_known to h
        (mark_keys-keeps b.nodes _ to
          (mark_keys-keeps b.conditional_edges _ to (mark_edges-marks b.edges [] from to at far)))
        far

  pub fallback_known :
      (from fallback : Text)
      → validate_retry_routes b ≡ []
      → lookup from b.retry_routes ≡ some fallback
      → (fallback ≢ []) × (has fallback b.nodes ≡ true)
  unfolding validate_retry_routes
  fallback_known from fallback h at =
      let clean = collect-nil (check_retry_route b) b.retry_routes from fallback h at in
      let (_, there) =
        ++-eq-nil (report (not (has from b.nodes)) (CompileErr.source_unknown from)) _ clean in
      elim (Bool-cases (fallback == [])) [
        | inl empty ↦ absurd (ground (arith, empty, there))
        | inr named ↦ (apart_of_== fallback [] named, ground (arith, named, there))
      ]

  -- A registered node is exempt, or has an edge, or has a router.
  pub routed_or_exempt :
      (name : Text)
      → validate_outgoing_routes b ≡ []
      → has name b.nodes ≡ true
      → flag name b.no_outgoing_route ≡ false
      → has name b.edges ≡ false
      → has name b.conditional_edges ≡ true
  unfolding validate_outgoing_routes
  routed_or_exempt name h there exempt no_edge =
      let (v, at) = has-lookup name b.nodes there in
      let clean = collect-nil _ b.nodes name v h at in
      elim (Bool-cases (has name b.conditional_edges)) [
        | inl routed ↦ routed
        | inr missing ↦ absurd (ground (arith, clean, exempt, no_edge, missing))
      ]

  pub router_known :
      (from : Text) (def : ConditionalEdge T)
      → validate_handlers b ≡ []
      → lookup from b.conditional_edges ≡ some def
      → (router : T → Result Text) × (def.router ≡ some router)
  unfolding validate_handlers
  router_known from def h at =
      let (_, there) = ++-eq-nil (collect check_handler b.nodes) _ h in
      let clean = collect-nil _ b.conditional_edges from def there at in
      elim (Option-cases def.router) [
        | inl missing ↦ absurd (ground (arith, clean, missing))
        | inr given ↦ given
      ]

  target_checked :
      (from target : Text) (allowed : Map (Unit {0})) (def : ConditionalEdge T) (u : Unit {0})
      → def.allowed ≡ allowed
      → lookup target allowed ≡ some u
      → check_targets b from def ≡ []
      → (target == end_node) ≡ false
      → has target b.nodes ≡ true
  unfolding lookup
  target_checked from target [] def u is found clean far = cc
  target_checked from target (first ∷ rest) def u is found clean far =
      let each : collect (check_target b from) (first ∷ rest) ≡ [] = ground (arith, is, clean) in
      let one = collect-nil (check_target b from) (first ∷ rest) target u each found in
      elim (Bool-cases (has target b.nodes)) [
        | inl there ↦ there
        | inr missing ↦ absurd (ground (arith, one, far, missing))
      ]

  pub target_known :
      (from target : Text) (def : ConditionalEdge T)
      → validate_conditional_allowed_targets b ≡ []
      → lookup from b.conditional_edges ≡ some def
      → has target def.allowed ≡ true
      → (target == end_node) ≡ false
      → has target b.nodes ≡ true
  unfolding validate_conditional_allowed_targets
  target_known from target def h at declared far =
      let clean = collect-nil (check_targets b) b.conditional_edges from def h at in
      let (tt_there, found) = has-lookup target def.allowed declared in
      target_checked from target def.allowed def tt_there refl found clean far

  pub targets_given :
      (from : Text) (def : ConditionalEdge T)
      → validate_conditional_allowed_targets b ≡ []
      → lookup from b.conditional_edges ≡ some def
      → def.allowed ≢ []
  unfolding validate_conditional_allowed_targets
  targets_given from def h at = λ empty.
      let clean = collect-nil (check_targets b) b.conditional_edges from def h at in
      let bad : false ≡ true = ground (arith, empty, clean) in cc
