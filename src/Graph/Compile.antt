-- ===== src/Graph/Compile.antt =====
-- Compile: the checks of the builder, the order of their errors, and buildGraph (builder.go), with
-- wrapNodeWithMiddlewares (middleware.go). Maps are read in the order of their lists.
use flowy.Prelude.{
  Bool, true, false, not, ◌&&◌, List, [], ◌∷◌, ◌++◌, Option, none, some, ◌==◌, nat_eq,
  if◌then◌else◌,
}
use flowy.Base.{Text, text_eq, Map, lookup, insert, Result}
use flowy.Graph.{
  Node, Middleware, ConditionalEdge, GraphBuilder, Graph, end_node, is_some, has, BuildOption,
  apply_build_options,
}
use flowy.Graph.Message.{
  CompileErr, sorted, node_again, edge_again, router_again, retry_again, reducer_nil, entry_not_set,
  name_empty, entry_unknown, not_registered, reserved, handler_nil, router_nil, targets_missing,
  target_unknown, fallback_unknown, source_unknown, fallback_empty, both_routes, no_route,
  exempt_with_edge, exempt_with_router, exempt_unknown, retry_not_exempt,
}

-- `if test { errs = append(errs, err) }`
abbrev pub report : Bool → CompileErr → List CompileErr
report true e = e ∷ []
report false e = []

-- `for key, value := range m { errs = append(errs, ...) }`
abbrev pub collect {ℓ} : {V : Type ℓ} → (Text → V → List CompileErr) → Map V → List CompileErr
collect check [] = []
collect check ((key, value) ∷ rest) = check key value ++ collect check rest

abbrev pub mark : Text → Bool → Map Bool → Map Bool
mark name true set = insert name true set
mark name false set = set

abbrev pub mark_edges : Map Text → Map Bool → Map Bool
mark_edges [] set = set
mark_edges ((from, to) ∷ rest) set =
    mark_edges rest (mark to (not (to == end_node)) (insert from true set))

abbrev pub mark_keys {ℓ} : {V : Type ℓ} → Map V → Map Bool → Map Bool
mark_keys [] set = set
mark_keys ((name, _) ∷ rest) set = mark_keys rest (insert name true set)

-- `m[key]` of a map of flags.
abbrev pub flag : Text → Map Bool → Bool
flag key m = elim (lookup key m) [ none ↦ false | some b ↦ b ]

module _ {T : Type 0} where
  unfoldable pub routers : Map (ConditionalEdge T) → Map (Option (T → Result Text))
  routers [] = []
  routers ((from, def) ∷ rest) = (from, def.router) ∷ routers rest

  unfoldable pub allowed_targets : Map (ConditionalEdge T) → Map (Map (Unit {0}))
  allowed_targets [] = []
  allowed_targets ((from, def) ∷ rest) = elim def.allowed [
    | [] ↦ allowed_targets rest
    | first ∷ others ↦ (from, first ∷ others) ∷ allowed_targets rest
  ]

module _ {T E : Type 0} where
  unfoldable pub validate_overwrite_conflicts : GraphBuilder T E → List CompileErr
  validate_overwrite_conflicts b =
      collect (λ name _. node_again name ∷ []) b.overwritten_nodes
      ++ collect (λ from _. edge_again from ∷ []) b.overwritten_edge_from
      ++ collect (λ from _. router_again from ∷ []) b.overwritten_router_from
      ++ collect (λ from _. retry_again from ∷ []) b.overwritten_retry_from

  unfoldable pub validate_topology : GraphBuilder T E → List CompileErr
  validate_topology b =
      report (not (is_some b.reducer)) reducer_nil
      ++ (if b.entry_point == []
          then entry_not_set ∷ []
          else report (not (has b.entry_point b.nodes)) (entry_unknown b.entry_point))

  unfoldable pub referenced : GraphBuilder T E → Map Bool
  referenced b = mark_keys b.nodes (mark_keys b.conditional_edges (mark_edges b.edges []))

  abbrev pub check_reference : GraphBuilder T E → Text → Bool → List CompileErr
  check_reference b name _ =
      if name == []
      then name_empty ∷ []
      else report (not (name == end_node) && not (has name b.nodes)) (not_registered name)

  unfoldable pub validate_references : GraphBuilder T E → List CompileErr
  validate_references b = collect (check_reference b) (referenced b)

  abbrev pub check_handler : Text → Option (Node T E) → List CompileErr
  check_handler name handler =
      report (name == end_node) (reserved name) ++ report (not (is_some handler)) (handler_nil name)

  unfoldable pub validate_handlers : GraphBuilder T E → List CompileErr
  validate_handlers b =
      collect check_handler b.nodes
      ++ collect (λ from def. report (not (is_some def.router)) (router_nil from))
          b.conditional_edges

  abbrev pub check_target : GraphBuilder T E → Text → Text → Unit {0} → List CompileErr
  check_target b from target _ =
      report (not (target == end_node) && not (has target b.nodes)) (target_unknown from target)

  abbrev pub check_targets : GraphBuilder T E → Text → ConditionalEdge T → List CompileErr
  check_targets b from def = elim def.allowed [
    | [] ↦ targets_missing from ∷ []
    | first ∷ rest ↦ collect (check_target b from) (first ∷ rest)
  ]

  unfoldable pub validate_conditional_allowed_targets : GraphBuilder T E → List CompileErr
  validate_conditional_allowed_targets b = collect (check_targets b) b.conditional_edges

  abbrev pub check_retry_route : GraphBuilder T E → Text → Text → List CompileErr
  check_retry_route b from fallback =
      report (not (has from b.nodes)) (source_unknown from)
      ++ (if fallback == []
          then fallback_empty from ∷ []
          else report (not (has fallback b.nodes)) (fallback_unknown from fallback))

  unfoldable pub validate_retry_routes : GraphBuilder T E → List CompileErr
  validate_retry_routes b = collect (check_retry_route b) b.retry_routes

  unfoldable pub validate_routing_conflicts : GraphBuilder T E → List CompileErr
  validate_routing_conflicts b =
      collect (λ from _. report (has from b.conditional_edges) (both_routes from)) b.edges

  unfoldable pub validate_outgoing_routes : GraphBuilder T E → List CompileErr
  validate_outgoing_routes b =
      collect
        (λ name _.
          report
            (not (flag name b.no_outgoing_route)
              && not (has name b.edges)
              && not (has name b.conditional_edges))
            (no_route name))
        b.nodes

  unfoldable pub validate_no_outgoing_route_misuse : GraphBuilder T E → List CompileErr
  validate_no_outgoing_route_misuse b =
      collect
        (λ name _.
          report (has name b.edges) (exempt_with_edge name)
          ++ report (has name b.conditional_edges) (exempt_with_router name))
        b.no_outgoing_route

  unfoldable pub validate_no_outgoing_route_references : GraphBuilder T E → List CompileErr
  validate_no_outgoing_route_references b =
      collect (λ name _. report (not (has name b.nodes)) (exempt_unknown name)) b.no_outgoing_route

  unfoldable pub validate_retry_route_exemptions : GraphBuilder T E → List CompileErr
  validate_retry_route_exemptions b =
      collect (λ from _. report (not (flag from b.no_outgoing_route)) (retry_not_exempt from))
        b.retry_routes

  unfoldable pub collect_compile_errors : GraphBuilder T E → List CompileErr
  collect_compile_errors b =
      validate_overwrite_conflicts b
      ++ validate_topology b
      ++ validate_references b
      ++ validate_handlers b
      ++ validate_routing_conflicts b
      ++ validate_outgoing_routes b
      ++ validate_conditional_allowed_targets b
      ++ validate_retry_routes b
      ++ validate_no_outgoing_route_misuse b
      ++ validate_no_outgoing_route_references b
      ++ validate_retry_route_exemptions b

  -- The first middleware of the list is the outermost. A nil handler has been refused before.
  unfoldable pub wrap_node : Option (Node T E) → List (Option (Middleware T E)) → Option (Node T E)
  wrap_node none _ = none
  wrap_node (some node) [] = some node
  wrap_node (some node) (none ∷ rest) = wrap_node (some node) rest
  wrap_node (some node) (some mw ∷ rest) = elim (wrap_node (some node) rest) [
    | none ↦ none
    | some inner ↦ some (mw inner)
  ]

  unfoldable pub copy_node_defs :
      Map (Option (Node T E)) → List (Option (Middleware T E)) → Map (Option (Node T E))
  copy_node_defs [] middlewares = []
  copy_node_defs ((name, handler) ∷ rest) middlewares =
      (name, wrap_node handler middlewares) ∷ copy_node_defs rest middlewares

  unfoldable pub build_graph : GraphBuilder T E → List BuildOption → Graph T E
  build_graph b opts = record {
    nodes = copy_node_defs b.nodes b.middlewares;
    edges = b.edges;
    conditional_edges = routers b.conditional_edges;
    conditional_allowed = allowed_targets b.conditional_edges;
    retry_routes = b.retry_routes;
    entry_point = b.entry_point;
    reducer = b.reducer;
    defaults = apply_build_options opts;
  }

-- The graph, or the errors that are joined.
pub data Compiled (T E : Type 0) : Type 0 where
  compiled : Graph T E → Compiled T E
  refused : List CompileErr → Compiled T E

abbrev pub verdict : {T E : Type 0} → (Text → Text) → List CompileErr → Graph T E → Compiled T E
verdict quote [] g = compiled g
verdict quote (e ∷ es) g = refused (sorted quote (e ∷ es))

unfoldable pub compile :
    {T E : Type 0} → (Text → Text) → GraphBuilder T E → List BuildOption → Compiled T E
compile quote b opts = verdict quote (collect_compile_errors b) (build_graph b opts)
