-- ===== src/Runner/Examples.antt =====
-- A graph of two nodes that counts to three: `count` adds one and routes back to itself or to the
-- end, `rest` waits for a retry.
use flowy.Prelude.{
  ℕ, ◌+◌, ◌<◌, ◌≡◌, ◌⊎◌, refl, Bool, true, false, [], ◌∷◌, ◌++◌, none, some, ℤ, pos, i64, ◌≤ℤ◌, ltb,
  if◌then◌else◌, arith,
}
use flowy.Base.{
  Text, text, text_discrete, lookup, insert, Err, Result, ok, err, router_failed, host,
  budget_exceeded,
}
use flowy.Execution.Sample.{meta}
use flowy.Graph.{
  Directive, GraphBuilder, Graph, end_node, new_graph, add_node, add_conditional_edge,
  add_retry_route, allow_no_outgoing_route, set_entry_point, with_named_budget, apply_build_options,
  apply_build_option,
}
use flowy.Graph.Compile.{
  flag, copy_node_defs, wrap_node, routers, allowed_targets, build_graph, collect_compile_errors,
  compile, compiled, referenced, validate_overwrite_conflicts, validate_topology,
  validate_references, validate_handlers, validate_routing_conflicts, validate_outgoing_routes,
  validate_conditional_allowed_targets, validate_retry_routes, validate_no_outgoing_route_misuse,
  validate_no_outgoing_route_references, validate_retry_route_exemptions,
}
use flowy.Graph.Routing.{resolve_edge, validate_execution_pointer}
use flowy.Graph.Sound.{resolved_known, entry_and_fallbacks_valid}
use flowy.Graph.Fault.{resolve_fault, IsRouterFault}
use flowy.Runner.{
  Position, clear, Round, run_completed, run_failed, text_of, Outcome, collect_effects,
  unwrap_directive, check_budget_limits,
}
use flowy.Runner.Loop.{
  execute, execute_round, run_node_step, apply_directive, counted, step_limit, room,
}
use flowy.Runner.Terminates.{IsInt, execute_bounded}
use flowy.Runner.Known.{IsNode, IsSound}
use flowy.Runner.Stays.{run_known}
use flowy.Runner.Effects.{with_effects, unwrap-with_effects}

abbrev router : ℕ → Result Text
router n = if ltb n 3 then ok (text "count") else if ltb n 9 then ok end_node else err (host [])

abbrev quote : Text → Text
quote name = name

abbrev builder : GraphBuilder ℕ ℕ
unfolding new_graph add_node add_conditional_edge add_retry_route allow_no_outgoing_route
    set_entry_point lookup insert text_discrete
builder =
    set_entry_point
      (add_retry_route
        (allow_no_outgoing_route
          (add_node
            (add_conditional_edge
              (add_node (new_graph (some (λ state update. update))) (text "count") (
                some (λ counts n. (
                  insert (text "calls") (pos n) counts,
                  ok (n + 1, Directive.effect Directive.completed (some n)),
                ))))
              (text "count") (some router) (text "count" ∷ end_node ∷ []))
            (text "rest") (some (λ counts n. (counts, ok (n, Directive.retry (pos 2))))))
          (text "rest"))
        (text "rest") (text "count"))
      (text "count")

abbrev graph : Graph ℕ ℕ
graph = build_graph builder []

compiles : compile quote builder [] ≡ compiled graph
unfolding compile collect_compile_errors referenced validate_overwrite_conflicts validate_topology
    validate_references validate_handlers validate_routing_conflicts validate_outgoing_routes
    validate_conditional_allowed_targets validate_retry_routes validate_no_outgoing_route_misuse
    validate_no_outgoing_route_references validate_retry_route_exemptions lookup insert
    text_discrete new_graph add_node add_conditional_edge add_retry_route allow_no_outgoing_route
    set_entry_point
compiles = refl

entry : graph.entry_point ≡ text "count"
unfolding build_graph new_graph add_node add_conditional_edge add_retry_route
    allow_no_outgoing_route set_entry_point builder
entry = refl

limit-IsInt : IsInt (step_limit graph) × (pos 0 ≤ℤ step_limit graph)
unfolding build_graph apply_build_options apply_build_option
limit-IsInt = ((omega arith, omega arith), omega arith)

entry_and_fallbacks_valid_example :
    (validate_execution_pointer graph graph.entry_point ≡ ok tt)
    × ((from fallback : Text)
        → lookup from graph.retry_routes ≡ some fallback
        → validate_execution_pointer graph fallback ≡ ok tt)
entry_and_fallbacks_valid_example = entry_and_fallbacks_valid quote builder [] graph compiles

resolves : resolve_edge graph (text "count") 1 ≡ ok (text "count")
unfolding resolve_edge build_graph routers allowed_targets copy_node_defs wrap_node lookup insert
    text_discrete new_graph add_node add_conditional_edge add_retry_route allow_no_outgoing_route
    set_entry_point
resolves = refl

resolved_known_example :
    (text "count" ≡ end_node) ⊎ (validate_execution_pointer graph (text "count") ≡ ok tt)
resolved_known_example =
    resolved_known quote builder [] graph (text "count") 1 (text "count") compiles resolves

count_is_node : validate_execution_pointer graph (text "count") ≡ ok tt
unfolding validate_execution_pointer build_graph copy_node_defs wrap_node lookup insert
    text_discrete new_graph add_node add_conditional_edge add_retry_route allow_no_outgoing_route
    set_entry_point
count_is_node = refl

count_routed : flag (text "count") builder.no_outgoing_route ≡ false
unfolding lookup insert text_discrete new_graph add_node add_conditional_edge add_retry_route
    allow_no_outgoing_route set_entry_point
count_routed = refl

fails_to_route : resolve_edge graph (text "count") 9 ≡ err (router_failed (text "count") (host []))
unfolding resolve_edge build_graph routers allowed_targets copy_node_defs wrap_node lookup insert
    text_discrete new_graph add_node add_conditional_edge add_retry_route allow_no_outgoing_route
    set_entry_point
fails_to_route = refl

resolve_fault_example :
    (r : ℕ → Result Text) × (lookup (text "count") graph.conditional_edges ≡ some (some r))
    × IsRouterFault graph (text "count") 9 r (router_failed (text "count") (host []))
resolve_fault_example =
    resolve_fault quote builder [] graph (text "count") 9 (router_failed (text "count") (host []))
      compiles count_is_node count_routed fails_to_route

abbrev quiet : ℕ → Round
quiet i = record {
  on_entry = clear;
  started_taken = true;
  completed_taken = true;
  after_step = clear;
  after_budget = clear;
}

abbrev start : Position ℕ ℕ
start = record { current = text "count"; state = 1; meta = meta; effects = [] }

abbrev finish : Outcome ℕ ℕ
finish = record {
  position = record {
    current = text "count";
    state = 3;
    meta = record meta { step_count = pos 2; budget_counts = (text "calls", pos 2) ∷ [] };
    effects = 1 ∷ 2 ∷ [];
  };
  ending = run_completed;
}

abbrev never : Err → Bool
never e = false

runs : execute graph never 3 none quiet 0 start ≡ some finish
unfolding execute execute_round run_node_step apply_directive counted unwrap_directive
    collect_effects check_budget_limits i64 apply_build_options apply_build_option resolve_edge
    build_graph routers allowed_targets copy_node_defs wrap_node lookup insert text_discrete
    new_graph add_node add_conditional_edge add_retry_route allow_no_outgoing_route set_entry_point
runs = refl

run_known_example : IsNode graph finish.position.current × IsSound graph finish.ending
run_known_example =
    run_known quote builder [] graph never 3 none quiet 0 start finish compiles count_is_node runs

-- `count` records its state as the calls that it has made, so its second call records two.
abbrev limited : ℤ → Graph ℕ ℕ
limited limit = build_graph builder (with_named_budget (text "calls") limit ∷ [])

runs_over :
    execute (limited (pos 1)) never 3 none quiet 0 start
    ≡ some (record finish { ending = run_failed (text_of budget_exceeded) budget_exceeded })
unfolding execute execute_round run_node_step apply_directive counted unwrap_directive
    collect_effects check_budget_limits i64 apply_build_options apply_build_option resolve_edge
    build_graph routers allowed_targets copy_node_defs wrap_node lookup insert text_discrete
    new_graph add_node add_conditional_edge add_retry_route allow_no_outgoing_route set_entry_point
runs_over = refl

plain : unwrap_directive {E = ℕ} Directive.completed ≡ ok (Directive.completed, [])
unfolding unwrap_directive collect_effects
plain = refl

unwrap-with_effects_example :
    unwrap_directive {E = ℕ} (with_effects Directive.completed (1 ∷ 2 ∷ []))
    ≡ ok (Directive.completed, [] ++ 1 ∷ 2 ∷ [])
unwrap-with_effects_example =
    unwrap-with_effects Directive.completed Directive.completed [] (1 ∷ 2 ∷ []) plain

zero-IsInt : IsInt (pos 0)
zero-IsInt = (omega arith, omega arith)

roomy : room (step_limit graph) (pos 0) < 2000
unfolding room build_graph apply_build_options apply_build_option
roomy = omega arith

execute_bounded_example :
    (o : Outcome ℕ ℕ) × (execute graph never 2000 none quiet 0 start ≡ some o)
    × (o.position.meta.step_count ≤ℤ step_limit graph)
execute_bounded_example =
    execute_bounded graph never 2000 none quiet 0 start limit-IsInt.0 zero-IsInt limit-IsInt.1 roomy
