-- ===== src/Graph.antt =====
-- The graph, its builder and the options of Compile (builder.go, runner.go, options.go,
-- middleware.go, and the directives of flowy.go). Of a node's context the counts of the budgets are
-- modelled; `T` is the state, `E`
-- the effect type of a graph. A nil function is `none`.
pub mod Message
pub mod Compile
pub mod Routing
pub mod Marks
pub mod Checked
pub mod Sound
pub mod Fault
use flowy.Prelude.{
  ℕ, Bool, true, false, List, [], ◌∷◌, ◌++◌, Option, none, some, ℤ, pos, leb_ℤ, if◌then◌else◌,
}
use flowy.Base.{Text, text, Map, lookup, insert, Result}
use flowy.Wait.Types.{WaitSpec}

-- Directive, by the function that makes it; the payload of an effect is `none` if it has another
-- type. `next` is the reserved kind, `zero` the zero value.
pub data Directive (E : Type 0) : Type 0 where
  zero completed end next : Directive E
  suspend : Text → Text → Directive E
  handoff : Text → Text → Directive E
  fail : Text → Directive E
  await : WaitSpec → Directive E
  retry : ℤ → Directive E
  effect : Directive E → Option E → Directive E

-- Node: of the counts of the budgets (`BudgetCounts` of the metadata in its context, which UseBudget
-- adds to) and the state, what it leaves and answers.
abbrev pub Node : Type 0 → Type 0 → Type 0
Node T E = Map ℤ → T → Map ℤ × Result (T × Directive E)

-- NodeMiddleware; nodeDef is its handler.
abbrev pub Middleware : Type 0 → Type 0 → Type 0
Middleware T E = Node T E → Node T E

-- conditionalEdgeDef; a nil set of targets is empty.
pub record ConditionalEdge (T : Type 0) : Type 0 where
  pub router : Option (T → Result Text)
  pub allowed : Map (Unit {0})

pub record GraphBuilder (T E : Type 0) : Type 0 where
  pub reducer : Option (T → T → T)
  pub nodes : Map (Option (Node T E))
  pub edges : Map Text
  pub conditional_edges : Map (ConditionalEdge T)
  pub retry_routes : Map Text
  pub middlewares : List (Option (Middleware T E))
  pub entry_point : Text
  pub overwritten_nodes : Map Bool
  pub overwritten_edge_from : Map Bool
  pub overwritten_router_from : Map Bool
  pub overwritten_retry_from : Map Bool
  pub no_outgoing_route : Map Bool

-- runConfig
pub record RunConfig : Type 0 where
  pub max_steps : ℤ
  pub delete_on_success : Bool
  pub retention_limit : ℤ
  pub budget_limits : Map ℤ

pub record Graph (T E : Type 0) : Type 0 where
  pub nodes : Map (Option (Node T E))
  pub edges : Map Text
  pub conditional_edges : Map (Option (T → Result Text))
  pub conditional_allowed : Map (Map (Unit {0}))
  pub retry_routes : Map Text
  pub entry_point : Text
  pub reducer : Option (T → T → T)
  pub defaults : RunConfig

abbrev pub end_node : Text
end_node = text "__end__"

-- `_, ok := m[key]`
abbrev pub is_some {ℓ} : {A : Type ℓ} → Option A → Bool
is_some none = false
is_some (some a) = true

abbrev pub has {ℓ} : {V : Type ℓ} → Text → Map V → Bool
has key m = is_some (lookup key m)

-- `if exists { overwritten[key] = true }`
abbrev pub noted : Bool → Text → Map Bool → Map Bool
noted true key overwritten = insert key true overwritten
noted false key overwritten = overwritten

abbrev pub target_set : List Text → Map (Unit {0}) → Map (Unit {0})
target_set [] set = set
target_set (target ∷ rest) set = target_set rest (insert target tt set)

module _ {T E : Type 0} where
  unfoldable pub new_graph : Option (T → T → T) → GraphBuilder T E
  new_graph reducer = record {
    reducer = reducer;
    nodes = [];
    edges = [];
    conditional_edges = [];
    retry_routes = [];
    middlewares = [];
    entry_point = [];
    overwritten_nodes = [];
    overwritten_edge_from = [];
    overwritten_router_from = [];
    overwritten_retry_from = [];
    no_outgoing_route = [];
  }

  unfoldable pub allow_no_outgoing_route : GraphBuilder T E → Text → GraphBuilder T E
  allow_no_outgoing_route b name = record b {
    no_outgoing_route = insert name true b.no_outgoing_route;
  }

  unfoldable pub add_node : GraphBuilder T E → Text → Option (Node T E) → GraphBuilder T E
  add_node b name fn = record b {
    overwritten_nodes = noted (has name b.nodes) name b.overwritten_nodes;
    nodes = insert name fn b.nodes;
  }

  unfoldable pub add_edge : GraphBuilder T E → Text → Text → GraphBuilder T E
  add_edge b from to = record b {
    overwritten_edge_from = noted (has from b.edges) from b.overwritten_edge_from;
    edges = insert from to b.edges;
  }

  unfoldable pub add_conditional_edge :
      GraphBuilder T E → Text → Option (T → Result Text) → List Text → GraphBuilder T E
  add_conditional_edge b from router allowed_targets = record b {
    overwritten_router_from = noted (has from b.conditional_edges) from b.overwritten_router_from;
    conditional_edges =
        insert from (record { router = router; allowed = target_set allowed_targets [] })
          b.conditional_edges;
  }

  unfoldable pub add_retry_route : GraphBuilder T E → Text → Text → GraphBuilder T E
  add_retry_route b from_node fallback_node = record b {
    overwritten_retry_from =
        noted (has from_node b.retry_routes) from_node b.overwritten_retry_from;
    retry_routes = insert from_node fallback_node b.retry_routes;
  }

  unfoldable pub use_middlewares :
      GraphBuilder T E → List (Option (Middleware T E)) → GraphBuilder T E
  use_middlewares b middlewares = record b { middlewares = b.middlewares ++ middlewares }

  unfoldable pub set_entry_point : GraphBuilder T E → Text → GraphBuilder T E
  set_entry_point b name = record b { entry_point = name }

-- The functions that make a BuildOption.
pub data BuildOption : Type 0 where
  with_max_steps : ℤ → BuildOption
  with_named_budget : Text → ℤ → BuildOption
  with_delete_on_success : Bool → BuildOption
  with_retention_limit : ℤ → BuildOption

abbrev pub default_max_steps : ℤ
default_max_steps = pos 1000

unfoldable pub apply_build_option : RunConfig → BuildOption → RunConfig
apply_build_option o (with_max_steps limit) = record o { max_steps = limit }
apply_build_option o (with_named_budget name limit) = record o {
  budget_limits = insert name limit o.budget_limits;
}
apply_build_option o (with_delete_on_success enabled) = record o { delete_on_success = enabled }
apply_build_option o (with_retention_limit limit) = record o { retention_limit = limit }

abbrev apply_each : RunConfig → List BuildOption → RunConfig
apply_each o [] = o
apply_each o (opt ∷ rest) = apply_each (apply_build_option o opt) rest

abbrev with_default_steps : RunConfig → RunConfig
with_default_steps o =
    if leb_ℤ o.max_steps (pos 0) then record o { max_steps = default_max_steps } else o

unfoldable pub apply_build_options : List BuildOption → RunConfig
apply_build_options opts = with_default_steps (
    apply_each
      (record {
        max_steps = default_max_steps;
        delete_on_success = false;
        retention_limit = pos 0;
        budget_limits = [];
      })
      opts)
