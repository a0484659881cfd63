-- ===== src/Graph/Routing.antt =====
-- Where a compiled graph may lead: resolveEdge, the fallback of applyDirectiveRetry and
-- validateExecutionPointer (runner_execution.go).
use flowy.Prelude.{Bool, false, not, [], Option, none, some, ◌==◌, if◌then◌else◌}
use flowy.Base.{
  Text, text_eq, Map, lookup, no_outgoing_edge, router_failed, empty_target, undeclared_target,
  unknown_target, invalid_snapshot, resume_node_not_found, joined, host, Result, ok, err,
}
use flowy.Graph.{Graph, end_node, has}

-- `if allowed, ok := conditionalAllowed[current]; ok { ... }`
abbrev pub undeclared : Option (Map (Unit {0})) → Text → Bool
undeclared none next = false
undeclared (some allowed) next = not (has next allowed)

module _ {T E : Type 0} where
  abbrev pub checked_target : Graph T E → Text → Text → Result Text
  checked_target g current next =
      if next == []
      then err (empty_target current)
      else if undeclared (lookup current g.conditional_allowed) next
      then err (undeclared_target current next)
      else if next == end_node
      then ok next
      else if has next g.nodes
      then ok next
      else err (unknown_target current next)

  abbrev pub routed : Graph T E → Text → Option (T → Result Text) → T → Result Text
  routed g current none state = err (host [])
  routed g current (some router) state = elim (router state) [
    | err e ↦ err (router_failed current e)
    | ok next ↦ checked_target g current next
  ]

  -- A nil router panics; a compiled graph has none.
  unfoldable pub resolve_edge : Graph T E → Text → T → Result Text
  resolve_edge g current state = elim (lookup current g.edges) [
    | some next ↦ ok next
    | none ↦ elim (lookup current g.conditional_edges) [
      | none ↦ err (no_outgoing_edge current)
      | some router ↦ routed g current router state
    ]
  ]

  unfoldable pub validate_execution_pointer : Graph T E → Text → Result (Unit {0})
  validate_execution_pointer g ptr =
      if ptr == []
      then err invalid_snapshot
      else if has ptr g.nodes
      then ok tt
      else err (joined invalid_snapshot (resume_node_not_found ptr))
