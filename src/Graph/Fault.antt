-- ===== src/Graph/Fault.antt =====
-- Why a compiled graph may fail to resolve a route (resolveEdge of runner_execution.go).
use flowy.Prelude.{
  ◌≡◌, ◌⊎◌, inl, inr, true, false, List, [], none, some, ◌==◌, arith, Bool-cases, Option-cases,
  eq_of_==, subst, sym, ◌∙◌, ap,
}
use flowy.Base.{
  Text, text_eq, lookup, Err, router_failed, empty_target, undeclared_target, Result, ok, err,
  Result-cases, err-injective,
}
use flowy.Graph.{GraphBuilder, Graph, end_node, has, BuildOption}
use flowy.Graph.Compile.{flag, build_graph, collect_compile_errors, compile, compiled}
use flowy.Graph.Checked.{
  silent, routed_or_exempt, router_known, target_known, targets_given, has-lookup,
}
use flowy.Graph.Routing.{resolve_edge, routed, undeclared, validate_execution_pointer}
use flowy.Graph.Sound.{
  compile-eq-compiled, has-copy, lookup-routers, lookup-allowed_targets, node_of_pointer, edges_of,
}

abbrev refusal : Err → Result Text
refusal e = err e

module _ {T E : Type 0} where
  -- Why the answer of a router fails.
  abbrev pub IsRouterFault : Graph T E → Text → T → (T → Result Text) → Err → Type 0
  IsRouterFault g current state router e =
      ((cause : Err) × (router state ≡ err cause) × (e ≡ router_failed current cause))
      ⊎ ((router state ≡ ok []) × (e ≡ empty_target current))
      ⊎ ((name : Text) × (router state ≡ ok name)
          × (undeclared (lookup current g.conditional_allowed) name ≡ true)
          × (e ≡ undeclared_target current name))

  built_router :
      (b : GraphBuilder T E) (opts : List BuildOption) (current : Text)
      → collect_compile_errors b ≡ []
      → has current b.nodes ≡ true
      → flag current b.no_outgoing_route ≡ false
      → lookup current b.edges ≡ none
      → (router : T → Result Text) × (lookup current (build_graph b opts).conditional_edges
          ≡ some (some router))
        × ((name : Text)
            → undeclared (lookup current (build_graph b opts).conditional_allowed) name ≡ false
            → (name == end_node) ≡ false
            → has name (build_graph b opts).nodes ≡ true)
  unfolding build_graph
  built_router b opts current clean there exempt no_edge =
      let (_, _, _, handlers, _, outgoing, targets, _, _, _, _) = silent b clean in
      let has_router = routed_or_exempt b current outgoing there exempt (ground (arith, no_edge)) in
      let (def, at) = has-lookup current b.conditional_edges has_router in
      let (router, is) = router_known b current def handlers at in
      let given = targets_given b current def targets at in
      let allowed = lookup-allowed_targets b.conditional_edges current def at given in
      (
        router,
        lookup-routers b.conditional_edges current def at ∙ ap some is,
        λ name declared far.
            let inside : has name def.allowed ≡ true = ground (arith, declared, allowed) in
            has-copy b.nodes b.middlewares name
            ∙ target_known b current name def targets at inside far,
      )

  routed_fault :
      (g : Graph T E) (current : Text) (state : T) (router : T → Result Text) (e : Err)
      → ((name : Text)
          → undeclared (lookup current g.conditional_allowed) name ≡ false
          → (name == end_node) ≡ false
          → has name g.nodes ≡ true)
      → routed g current (some router) state ≡ err e
      → IsRouterFault g current state router e
  routed_fault g current state router e known h = elim (Result-cases (router state)) [
    | inl (cause, failed) ↦
        let is : refusal (router_failed current cause) ≡ refusal e = ground (arith, h, failed) in
        inl (cause, failed, sym (err-injective _ e is))
    | inr (name, answered) ↦ elim (Bool-cases (name == [])) [
      | inl empty ↦
          let is : refusal (empty_target current) ≡ refusal e =
            ground (arith, h, answered, empty) in
          inr (inl (answered ∙ ap ok (eq_of_== name [] empty), sym (err-injective _ e is)))
      | inr named ↦ elim (Bool-cases (undeclared (lookup current g.conditional_allowed) name)) [
        | inl outside ↦
            let is : refusal (undeclared_target current name) ≡ refusal e =
              ground (arith, h, answered, named, outside) in
            inr (inr (name, answered, outside, sym (err-injective _ e is)))
        | inr inside ↦ elim (Bool-cases (name == end_node)) [
          | inl last ↦
              let bad : false ≡ true = ground (arith, h, answered, named, inside, last) in
              absurd (cc)
          | inr far ↦
              let there = known name inside far in
              let bad : false ≡ true = ground (arith, h, answered, named, inside, far, there) in
              absurd (cc)
        ]
      ]
    ]
  ]

  built_fault :
      (b : GraphBuilder T E) (opts : List BuildOption) (current : Text) (state : T) (e : Err)
      → collect_compile_errors b ≡ []
      → flag current b.no_outgoing_route ≡ false
      → validate_execution_pointer (build_graph b opts) current ≡ ok tt
      → resolve_edge (build_graph b opts) current state ≡ err e
      → (router : T → Result Text) × (lookup current (build_graph b opts).conditional_edges
          ≡ some (some router))
        × IsRouterFault (build_graph b opts) current state router e
  unfolding resolve_edge
  built_fault b opts current state e clean exempt there h =
      elim (Option-cases (lookup current (build_graph b opts).edges)) [
        | inr (to, at) ↦ let bad : false ≡ true = ground (arith, h, at) in absurd (cc)
        | inl no_edge ↦
            let known = node_of_pointer b opts current there in
            let (router, at, declared) =
              built_router b opts current clean known exempt (edges_of b opts current no_edge) in
            (
              router,
              at,
              routed_fault (build_graph b opts) current state router e declared
                  (ground (arith, h, no_edge, at)),
            )
      ]

  -- If a compiled graph does not resolve the next node from a node that it has and that the builder
  -- has not exempted, then the node has a router, and it is the router that has failed, has answered
  -- with no name, or has answered with a target outside its declared ones. In particular a node
  -- without a route, or a target that is no node, is never found out at run time.
  pub resolve_fault :
      (quote : Text → Text) (b : GraphBuilder T E) (opts : List BuildOption) (g : Graph T E)
      (current : Text) (state : T) (e : Err)
      → compile quote b opts ≡ compiled g
      → validate_execution_pointer g current ≡ ok tt
      → flag current b.no_outgoing_route ≡ false
      → resolve_edge g current state ≡ err e
      → (router : T → Result Text) × (lookup current g.conditional_edges ≡ some (some router))
        × IsRouterFault g current state router e
  resolve_fault quote b opts g current state e made there exempt h =
      let (clean, is) = compile-eq-compiled quote b opts g made in
      subst
        (λ x.
          validate_execution_pointer x current ≡ ok tt
          → resolve_edge x current state ≡ err e
          → (router : T → Result Text) × (lookup current x.conditional_edges ≡ some (some router))
            × IsRouterFault x current state router e)
        is (built_fault b opts current state e clean exempt) there h
