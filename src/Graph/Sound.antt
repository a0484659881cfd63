-- ===== src/Graph/Sound.antt =====
-- A compiled graph (Compile of builder.go) leads only to its own nodes (resolveEdge and
-- validateExecutionPointer of runner_execution.go).
use flowy.Prelude.{
  ◌≡◌, ◌≢◌, ◌⊎◌, inl, inr, refl, true, false, List, [], ◌∷◌, Option, none, some, ◌==◌, arith,
  Bool-cases, Option-cases, eq_of_==, ==-false, apart_of_==, subst, sym, ◌∙◌, ap,
}
use flowy.Base.{Text, text_eq, Map, lookup, Result, ok, Result-cases}
use flowy.Graph.{Node, Middleware, ConditionalEdge, GraphBuilder, Graph, end_node, has, BuildOption}
use flowy.Graph.Message.{CompileErr}
use flowy.Graph.Compile.{
  copy_node_defs, routers, allowed_targets, build_graph, collect_compile_errors, compile, verdict,
  compiled,
}
use flowy.Graph.Checked.{silent, entry_known, edge_known, fallback_known}
use flowy.Graph.Routing.{
  resolve_edge, routed, checked_target, undeclared, validate_execution_pointer,
}

verdict-eq-compiled :
    {T E : Type 0} (quote : Text → Text) (errs : List CompileErr) (made g : Graph T E)
    → verdict quote errs made ≡ compiled g
    → (errs ≡ []) × (made ≡ g)
verdict-eq-compiled quote [] made g h = (refl, cc)
verdict-eq-compiled quote (e ∷ es) made g h = cc

pub compile-eq-compiled :
    {T E : Type 0} (quote : Text → Text) (b : GraphBuilder T E) (opts : List BuildOption)
    (g : Graph T E)
    → compile quote b opts ≡ compiled g
    → (collect_compile_errors b ≡ []) × (build_graph b opts ≡ g)
unfolding compile
compile-eq-compiled quote b opts g h =
    verdict-eq-compiled quote (collect_compile_errors b) (build_graph b opts) g h

List-cases {ℓ} :
    {A : Type ℓ} (xs : List A) → (xs ≡ []) ⊎ ((x : A) × (rest : List A) × (xs ≡ x ∷ rest))
List-cases [] = inl refl
List-cases (x ∷ rest) = inr (x, rest, refl)

pub has-copy :
    {T E : Type 0} (m : Map (Option (Node T E))) (mws : List (Option (Middleware T E)))
    (name : Text)
    → has name (copy_node_defs m mws) ≡ has name m
unfolding lookup copy_node_defs
has-copy [] mws name = refl
has-copy ((k, h) ∷ rest) mws name = ground (arith, has-copy rest mws name)

module _ {T : Type 0} where
  pub lookup-routers :
      (m : Map (ConditionalEdge T)) (from : Text) (def : ConditionalEdge T)
      → lookup from m ≡ some def
      → lookup from (routers m) ≡ some def.router
  unfolding lookup routers
  lookup-routers [] from def h = cc
  lookup-routers ((k, d) ∷ rest) from def h = ground (arith, h, lookup-routers rest from def)

  lookup-of-routers :
      (m : Map (ConditionalEdge T)) (from : Text) (r : Option (T → Result Text))
      → lookup from (routers m) ≡ some r
      → (def : ConditionalEdge T) × (lookup from m ≡ some def) × (def.router ≡ r)
  unfolding lookup routers
  lookup-of-routers [] from r h = cc
  lookup-of-routers ((k, d) ∷ rest) from r h = elim (Bool-cases (k == from)) [
    | inl same ↦ (d, ground (arith, same), ground (arith, same, h))
    | inr other ↦
        let (def, at, is) = lookup-of-routers rest from r (ground (arith, other, h)) in
        (def, ground (arith, other, at), is)
  ]

  pub lookup-allowed_targets :
      (m : Map (ConditionalEdge T)) (from : Text) (def : ConditionalEdge T)
      → lookup from m ≡ some def
      → def.allowed ≢ []
      → lookup from (allowed_targets m) ≡ some def.allowed
  unfolding lookup allowed_targets
  lookup-allowed_targets [] from def h given = cc
  lookup-allowed_targets ((k, d) ∷ rest) from def h given = elim (List-cases d.allowed) [
    | inl none_given ↦ elim (Bool-cases (k == from)) [
      | inl same ↦
          let is : d ≡ def = ground (arith, same, h) in
          absurd (given (ap (λ x. x.allowed) (sym is) ∙ none_given))
      | inr other ↦ ground (
        arith,
        none_given,
        other,
        lookup-allowed_targets rest from def (ground (arith, other, h)) given,
      )
    ]
    | inr (first, others, some_given) ↦ elim (Bool-cases (k == from)) [
      | inl same ↦
          let is : d ≡ def = ground (arith, same, h) in
          let set : (first ∷ others) ≡ def.allowed = sym some_given ∙ ap (λ x. x.allowed) is in
          ground (arith, some_given, same, set)
      | inr other ↦ ground (
        arith,
        some_given,
        other,
        lookup-allowed_targets rest from def (ground (arith, other, h)) given,
      )
    ]
  ]

module _ {T E : Type 0} where
  pointer_ok :
      (g : Graph T E) (name : Text)
      → name ≢ []
      → has name g.nodes ≡ true
      → validate_execution_pointer g name ≡ ok tt
  unfolding validate_execution_pointer
  pointer_ok g name named there = ground (arith, ==-false name [] named, there)

  pub has_of_pointer :
      (g : Graph T E) (name : Text)
      → validate_execution_pointer g name ≡ ok tt
      → has name g.nodes ≡ true
  unfolding validate_execution_pointer
  has_of_pointer g name h = elim (Bool-cases (has name g.nodes)) [
    | inl there ↦ there
    | inr missing ↦ elim (Bool-cases (name == [])) [
      | inl empty ↦ let bad : false ≡ true = ground (arith, h, empty) in absurd (cc)
      | inr named ↦ let bad : false ≡ true = ground (arith, h, named, missing) in absurd (cc)
    ]
  ]

  checked_target-eq-ok :
      (g : Graph T E) (current name next : Text)
      → checked_target g current name ≡ ok next
      → (name ≡ next) × (name ≢ []) × ((name ≡ end_node) ⊎ (has name g.nodes ≡ true))
  checked_target-eq-ok g current name next h = elim (Bool-cases (name == [])) [
    | inl empty ↦ let bad : false ≡ true = ground (arith, h, empty) in absurd (cc)
    | inr named ↦ elim (Bool-cases (undeclared (lookup current g.conditional_allowed) name)) [
      | inl outside ↦ let bad : false ≡ true = ground (arith, h, named, outside) in absurd (cc)
      | inr inside ↦ elim (Bool-cases (name == end_node)) [
        | inl last ↦ (
          ground (arith, h, named, inside, last),
          apart_of_== name [] named,
          inl (eq_of_== name end_node last),
        )
        | inr far ↦ elim (Bool-cases (has name g.nodes)) [
          | inl there ↦
              (ground (arith, h, named, inside, far, there), apart_of_== name [] named, inr there)
          | inr missing ↦
              let bad : false ≡ true = ground (arith, h, named, inside, far, missing) in absurd (cc)
        ]
      ]
    ]
  ]

  -- A router's answer that is accepted.
  routed-eq-ok :
      (g : Graph T E) (current : Text) (r : Option (T → Result Text)) (state : T) (next : Text)
      → routed g current r state ≡ ok next
      → (next ≡ end_node) ⊎ (validate_execution_pointer g next ≡ ok tt)
  routed-eq-ok g current none state next h = absurd (cc)
  routed-eq-ok g current (some router) state next h = elim (Result-cases (router state)) [
    | inl (e, failed) ↦ let bad : false ≡ true = ground (arith, h, failed) in absurd (cc)
    | inr (name, answered) ↦
        let (same, named, known) =
          checked_target-eq-ok g current name next (ground (arith, h, answered)) in
        subst (λ x. (x ≡ end_node) ⊎ (validate_execution_pointer g x ≡ ok tt)) same
          (elim known [ inl last ↦ inl last | inr there ↦ inr (pointer_ok g name named there) ])
  ]

  built_pointer :
      (b : GraphBuilder T E) (opts : List BuildOption) (name : Text)
      → name ≢ []
      → has name b.nodes ≡ true
      → validate_execution_pointer (build_graph b opts) name ≡ ok tt
  unfolding build_graph
  built_pointer b opts name named there =
      pointer_ok (build_graph b opts) name named (has-copy b.nodes b.middlewares name ∙ there)

  pub node_of_pointer :
      (b : GraphBuilder T E) (opts : List BuildOption) (name : Text)
      → validate_execution_pointer (build_graph b opts) name ≡ ok tt
      → has name b.nodes ≡ true
  unfolding validate_execution_pointer build_graph
  node_of_pointer b opts name h =
      sym (has-copy b.nodes b.middlewares name) ∙ has_of_pointer (build_graph b opts) name h

  pub edges_of :
      (b : GraphBuilder T E) (opts : List BuildOption) (name : Text)
      → lookup name (build_graph b opts).edges ≡ none
      → lookup name b.edges ≡ none
  unfolding build_graph
  edges_of b opts name h = h

  built_edge :
      (b : GraphBuilder T E) (opts : List BuildOption) (from to : Text)
      → collect_compile_errors b ≡ []
      → lookup from (build_graph b opts).edges ≡ some to
      → (to ≡ end_node) ⊎ (validate_execution_pointer (build_graph b opts) to ≡ ok tt)
  unfolding build_graph
  built_edge b opts from to clean at =
      let (_, _, references, _, _, _, _, _, _, _, _) = silent b clean in
      elim (Bool-cases (to == end_node)) [
        | inl last ↦ inl (eq_of_== to end_node last)
        | inr far ↦
            let (named, there) = edge_known b from to references at far in
            inr (built_pointer b opts to named there)
      ]

  -- The next node that a compiled graph resolves, from any node in any state, by an edge or by the
  -- answer of a router, is the end or a node of the graph.
  pub resolved_known :
      (quote : Text → Text) (b : GraphBuilder T E) (opts : List BuildOption) (g : Graph T E)
      (current : Text) (state : T) (next : Text)
      → compile quote b opts ≡ compiled g
      → resolve_edge g current state ≡ ok next
      → (next ≡ end_node) ⊎ (validate_execution_pointer g next ≡ ok tt)
  unfolding resolve_edge
  resolved_known quote b opts g current state next made h =
      let (clean, is) = compile-eq-compiled quote b opts g made in
      elim (Option-cases (lookup current g.edges)) [
        | inr (to, at) ↦
            let same : to ≡ next = ground (arith, h, at) in
            let at' : lookup current (build_graph b opts).edges ≡ some to =
              subst (λ x. lookup current x.edges ≡ some to) (sym is) at in
            subst (λ x. (next ≡ end_node) ⊎ (validate_execution_pointer x next ≡ ok tt)) is
              (subst
                (λ n. (n ≡ end_node) ⊎ (validate_execution_pointer (build_graph b opts) n ≡ ok tt))
                same (built_edge b opts current to clean at'))
        | inl no_edge ↦ elim (Option-cases (lookup current g.conditional_edges)) [
          | inl no_router ↦
              let bad : false ≡ true = ground (arith, h, no_edge, no_router) in absurd (cc)
          | inr (router, at) ↦
              routed-eq-ok g current router state next (ground (arith, h, no_edge, at))
        ]
      ]

  -- A compiled graph starts at one of its nodes, and each of its retry routes falls back to one.
  pub entry_and_fallbacks_valid :
      (quote : Text → Text) (b : GraphBuilder T E) (opts : List BuildOption) (g : Graph T E)
      → compile quote b opts ≡ compiled g
      → (validate_execution_pointer g g.entry_point ≡ ok tt)
        × ((from fallback : Text)
            → lookup from g.retry_routes ≡ some fallback
            → validate_execution_pointer g fallback ≡ ok tt)
  unfolding build_graph
  entry_and_fallbacks_valid quote b opts g made =
      let (clean, is) = compile-eq-compiled quote b opts g made in
      let (_, topology, _, _, _, _, _, retries, _, _, _) = silent b clean in
      let (named, there) = entry_known b topology in
      subst
        (λ x.
          (validate_execution_pointer x x.entry_point ≡ ok tt)
          × ((from fallback : Text)
              → lookup from x.retry_routes ≡ some fallback
              → validate_execution_pointer x fallback ≡ ok tt))
        is
        (
          built_pointer b opts b.entry_point named there,
          λ from fallback at.
              let (called, known) = fallback_known b from fallback retries at in
              built_pointer b opts fallback called known,
        )
