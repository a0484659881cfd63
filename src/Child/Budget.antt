-- ===== src/Child/Budget.antt =====
-- The counters of a plan are not exceeded (child_contract.go).
use flowy.Prelude.{
  ℕ, ◌+◌, ◌≤◌, ◌≡◌, refl, false, not, ◌||◌, List, [], ◌∷◌, Option, none, some, arith, ◌==◌, nat_eq,
  Bool-cases, inl, inr, eq_of_==, ℤ, pos, negsuc, pos_part, sym, ◌∙◌, ap, if◌then◌else◌,
}
use flowy.Base.{
  Text, text_eq, valid_runtime_text, Map, lookup, insert, lookup-insert, budget_exceeded,
  child_invalid, child_duplicate, ok, >>=-eq-ok, reject_if-eq-ok, ok-injective,
}
use flowy.Child.{
  ChildSpec, ChildRecord, ChildGroup, ChildGroupPlan, lacks, left_of, allocate_child_counters,
  contains, allocate_children, insert_child, sort_children, planned_children, plan_child_group,
  bad_plan, valid_child_capacity,
}

-- The units of a counter, nothing if there is none.
abbrev pub units_of : Option ℤ → ℕ
units_of none = 0
units_of (some n) = pos_part n

abbrev pub units_at : Text → Map ℤ → ℕ
units_at name counters = units_of (lookup name counters)

-- A counter that suffices holds what is left and what is taken.
pub left_and_taken :
    (o : Option ℤ) (units : ℤ)
    → lacks o units ≡ false
    → pos_part (left_of o units) + pos_part units ≡ units_of o
left_and_taken none units h = absurd (cc)
left_and_taken (some (pos a)) (pos u) h = ground arith
left_and_taken (some (pos a)) (negsuc u) h = absurd (ground arith)
left_and_taken (some (negsuc a)) (pos u) h = ground arith
left_and_taken (some (negsuc a)) (negsuc u) h = absurd (ground arith)

units_at-head :
    (k name : Text) (units : ℤ) (rest : Map ℤ)
    → units_at name ((k, units) ∷ rest) ≡ (if k == name then pos_part units else units_at name rest)
unfolding lookup
units_at-head k name units rest = ground arith

units_at-nil : (name : Text) → units_at name [] ≡ 0
unfolding lookup
units_at-nil name = refl

counters_within :
    (remaining allocation left : Map ℤ) (name : Text)
    → allocate_child_counters remaining allocation ≡ ok left
    → units_at name left + units_at name allocation ≤ units_at name remaining
unfolding allocate_child_counters
counters_within remaining [] left name h =
    let same = ok-injective remaining left h in
    let equal = ap (units_at name) same in
    let none_taken = units_at-nil name in omega (arith, equal, none_taken)
counters_within remaining ((k, units) ∷ rest) left name h =
    let (fits, h1) =
      reject_if-eq-ok
        (k == [] || not (valid_runtime_text (k ∷ [])) || lacks (lookup k remaining) units)
        budget_exceeded _ h in
    let ih =
      counters_within (insert k (left_of (lookup k remaining) units) remaining) rest left name h1 in
    let holds : lacks (lookup k remaining) units ≡ false = ground (arith, fits) in
    let whole = left_and_taken (lookup k remaining) units holds in
    let found = lookup-insert k name (left_of (lookup k remaining) units) remaining in
    elim (Bool-cases (k == name)) [
      | inl same ↦
          let is : k ≡ name = eq_of_== k name same in
          let at : units_at name (insert k (left_of (lookup k remaining) units) remaining)
              ≡ pos_part (left_of (lookup k remaining) units) =
            ground (arith, found, same) in
          let there : units_at k remaining ≡ units_at name remaining =
            ap (λ x. units_at x remaining) is in
          let head : units_at name ((k, units) ∷ rest) ≡ pos_part units =
            ground (arith, units_at-head k name units rest, same) in
          omega (arith, ih, at, there, whole, head)
      | inr other ↦
          let at : units_at name (insert k (left_of (lookup k remaining) units) remaining)
              ≡ units_at name remaining =
            ground (arith, found, other) in
          let head : units_at name ((k, units) ∷ rest) ≡ units_at name rest =
            ground (arith, units_at-head k name units rest, other) in
          omega (arith, ih, at, head)
    ]

-- The units of a counter that children are given.
abbrev allocated : Text → List ChildSpec → ℕ
allocated name [] = 0
allocated name (c ∷ rest) = units_at name c.allocation + allocated name rest

abbrev pub given : Text → List ChildRecord → ℕ
given name [] = 0
given name (c ∷ rest) = units_at name c.spec.allocation + given name rest

children_within :
    (seen : List Text) (remaining left : Map ℤ) (children : List ChildSpec) (name : Text)
    → allocate_children seen remaining children ≡ ok left
    → units_at name left + allocated name children ≤ units_at name remaining
unfolding allocate_children
children_within seen remaining left [] name h =
    let equal = ap (units_at name) (ok-injective remaining left h) in omega (arith, equal)
children_within seen remaining left (spec ∷ rest) name h =
    let (_, h1) =
      reject_if-eq-ok (spec.id == [] || not (valid_runtime_text (spec.id ∷ []))) child_invalid _
        h in
    let (_, h2) = reject_if-eq-ok (contains spec.id seen) child_duplicate _ h1 in
    let (between, taken, h3) = >>=-eq-ok (allocate_child_counters remaining spec.allocation) _ h2 in
    let first = counters_within remaining spec.allocation between name taken in
    let ih = children_within (spec.id ∷ seen) between left rest name h3 in omega (arith, first, ih)

allocated-insert_child :
    (name : Text) (c : ChildSpec) (cs : List ChildSpec)
    → allocated name (insert_child c cs) ≡ units_at name c.allocation + allocated name cs
allocated-insert_child name c [] = refl
allocated-insert_child name c (x ∷ xs) = ground (arith, allocated-insert_child name c xs)

allocated-sort_children :
    (name : Text) (cs : List ChildSpec) → allocated name (sort_children cs) ≡ allocated name cs
unfolding sort_children
allocated-sort_children name [] = refl
allocated-sort_children name (c ∷ rest) =
    let ih = allocated-sort_children name rest in
    let put = allocated-insert_child name c (sort_children rest) in omega (arith, ih, put)

given-planned_children :
    (identity : Text → Text) (name : Text) (cs : List ChildSpec)
    → given name (planned_children identity cs) ≡ allocated name cs
given-planned_children identity name [] = refl
given-planned_children identity name (c ∷ rest) =
    ap (λ n. units_at name c.allocation + n) (given-planned_children identity name rest)

-- A planned group has the capacity that was available, and its children together are given no more
-- of any counter than that.
pub plan_within :
    (identity : Text → Text) (parent_id node : Text) (activation : ℕ) (plan : ChildGroupPlan)
    (available : Map ℤ) (group : ChildGroup) (name : Text)
    → plan_child_group identity parent_id node activation plan available ≡ ok group
    → (group.capacity ≡ available) × (given name group.children ≤ units_at name available)
unfolding plan_child_group
plan_within identity parent_id node activation plan available group name h =
    let (_, h1) = reject_if-eq-ok (bad_plan parent_id node activation plan) child_invalid _ h in
    let (_, h2) = reject_if-eq-ok (not (valid_child_capacity available)) budget_exceeded _ h1 in
    let (left, fits, h3) = >>=-eq-ok (allocate_children [] available plan.children) _ h2 in
    let made = ok-injective _ group h3 in
    let within = children_within [] available left plan.children name fits in
    let sorted = allocated-sort_children name plan.children in
    let all : given name group.children ≡ allocated name plan.children =
      sym (ap (λ g. given name g.children) made)
      ∙ given-planned_children identity name (sort_children plan.children)
      ∙ sorted in
    (sym (ap (λ g. g.capacity) made), omega (arith, within, all))
