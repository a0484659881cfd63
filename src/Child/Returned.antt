-- ===== src/Child/Returned.antt =====
-- A child returns what it has not used (child_budget.go).
use flowy.Prelude.{
  ◌+◌, ◌≡◌, refl, Bool, true, false, not, ◌||◌, [], ◌∷◌, none, some, arith, ◌==◌, Bool-cases,
  Option-cases, inl, inr, eq_of_==, ℤ, pos, ◌-ℤ◌, ltb_ℤ, pos_part, sym, ◌∙◌, ap, subst,
}
use flowy.Base.{
  Text, text_eq, Map, lookup, insert, lookup-insert, lookup-head, lookup-nil, budget_exceeded,
  child_invalid, children_unresolved, ok, fails, reject_if-eq-ok, >>-eq-ok, ok-injective,
}
use flowy.Child.{ChildRecord, lacks, settled_child}
use flowy.Child.Return.{
  check_used, count_given, returned_units, compute_child_budget_return, validate_child_record_state,
  absent,
}
use flowy.Child.Budget.{units_of, units_at, left_and_taken}

abbrev pub has_key : Text → Map ℤ → Bool
has_key name [] = false
has_key name ((k, n) ∷ rest) = k == name || has_key name rest

-- No key stands twice, as in a Go map.
abbrev pub IsMap : Map ℤ → Type 0
IsMap [] = Unit {0}
IsMap ((k, n) ∷ rest) = (has_key k rest ≡ false) × IsMap rest

absent_key : (name : Text) (m : Map ℤ) → lookup name m ≡ none → has_key name m ≡ false
absent_key name [] h = refl
absent_key name ((k, n) ∷ rest) h =
    ground (arith, lookup-head k name n rest, absent_key name rest, h)

-- A name outside the allocation is left alone.
returned_other :
    (used returned allocation result : Map ℤ) (name : Text)
    → returned_units used returned allocation ≡ ok result
    → has_key name allocation ≡ false
    → lookup name result ≡ lookup name returned
unfolding returned_units
returned_other used returned [] result name h apart =
    ap (lookup name) (sym (ok-injective returned result h))
returned_other used returned ((k, allocated) ∷ rest) result name h apart =
    let (_, h1) =
      reject_if-eq-ok (k == [] || ltb_ℤ allocated (pos 0) || absent (lookup k used)) budget_exceeded
        _ h in
    let units : ℤ = allocated -ℤ count_given (lookup k used) in
    let ih =
      returned_other used (insert k units returned) rest result name h1 (ground (arith, apart)) in
    let far : (k == name) ≡ false = ground (arith, apart) in
    ih ∙ ground (arith, lookup-insert k name units returned, far)

returned_each :
    (used returned allocation result : Map ℤ) (name : Text) (allocated : ℤ)
    → IsMap allocation
    → returned_units used returned allocation ≡ ok result
    → lookup name allocation ≡ some allocated
    → (u : ℤ) × (lookup name used ≡ some u) × (lookup name result ≡ some (allocated -ℤ u))
unfolding returned_units
returned_each used returned [] result name allocated distinct h at =
    let nothing = lookup-nil {V = ℤ} name in absurd (ground (arith, nothing, at))
returned_each used returned ((k, n) ∷ rest) result name allocated (once, distinct) h at =
    let (fine, h1) =
      reject_if-eq-ok (k == [] || ltb_ℤ n (pos 0) || absent (lookup k used)) budget_exceeded _ h in
    let units : ℤ = n -ℤ count_given (lookup k used) in
    elim (Bool-cases (k == name)) [
      | inl same ↦ elim (Option-cases (lookup k used)) [
        | inl missing ↦ absurd (ground (arith, fine, missing))
        | inr (u, used_at) ↦
            let is : k ≡ name = eq_of_== k name same in
            let n_is : n ≡ allocated = ground (arith, lookup-head k name n rest, same, at) in
            let kept : lookup name result ≡ lookup name (insert k units returned) =
              returned_other used (insert k units returned) rest result name h1
                (subst (λ x. has_key x rest ≡ false) is once) in
            let put : lookup name (insert k units returned) ≡ some units =
              ground (arith, lookup-insert k name units returned, same) in
            let units_is : units ≡ allocated -ℤ u =
              ap (λ o. n -ℤ count_given o) used_at ∙ ap (λ m. m -ℤ u) n_is in
            (u, subst (λ x. lookup x used ≡ some u) is used_at, kept ∙ put ∙ ap some units_is)
      ]
      | inr other ↦
          returned_each used (insert k units returned) rest result name allocated distinct h1
            (ground (arith, lookup-head k name n rest, other, at))
    ]

check_each :
    (allocation used : Map ℤ) (name : Text) (u : ℤ)
    → check_used allocation used ≡ ok tt
    → lookup name used ≡ some u
    → lacks (lookup name allocation) u ≡ false
unfolding check_used
check_each allocation [] name u h at =
    let nothing = lookup-nil {V = ℤ} name in absurd (ground (arith, nothing, at))
check_each allocation ((k, units) ∷ rest) name u h at =
    let (fine, h1) =
      reject_if-eq-ok (k == [] || lacks (lookup k allocation) units) budget_exceeded _ h in
    elim (Bool-cases (k == name)) [
      | inl same ↦
          let units_is : units ≡ u = ground (arith, lookup-head k name units rest, same, at) in
          let clear : lacks (lookup k allocation) units ≡ false = ground (arith, fine) in
          subst (λ x. lacks (lookup x allocation) u ≡ false) (eq_of_== k name same)
            (subst (λ n. lacks (lookup k allocation) n ≡ false) units_is clear)
      | inr other ↦
          check_each allocation rest name u h1
            (ground (arith, lookup-head k name units rest, other, at))
    ]

not_used :
    (allocation used : Map ℤ) (name : Text)
    → check_used allocation used ≡ ok tt
    → lookup name allocation ≡ none
    → lookup name used ≡ none
not_used allocation used name checked missing = elim (Option-cases (lookup name used)) [
  | inl unused ↦ unused
  | inr (u, at) ↦
      let clear = check_each allocation used name u checked at in
      let bad : true ≡ false = subst (λ o. lacks o u ≡ false) missing clear in absurd (cc)
]

-- If a child returns its budget, whose allocation names no counter twice, then of every counter what
-- it returns and what it has used are
-- together what it was allocated.
pub return_conserves :
    (c : ChildRecord) (used returned : Map ℤ) (name : Text)
    → IsMap c.spec.allocation
    → compute_child_budget_return c used ≡ ok returned
    → units_at name returned + units_at name used ≡ units_at name c.spec.allocation
unfolding compute_child_budget_return
return_conserves c used returned name distinct h =
    let (_, h1) = reject_if-eq-ok (fails (validate_child_record_state c)) child_invalid _ h in
    let (_, h2) = reject_if-eq-ok (not (settled_child c)) children_unresolved _ h1 in
    let (checked, h3) = >>-eq-ok (check_used c.spec.allocation used) _ h2 in
    elim (Option-cases (lookup name c.spec.allocation)) [
      | inr (allocated, at) ↦
          let (u, used_at, returned_at) =
            returned_each used [] c.spec.allocation returned name allocated distinct h3 at in
          let clear = check_each c.spec.allocation used name u checked used_at in
          let whole : pos_part (allocated -ℤ u) + pos_part u ≡ units_of (some allocated) =
            left_and_taken (some allocated) u (subst (λ o. lacks o u ≡ false) at clear) in
          let r = ap units_of returned_at in
          let t = ap units_of used_at in let a = ap units_of at in omega (arith, whole, r, t, a)
      | inl missing ↦
          let apart = absent_key name c.spec.allocation missing in
          let nothing =
            returned_other used [] c.spec.allocation returned name h3 apart ∙ lookup-nil name in
          let unused = not_used c.spec.allocation used name checked missing in
          let r = ap units_of nothing in
          let t = ap units_of unused in let a = ap units_of missing in omega (arith, r, t, a)
    ]
