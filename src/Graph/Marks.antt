-- ===== src/Graph/Marks.antt =====
-- The lists of errors and the marks that the checks of Compile make (builder.go).
use flowy.Prelude.{
  ◌≡◌, inl, inr, refl, Bool, true, false, not, List, [], ◌∷◌, ◌++◌, some, ◌==◌, arith, Bool-cases,
  eq_of_==, ==-refl, subst, sym,
}
use flowy.Base.{Text, text_eq, Map, lookup, insert, lookup-insert}
use flowy.Graph.{end_node, has}
use flowy.Graph.Message.{CompileErr}
use flowy.Graph.Compile.{collect, mark, mark_edges, mark_keys}

pub ++-eq-nil {ℓ} : {A : Type ℓ} (xs ys : List A) → xs ++ ys ≡ [] → (xs ≡ []) × (ys ≡ [])
++-eq-nil [] ys h = (refl, h)
++-eq-nil (x ∷ xs) ys h = absurd (cc)

module _ {ℓ} {V : Type ℓ} where
  -- A silent check has passed each entry.
  pub collect-nil :
      (check : Text → V → List CompileErr) (m : Map V) (key : Text) (value : V)
      → collect check m ≡ []
      → lookup key m ≡ some value
      → check key value ≡ []
  unfolding lookup
  collect-nil check [] key value h at = cc
  collect-nil check ((k, v) ∷ rest) key value h at =
      let (here, there) = ++-eq-nil (check k v) _ h in
      elim (Bool-cases (k == key)) [
        | inl same ↦
            let key_is : k ≡ key = eq_of_== k key same in
            let value_is : v ≡ value = ground (arith, same, at) in
            subst (λ x. check key x ≡ []) value_is (subst (λ x. check x v ≡ []) key_is here)
        | inr other ↦ collect-nil check rest key value there (ground (arith, other, at))
      ]

  has-insert : (k j : Text) (v : V) (m : Map V) → has j m ≡ true → has j (insert k v m) ≡ true
  has-insert k j v m h = ground (arith, lookup-insert k j v m, h)

  has-insert_same : (k : Text) (v : V) (m : Map V) → has k (insert k v m) ≡ true
  has-insert_same k v m = ground (arith, lookup-insert k k v m, ==-refl k)

-- Marks are kept.
pub mark_keys-keeps {ℓ} :
    {V : Type ℓ} (m : Map V) (set : Map Bool) (j : Text)
    → has j set ≡ true
    → has j (mark_keys m set) ≡ true
mark_keys-keeps [] set j h = h
mark_keys-keeps ((name, _) ∷ rest) set j h =
    mark_keys-keeps rest (insert name true set) j (has-insert name j true set h)

pub mark_keys-marks {ℓ} :
    {V : Type ℓ} (m : Map V) (set : Map Bool) (key : Text) (value : V)
    → lookup key m ≡ some value
    → has key (mark_keys m set) ≡ true
unfolding lookup
mark_keys-marks [] set key value at = cc
mark_keys-marks ((k, v) ∷ rest) set key value at = elim (Bool-cases (k == key)) [
  | inl same ↦
      let key_is : k ≡ key = eq_of_== k key same in
      mark_keys-keeps rest (insert k true set) key
        (subst (λ x. has x (insert k true set) ≡ true) key_is (has-insert_same k true set))
  | inr other ↦ mark_keys-marks rest (insert k true set) key value (ground (arith, other, at))
]

mark-keeps :
    (name : Text) (b : Bool) (set : Map Bool) (j : Text)
    → has j set ≡ true
    → has j (mark name b set) ≡ true
mark-keeps name true set j h = has-insert name j true set h
mark-keeps name false set j h = h

mark_edges-keeps :
    (m : Map Text) (set : Map Bool) (j : Text) → has j set ≡ true → has j (mark_edges m set) ≡ true
mark_edges-keeps [] set j h = h
mark_edges-keeps ((from, to) ∷ rest) set j h =
    mark_edges-keeps rest (mark to (not (to == end_node)) (insert from true set)) j
      (mark-keeps to (not (to == end_node)) (insert from true set) j (has-insert from j true set h))

pub mark_edges-marks :
    (m : Map Text) (set : Map Bool) (from to : Text)
    → lookup from m ≡ some to
    → (to == end_node) ≡ false
    → has to (mark_edges m set) ≡ true
unfolding lookup
mark_edges-marks [] set from to at far = cc
mark_edges-marks ((k, v) ∷ rest) set from to at far = elim (Bool-cases (k == from)) [
  | inl same ↦
      let value_is : v ≡ to = ground (arith, same, at) in
      let here : (v == end_node) ≡ false =
        subst (λ x. (x == end_node) ≡ false) (sym value_is) far in
      let marked : has v (mark v (not (v == end_node)) (insert k true set)) ≡ true =
        subst (λ b. has v (mark v (not b) (insert k true set)) ≡ true) (sym here)
          (has-insert_same v true (insert k true set)) in
      mark_edges-keeps rest (mark v (not (v == end_node)) (insert k true set)) to (
        subst (λ x. has x (mark v (not (v == end_node)) (insert k true set)) ≡ true) value_is
          marked)
  | inr other ↦
      mark_edges-marks rest (mark v (not (v == end_node)) (insert k true set)) from to
        (ground (arith, other, at)) far
]
