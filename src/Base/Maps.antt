-- ===== src/Base/Maps.antt =====
-- Go maps with string keys, as association lists. A Go map is iterated in no fixed order; a loop
-- over one is modelled on the order of the list.
use flowy.Prelude.{
  ℕ, suc, ◌≡◌, refl, List, [], ◌∷◌, ◌++◌, Option, none, some, arith, ◌==◌, if◌then◌else◌,
}
use flowy.Base.Strings.{Text, text_eq, text_discrete}

abbrev pub Map {ℓ} : Type ℓ → Type ℓ
Map V = List (Text × V)

module _ {ℓ} {A : Type ℓ} where
  abbrev pub length : List A → ℕ
  length [] = 0
  length (_ ∷ xs) = suc (length xs)

  abbrev pub last? : List A → Option A
  last? [] = none
  last? (x ∷ []) = some x
  last? (_ ∷ y ∷ xs) = last? (y ∷ xs)

  abbrev pub get_elem? : List A → ℕ → Option A
  get_elem? [] i = none
  get_elem? (x ∷ xs) ℕ.zero = some x
  get_elem? (x ∷ xs) (suc i) = get_elem? xs i

  -- `x` at the last place.
  abbrev pub set_last : A → List A → List A
  set_last a [] = []
  set_last a (x ∷ []) = a ∷ []
  set_last a (x ∷ y ∷ xs) = x ∷ set_last a (y ∷ xs)

module _ {ℓ} {V : Type ℓ} where
  -- `m[key]`, with the test whether it is there.
  unfoldable pub lookup : Text → Map V → Option V
  unfolding text_discrete
  lookup key [] = none
  lookup key ((other, value) ∷ rest) = if other == key then some value else lookup key rest

  -- `m[key] = value`
  unfoldable pub insert : Text → V → Map V → Map V
  unfolding text_discrete
  insert key value [] = (key, value) ∷ []
  insert key value ((other, old) ∷ rest) =
      if other == key then (key, value) ∷ rest else (other, old) ∷ insert key value rest

  pub lookup-head :
      (k name : Text) (v : V) (rest : Map V)
      → lookup name ((k, v) ∷ rest) ≡ (if k == name then some v else lookup name rest)
  unfolding lookup
  lookup-head k name v rest = refl

  pub lookup-nil : (name : Text) → lookup name [] ≡ none
  unfolding lookup
  lookup-nil name = refl

  pub lookup-insert :
      (k j : Text) (v : V) (m : Map V)
      → lookup j (insert k v m) ≡ (if k == j then some v else lookup j m)
  unfolding lookup insert
  lookup-insert k j v [] = ground arith
  lookup-insert k j v ((i, w) ∷ m) = ground (arith, lookup-insert k j v m)

  -- A new key is added at the end.
  pub insert_new :
      (k : Text) (v : V) (m : Map V) → lookup k m ≡ none → insert k v m ≡ m ++ (k, v) ∷ []
  unfolding lookup insert
  insert_new k v [] h = refl
  insert_new k v ((i, w) ∷ m) h = ground (arith, insert_new k v m)
