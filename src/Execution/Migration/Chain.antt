-- ===== src/Execution/Migration/Chain.antt =====
-- The chain of a migration: it is found in finitely many rounds, and it is a path.
use flowy.Prelude.{
  ℕ, zero, suc, ◌+◌, ◌≤◌, ◌<◌, ◌≡◌, ◌≢◌, refl, true, false, List, [], ◌∷◌, Option, none, some, ◌==◌,
  eq_of_==, ==-refl, ==-false, apart_of_==, if◌then◌else◌, arith, Bool-cases, Option-cases, inl,
  inr, ap, sym, ◌∙◌, subst,
}
use flowy.Base.{length, Result, ok, err, migration_invalid, migration_missing}
use flowy.Execution.Types.{Descriptor, descriptor_eq}
use flowy.Execution.Migration.{Migration, edge_from, visited, follow, prepend, map_some}

-- The edges whose source has not been visited.
pub open_edges : List Migration → List Descriptor → ℕ
open_edges [] seen = 0
open_edges (m ∷ rest) seen = (if visited seen m.source then 0 else 1) + open_edges rest seen

pub open-le-length :
    (edges : List Migration) (seen : List Descriptor) → open_edges edges seen ≤ length edges
unfolding open_edges
open-le-length [] seen = omega arith
open-le-length (m ∷ rest) seen = ground (arith, open-le-length rest seen)

open_edges-visit :
    (edges : List Migration) (seen : List Descriptor) (d : Descriptor)
    → open_edges edges (d ∷ seen) ≤ open_edges edges seen
unfolding open_edges visited
open_edges-visit [] seen d = omega arith
open_edges-visit (m ∷ rest) seen d = ground (arith, open_edges-visit rest seen d)

-- Following an edge from a new source leaves fewer.
open_edges-step :
    (edges : List Migration) (seen : List Descriptor) (d : Descriptor) (m : Migration)
    → edge_from edges d ≡ some m
    → visited seen d ≡ false
    → open_edges edges (d ∷ seen) < open_edges edges seen
unfolding open_edges visited edge_from
open_edges-step [] seen d m e new = absurd (cc)
open_edges-step (x ∷ rest) seen d m e new = elim (Bool-cases (x.source == d)) [
  | inl same ↦
      let at : x.source ≡ d = eq_of_== x.source d same in
      let here : visited seen x.source ≡ false = subst (λ s. visited seen s ≡ false) (sym at) new in
      ground (arith, open_edges-visit rest seen d, ==-refl d)
  | inr other ↦ ground (arith, open_edges-step rest seen d m, ==-refl d)
]

pub follow_total :
    (fuel : ℕ) (edges : List Migration) (source target : Descriptor) (seen : List Descriptor)
    → open_edges edges seen < fuel
    → (r : Result (List Migration)) × (follow fuel edges source target seen ≡ some r)
unfolding follow
follow_total zero edges source target seen h = absurd (omega arith)
follow_total (suc fuel) edges source target seen h = elim (Bool-cases (source == target)) [
  | inl there ↦ (ok [], ground (arith, there))
  | inr far ↦ elim (Bool-cases (visited seen source)) [
    | inl again ↦ (err migration_invalid, ground (arith, far, again))
    | inr new ↦ elim (Option-cases (edge_from edges source)) [
      | inl e ↦ (err migration_missing, ground (arith, far, new, e))
      | inr (m, e) ↦
          let fewer = open_edges-step edges seen source m e new in
          let (r, found) = follow_total fuel edges m.target target (source ∷ seen) (omega arith) in
          (prepend m r, ground (arith, far, new, e, found))
    ]
  ]
]

-- The edges that lead from one descriptor to another, through no descriptor twice.
abbrev pub IsRoute :
    List Migration → Descriptor → Descriptor → List Descriptor → List Migration → Type 0
IsRoute edges source target seen [] = source ≡ target
IsRoute edges source target seen (m ∷ rest) =
    (source ≢ target)
    × (visited seen source ≡ false)
    × (edge_from edges source ≡ some m)
    × IsRoute edges m.target target (source ∷ seen) rest

pub map_some-eq-some {ℓ κ} :
    {A : Type ℓ} {B : Type κ} (f : A → B) (o : Option A) (b : B)
    → map_some f o ≡ some b
    → (a : A) × (o ≡ some a) × (f a ≡ b)
map_some-eq-some f none b h = cc
map_some-eq-some f (some a) b h = (a, refl, cc)

prepend-eq-ok {ℓ} :
    {A : Type ℓ} (a : A) (r : Result (List A)) (chain : List A)
    → prepend a r ≡ ok chain
    → (rest : List A) × (r ≡ ok rest) × (a ∷ rest ≡ chain)
prepend-eq-ok a (ok rest) chain h = (rest, refl, ground (arith, h))
prepend-eq-ok a (err e) chain h = cc

pub follow-IsRoute :
    (fuel : ℕ) (edges : List Migration) (source target : Descriptor) (seen : List Descriptor)
    (chain : List Migration)
    → follow fuel edges source target seen ≡ some (ok chain)
    → IsRoute edges source target seen chain
unfolding follow
follow-IsRoute zero edges source target seen chain h = cc
follow-IsRoute (suc fuel) edges source target seen chain h = elim (Bool-cases (source == target)) [
  | inl there ↦
      let nothing : [] ≡ chain = ground (arith, h, there) in
      subst (IsRoute edges source target seen) nothing (eq_of_== source target there)
  | inr far ↦ elim (Bool-cases (visited seen source)) [
    | inl again ↦ let bad : false ≡ true = ground (arith, h, far, again) in cc
    | inr new ↦ elim (Option-cases (edge_from edges source)) [
      | inl e ↦ let bad : false ≡ true = ground (arith, h, far, new, e) in cc
      | inr (m, e) ↦
          let step : map_some (prepend m) (follow fuel edges m.target target (source ∷ seen))
              ≡ some (ok chain) =
            ground (arith, h, far, new, e) in
          let (r, walked, made) = map_some-eq-some (prepend m) _ (ok chain) step in
          let (rest, fine, whole) = prepend-eq-ok m r chain made in
          let ih =
            follow-IsRoute fuel edges m.target target (source ∷ seen) rest
              (walked ∙ ap some fine) in
          subst (IsRoute edges source target seen) whole (apart_of_== source target far, new, e, ih)
    ]
  ]
]

-- A route is found, with fuel beyond its length.
pub route-follow :
    (fuel : ℕ) (edges : List Migration) (source target : Descriptor) (seen : List Descriptor)
    (chain : List Migration)
    → length chain < fuel
    → IsRoute edges source target seen chain
    → follow fuel edges source target seen ≡ some (ok chain)
unfolding follow
route-follow zero edges source target seen chain lt h = absurd (omega arith)
route-follow (suc fuel) edges source target seen [] lt h =
    let there : source == target ≡ true = subst (λ d. source == d ≡ true) h (==-refl source) in
    ground (arith, there)
route-follow (suc fuel) edges source target seen (m ∷ rest) lt (apart, new, e, route) =
    let far : source == target ≡ false = ==-false source target apart in
    let on = route-follow fuel edges m.target target (source ∷ seen) rest (omega arith) route in
    ground (arith, far, new, e, on)

-- A route is no longer than its edges that are not yet visited.
pub route_length :
    (edges : List Migration) (source target : Descriptor) (seen : List Descriptor)
    (chain : List Migration)
    → IsRoute edges source target seen chain
    → length chain ≤ open_edges edges seen
route_length edges source target seen [] h = omega arith
route_length edges source target seen (m ∷ rest) (apart, new, e, route) =
    let on = route_length edges m.target target (source ∷ seen) rest route in
    let fewer = open_edges-step edges seen source m e new in omega arith
