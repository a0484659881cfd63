-- ===== src/Runner/Effects.antt =====
-- The effects of a directive (UnwrapDirective of flowy.go, WithEffects of effects.go).
use flowy.Prelude.{sym, ap, ◌∙◌, ◌≡◌, refl, List, [], ◌∷◌, ◌++◌, none, some}
use mathlib.Core.List.{append-nil, append_assoc, reverse-cons}
use flowy.Base.{Result, ok, err, ◌>>=◌}
use flowy.Graph.{Directive}
use flowy.Runner.{collect_effects, reversed, unwrap_directive}

-- WithEffects: Effect, called for each payload in order.
abbrev pub with_effects : {E : Type 0} → Directive E → List E → Directive E
with_effects base [] = base
with_effects base (payload ∷ rest) = with_effects (Directive.effect base (some payload)) rest

-- After the effects that were found before.
abbrev after_found : {E : Type 0} → List E → Directive E × List E → Result (Directive E × List E)
after_found found (base, effects) = ok (base, found ++ effects)

after_both :
    {E : Type 0} (r : Result (Directive E × List E)) (found more : List E)
    → (r >>= after_found (found ++ more)) ≡ ((r >>= after_found more) >>= after_found found)
after_both (ok (base, effects)) found more =
    ap (λ es. ok (base, es)) (append_assoc found more effects)
after_both (err e) found more = refl

collect_from :
    {E : Type 0} (d : Directive E) (found : List E)
    → collect_effects d found ≡ (collect_effects d [] >>= after_found found)
unfolding collect_effects
collect_from Directive.zero found = refl
collect_from (Directive.effect base none) found = refl
collect_from (Directive.effect base (some payload)) found =
    collect_from base (found ++ payload ∷ [])
    ∙ after_both (collect_effects base []) found (payload ∷ [])
    ∙ ap (λ r. r >>= after_found found) (sym (collect_from base (payload ∷ [])))
collect_from Directive.completed found =
    ap (λ es. ok (Directive.completed, es)) (sym (append-nil found))
collect_from Directive.end found = ap (λ es. ok (Directive.end, es)) (sym (append-nil found))
collect_from Directive.next found = ap (λ es. ok (Directive.next, es)) (sym (append-nil found))
collect_from (Directive.suspend reason resume_at) found =
    ap (λ es. ok (Directive.suspend reason resume_at, es)) (sym (append-nil found))
collect_from (Directive.handoff reason resume_at) found =
    ap (λ es. ok (Directive.handoff reason resume_at, es)) (sym (append-nil found))
collect_from (Directive.fail reason) found =
    ap (λ es. ok (Directive.fail reason, es)) (sym (append-nil found))
collect_from (Directive.await spec) found =
    ap (λ es. ok (Directive.await spec, es)) (sym (append-nil found))
collect_from (Directive.retry attempts) found =
    ap (λ es. ok (Directive.retry attempts, es)) (sym (append-nil found))

abbrev after_last : {E : Type 0} → E → Directive E × List E → Result (Directive E × List E)
after_last payload (base, effects) = ok (base, effects ++ payload ∷ [])

-- An effect that is found before the others comes last.
reversed_after :
    {E : Type 0} (r : Result (Directive E × List E)) (payload : E) (base : Directive E)
    (before : List E)
    → (r >>= reversed) ≡ ok (base, before)
    → ((r >>= after_found (payload ∷ [])) >>= reversed) ≡ ok (base, before ++ payload ∷ [])
reversed_after (ok (d, effects)) payload base before h =
    ap (λ es. ok (d, es)) (reverse-cons payload effects) ∙ ap (λ q. q >>= after_last payload) h
reversed_after (err e) payload base before h = cc

unwrap-effect :
    {E : Type 0} (d base : Directive E) (payload : E) (before : List E)
    → unwrap_directive d ≡ ok (base, before)
    → unwrap_directive (Directive.effect d (some payload)) ≡ ok (base, before ++ payload ∷ [])
unfolding unwrap_directive collect_effects
unwrap-effect d base payload before h =
    ap (λ r. r >>= reversed) (collect_from d (payload ∷ []))
    ∙ reversed_after (collect_effects d []) payload base before h

-- Effects attached one after another are collected in the order in which they were attached, after
-- those that the base had, and the base is found again.
pub unwrap-with_effects :
    {E : Type 0} (d base : Directive E) (before payloads : List E)
    → unwrap_directive d ≡ ok (base, before)
    → unwrap_directive (with_effects d payloads) ≡ ok (base, before ++ payloads)
unwrap-with_effects d base before [] h = h ∙ ap (λ es. ok (base, es)) (sym (append-nil before))
unwrap-with_effects d base before (payload ∷ rest) h =
    unwrap-with_effects (Directive.effect d (some payload)) base (before ++ payload ∷ []) rest
      (unwrap-effect d base payload before h)
    ∙ ap (λ es. ok (base, es)) (append_assoc before (payload ∷ []) rest)
