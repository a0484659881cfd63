-- ===== src/Runner/Terminates.antt =====
-- The loop of execute (runner_execution.go) ends, since each round spends one call of the limit.
use flowy.Prelude.{
  ℕ, zero, suc, ◌+◌, ◌≤◌, ◌<◌, ◌≡◌, ◌⊎◌, inl, inr, refl, Bool, true, false, Option, some, arith, ℤ,
  pos, negsuc, i64, i64_half, leb_ℤ, ◌≤ℤ◌, pos_part, neg_part, if◌then◌else◌, subst, sym,
}
use flowy.Base.{Err, max_steps_exceeded, Result}
use flowy.Activity.Schedule.Delay.{i64-pos}
use flowy.Graph.{Graph}
use flowy.Runner.{
  Position, Observed, clear, handoff_requested, lease_gone, done, Round, Ending, Outcome, Next,
  go_on, ended, failing,
}
use flowy.Runner.Loop.{
  after_node, run_node_step, step_limit, admit_round, execute_round, execute, room,
}
use flowy.Runner.Bounded.{after_call, IsNext, after_node-IsNext, run_node_step-IsCounted}

-- A value of Go's `int`.
abbrev pub IsInt : ℤ → Type 0
IsInt n = (pos_part n < i64_half) × (neg_part n ≤ i64_half)

i64-negsuc : (n : ℕ) → n < i64_half → i64 (negsuc n) ≡ negsuc n
unfolding i64
i64-negsuc n h = ground arith

after_call-pos : (n : ℕ) → n + 1 < i64_half → after_call (pos n) ≡ pos (n + 1)
after_call-pos n h = ground (arith, i64-pos (n + 1) h)

after_call-negsuc : (n : ℕ) → n < i64_half → after_call (negsuc (suc n)) ≡ negsuc n
after_call-negsuc n h = ground (arith, i64-negsuc n h)

-- A call below the limit is counted without wrapping around.
pub record Admitted (limit count : ℤ) : Type 0 where
  pub is_int : IsInt (after_call count)
  pub within : after_call count ≤ℤ limit
  pub fewer : room limit (after_call count) < room limit count

after_call-Admitted :
    (limit count : ℤ) → IsInt limit → IsInt count → leb_ℤ limit count ≡ false → Admitted limit count
unfolding room
after_call-Admitted limit (pos n) l c h =
    let small : n + 1 < i64_half = ground arith in
    let e = after_call-pos n small in
    record {
      is_int = subst IsInt (sym e) (omega arith, omega arith);
      within = subst (λ m. m ≤ℤ limit) (sym e) (ground arith);
      fewer = subst (λ m. room limit m < room limit (pos n)) (sym e) (ground arith);
    }
after_call-Admitted limit (negsuc zero) l c h =
    let e : after_call (negsuc zero) ≡ pos 0 = ground (arith, i64-pos 0) in
    record {
      is_int = subst IsInt (sym e) (omega arith, omega arith);
      within = subst (λ m. m ≤ℤ limit) (sym e) (ground arith);
      fewer = subst (λ m. room limit m < room limit (negsuc zero)) (sym e) (ground arith);
    }
after_call-Admitted limit (negsuc (suc n)) l c h =
    let e = after_call-negsuc n (omega arith) in
    record {
      is_int = subst IsInt (sym e) (omega arith, omega arith);
      within = subst (λ m. m ≤ℤ limit) (sym e) (ground arith);
      fewer = subst (λ m. room limit m < room limit (negsuc (suc n))) (sym e) (ground arith);
    }

-- A round goes on only below the limit, and counts one call of a handler if it does.
IsWithin : {T E : Type 0} → ℤ → ℤ → Next T E → Type 0
IsWithin limit count (go_on p) =
    (leb_ℤ limit count ≡ false) × (p.meta.step_count ≡ after_call count)
IsWithin limit count (ended p ending) =
    (p.meta.step_count ≡ count)
    ⊎ ((leb_ℤ limit count ≡ false) × (p.meta.step_count ≡ after_call count))

pub Next-cases :
    {T E : Type 0} (n : Next T E)
    → ((q : Position T E) × (ending : Ending) × (n ≡ ended q ending))
      ⊎ ((q : Position T E) × (n ≡ go_on q))
Next-cases (ended q ending) = inl (q, ending, refl)
Next-cases (go_on q) = inr (q, refl)

module _ {T E : Type 0} (g : Graph T E) (interrupted : Err → Bool) where
  below-IsWithin :
      (limit count : ℤ) (n : Next T E)
      → leb_ℤ limit count ≡ false
      → IsNext count n
      → IsWithin limit count n
  unfolding IsWithin
  below-IsWithin limit count (go_on p) below h = (below, h)
  below-IsWithin limit count (ended p ending) below (inl same) = inl same
  below-IsWithin limit count (ended p ending) below (inr more) = inr (below, more)

  limited-IsWithin :
      (validator : Option (T → Result (Unit {0}))) (round : Round) (p : Position T E) (over : Bool)
      → leb_ℤ (step_limit g) p.meta.step_count ≡ over
      → IsWithin (step_limit g) p.meta.step_count (
          if over
          then failing p max_steps_exceeded
          else after_node g interrupted round (run_node_step g validator round p))
  unfolding IsWithin
  limited-IsWithin validator round p true h = inl refl
  limited-IsWithin validator round p false h =
      below-IsWithin (step_limit g) p.meta.step_count
        (after_node g interrupted round (run_node_step g validator round p)) h
        (after_node-IsNext g p.meta.step_count interrupted round (run_node_step g validator round p)
          (run_node_step-IsCounted g p.meta.step_count validator round p refl))

  admit_round-IsWithin :
      (validator : Option (T → Result (Unit {0}))) (round : Round) (p : Position T E) (o : Observed)
      → IsWithin (step_limit g) p.meta.step_count (admit_round g interrupted validator round p o)
  unfolding IsWithin
  admit_round-IsWithin validator round p handoff_requested = inl refl
  admit_round-IsWithin validator round p lease_gone = inl refl
  admit_round-IsWithin validator round p done = inl refl
  admit_round-IsWithin validator round p clear =
      limited-IsWithin validator round p (leb_ℤ (step_limit g) p.meta.step_count) refl

  execute_round-IsWithin :
      (validator : Option (T → Result (Unit {0}))) (round : Round) (p : Position T E) (n : Next T E)
      → execute_round g interrupted validator round p ≡ n
      → IsWithin (step_limit g) p.meta.step_count n
  unfolding execute_round
  execute_round-IsWithin validator round p n e =
      subst (IsWithin (step_limit g) p.meta.step_count) e
        (admit_round-IsWithin validator round p round.on_entry)

  ended_within :
      (p q : Position T E) (ending : Ending)
      → IsInt (step_limit g)
      → IsInt p.meta.step_count
      → p.meta.step_count ≤ℤ step_limit g
      → IsWithin (step_limit g) p.meta.step_count (ended q ending)
      → q.meta.step_count ≤ℤ step_limit g
  unfolding IsWithin
  ended_within p q ending l c le (inl same) = subst (λ m. m ≤ℤ step_limit g) (sym same) le
  ended_within p q ending l c le (inr (below, more)) =
      let a = after_call-Admitted (step_limit g) p.meta.step_count l c below in
      subst (λ m. m ≤ℤ step_limit g) (sym more) a.within

  -- Whatever its nodes, routers, validator, sink and context return, a run that starts with a count
  -- of calls within the limit, both values of an int, ends, after at most one round more than the
  -- calls that the limit still admits; and the count of calls at its end is within the limit.
  pub execute_bounded :
      (fuel : ℕ) (validator : Option (T → Result (Unit {0}))) (rounds : ℕ → Round) (i : ℕ)
      (p : Position T E)
      → IsInt (step_limit g)
      → IsInt p.meta.step_count
      → p.meta.step_count ≤ℤ step_limit g
      → room (step_limit g) p.meta.step_count < fuel
      → (o : Outcome T E) × (execute g interrupted fuel validator rounds i p ≡ some o)
        × (o.position.meta.step_count ≤ℤ step_limit g)
  unfolding execute IsWithin
  execute_bounded zero validator rounds i p l c le h = absurd (omega arith)
  execute_bounded (suc fuel) validator rounds i p l c le h =
      elim (Next-cases (execute_round g interrupted validator (rounds i) p)) [
        | inl (q, ending, e) ↦ (
          record { position = q; ending = ending },
          ground (arith, e),
          ended_within p q ending l c le
              (execute_round-IsWithin validator (rounds i) p (ended q ending) e),
        )
        | inr (q, e) ↦
            let (below, more) = execute_round-IsWithin validator (rounds i) p (go_on q) e in
            let a = after_call-Admitted (step_limit g) p.meta.step_count l c below in
            let less : room (step_limit g) (after_call p.meta.step_count) < fuel =
              omega (arith, a.fewer, h) in
            let (o, ran, within) =
              execute_bounded fuel validator rounds (suc i) q l (subst IsInt (sym more) a.is_int)
                (subst (λ m. m ≤ℤ step_limit g) (sym more) a.within)
                (subst (λ m. room (step_limit g) m < fuel) (sym more) less) in
            (o, ground (arith, e, ran), within)
      ]
