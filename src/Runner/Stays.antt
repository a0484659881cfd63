-- ===== src/Runner/Stays.antt =====
-- A run of a compiled graph stays on its nodes: execute (runner_execution.go) after Compile
-- (builder.go).
use flowy.Prelude.{
  ℕ, zero, suc, ◌≡◌, ◌⊎◌, inl, inr, refl, Bool, true, false, List, Option, none, some, arith, ◌==◌,
  leb_ℤ, ltb_ℤ, ℤ, pos, if◌then◌else◌, subst, apart_of_==,
}
use flowy.Base.{
  Text, text_eq, lookup, Err, retry_attempts_invalid, retry_budget_exceeded, max_steps_exceeded,
  Result, ok, err,
}
use flowy.Graph.{Directive, GraphBuilder, Graph, end_node, BuildOption}
use flowy.Graph.Compile.{compile, compiled}
use flowy.Graph.Routing.{resolve_edge, validate_execution_pointer}
use flowy.Graph.Sound.{resolved_known, entry_and_fallbacks_valid}
use flowy.Runner.{
  Position, Observed, clear, handoff_requested, lease_gone, done, Round, Ending, Outcome, Stepped,
  stepped, step_failed, emit_canceled, Next, go_on, ended, failing, count_of, check_budget_limits,
  fail_reason, resume_pointer,
}
use flowy.Runner.Loop.{
  retried, run_node_step, completed_to, fallback_to, retry_within, suspend_at, apply_directive,
  with_lease, budgeted, on_failure, after_emit, on_step, after_node, step_limit, admit_round,
  execute_round, execute,
}
use flowy.Runner.Terminates.{Next-cases}
use flowy.Runner.Known.{IsNode, IsSound, IsOn, IsKnown, dispatched-IsOn}

pub some-injective : {A : Type 0} (a b : A) → some a ≡ some b → a ≡ b
some-injective a b h = cc

module _ {T E : Type 0} (g : Graph T E) where
  if-IsKnown :
      (test : Bool) (m n : Next T E) → IsKnown g m → IsKnown g n → IsKnown g (if test then m else n)
  if-IsKnown true m n h k = h
  if-IsKnown false m n h k = k

  suspend_at-IsKnown :
      (p : Position T E) (pointer reason : Text) (r : Result (Unit {0}))
      → validate_execution_pointer g pointer ≡ r
      → IsNode g p.current
      → IsKnown g (suspend_at g p pointer reason r)
  suspend_at-IsKnown p pointer reason (ok _) e h = (h, e)
  suspend_at-IsKnown p pointer reason (err _) e h = (h, tt)

  module _
      (edges : (current : Text) (state : T) (next : Text)
        → resolve_edge g current state ≡ ok next
        → (next ≡ end_node) ⊎ IsNode g next)
      (fallbacks : (from fallback : Text)
        → lookup from g.retry_routes ≡ some fallback
        → IsNode g fallback) where
    to-IsKnown :
        (p : Position T E) (next : Text) (last : Bool)
        → (next == end_node) ≡ last
        → (next ≡ end_node) ⊎ IsNode g next
        → IsNode g p.current
        → IsKnown g
            (if last then ended p Ending.run_completed else go_on (record p { current = next }))
    to-IsKnown p next true e known h = (h, tt)
    to-IsKnown p next false e (inr node) h = node
    to-IsKnown p next false e (inl is) h =
        let apart : (end_node == end_node) ≡ false = subst (λ x. (x == end_node) ≡ false) is e in
        absurd (apart_of_== end_node end_node apart refl)

    completed_to-IsKnown :
        (p : Position T E) (r : Result Text)
        → resolve_edge g p.current p.state ≡ r
        → IsNode g p.current
        → IsKnown g (completed_to g p r)
    completed_to-IsKnown p (err e) is h = (h, tt)
    completed_to-IsKnown p (ok next) is h =
        to-IsKnown p next (next == end_node) refl (edges p.current p.state next is) h

    fallback_to-IsKnown :
        (p : Position T E) (o : Option Text)
        → lookup p.current g.retry_routes ≡ o
        → IsNode g p.current
        → IsKnown g (fallback_to g p o)
    fallback_to-IsKnown p none is h = (h, tt)
    fallback_to-IsKnown p (some fallback) is h = fallbacks p.current fallback is

    retry_within-IsKnown :
        (p : Position T E) (attempts : ℤ)
        → IsNode g p.current
        → IsKnown g (retry_within g p attempts)
    retry_within-IsKnown p attempts h =
        if-IsKnown (ltb_ℤ attempts (count_of p.current p.meta.retry_counts))
          (failing p retry_budget_exceeded) (fallback_to g p (lookup p.current g.retry_routes))
          (h, tt) (fallback_to-IsKnown p (lookup p.current g.retry_routes) refl h)

    apply_directive-IsKnown :
        (p : Position T E) (base : Directive E)
        → IsNode g p.current
        → IsKnown g (apply_directive g p base)
    unfolding apply_directive
    apply_directive-IsKnown p Directive.completed h =
        completed_to-IsKnown p (resolve_edge g p.current p.state) refl h
    apply_directive-IsKnown p (Directive.suspend reason resume_at) h =
        suspend_at-IsKnown p (resume_pointer p.current resume_at) reason
          (validate_execution_pointer g (resume_pointer p.current resume_at)) refl h
    apply_directive-IsKnown p (Directive.retry attempts) h =
        if-IsKnown (leb_ℤ attempts (pos 0)) (failing p retry_attempts_invalid)
          (retry_within g (record p { meta = retried p.current p.meta }) attempts) (h, tt)
          (retry_within-IsKnown (record p { meta = retried p.current p.meta }) attempts h)
    apply_directive-IsKnown p Directive.zero h = (h, tt)
    apply_directive-IsKnown p Directive.end h = (h, tt)
    apply_directive-IsKnown p Directive.next h = (h, tt)
    apply_directive-IsKnown p (Directive.handoff reason resume_at) h = (h, tt)
    apply_directive-IsKnown p (Directive.fail reason) h = (h, tt)
    apply_directive-IsKnown p (Directive.await spec) h = (h, tt)
    apply_directive-IsKnown p (Directive.effect base payload) h = (h, tt)

    with_lease-IsKnown :
        (p : Position T E) (base : Directive E) (o : Observed)
        → IsNode g p.current
        → IsKnown g (with_lease g p base o)
    with_lease-IsKnown p base lease_gone h = (h, tt)
    with_lease-IsKnown p base clear h = apply_directive-IsKnown p base h
    with_lease-IsKnown p base handoff_requested h = apply_directive-IsKnown p base h
    with_lease-IsKnown p base done h = apply_directive-IsKnown p base h

    budgeted-IsKnown :
        (round : Round) (p : Position T E) (base : Directive E) (r : Result (Unit {0}))
        → IsNode g p.current
        → IsKnown g (budgeted g round p base r)
    budgeted-IsKnown round p base (err e) h = (h, tt)
    budgeted-IsKnown round p base (ok _) h = with_lease-IsKnown p base round.after_budget h

    module _ (interrupted : Err → Bool) where
      on_failure-IsKnown :
          (p : Position T E) (e : Err) (o : Observed)
          → IsNode g p.current
          → IsKnown g (on_failure g interrupted p e o)
      on_failure-IsKnown p e lease_gone h = (h, tt)
      on_failure-IsKnown p e clear h = (h, tt)
      on_failure-IsKnown p e handoff_requested h =
          if-IsKnown (interrupted e) (ended p Ending.handoff_due)
            (ended p (Ending.run_failed (fail_reason e) e)) (h, tt) (h, tt)
      on_failure-IsKnown p e done h =
          if-IsKnown (interrupted e) (ended p Ending.canceled_due)
            (ended p (Ending.run_failed (fail_reason e) e)) (h, tt) (h, tt)

      after_emit-IsKnown :
          (p : Position T E) (o : Observed)
          → IsNode g p.current
          → IsKnown g (after_emit g interrupted p o)
      after_emit-IsKnown p handoff_requested h = (h, tt)
      after_emit-IsKnown p lease_gone h = (h, tt)
      after_emit-IsKnown p clear h = (h, tt)
      after_emit-IsKnown p done h = (h, tt)

      on_step-IsKnown :
          (round : Round) (p : Position T E) (base : Directive E) (o : Observed)
          → IsNode g p.current
          → IsKnown g (on_step g interrupted round p base o)
      on_step-IsKnown round p base clear h =
          budgeted-IsKnown round p base (check_budget_limits p.meta g.defaults.budget_limits) h
      on_step-IsKnown round p base handoff_requested h = (h, tt)
      on_step-IsKnown round p base lease_gone h = (h, tt)
      on_step-IsKnown round p base done h = (h, tt)

      after_node-IsKnown :
          (round : Round) (s : Stepped T E)
          → IsOn g s
          → IsKnown g (after_node g interrupted round s)
      after_node-IsKnown round (step_failed p e) h = on_failure-IsKnown p e round.after_step h
      after_node-IsKnown round (emit_canceled p) h = after_emit-IsKnown p round.after_step h
      after_node-IsKnown round (stepped p base) h = on_step-IsKnown round p base round.after_step h

      admit_round-IsKnown :
          (validator : Option (T → Result (Unit {0}))) (round : Round) (p : Position T E)
          (o : Observed)
          → IsNode g p.current
          → IsKnown g (admit_round g interrupted validator round p o)
      unfolding run_node_step
      admit_round-IsKnown validator round p handoff_requested h = (h, tt)
      admit_round-IsKnown validator round p lease_gone h = (h, tt)
      admit_round-IsKnown validator round p done h = (h, tt)
      admit_round-IsKnown validator round p clear h =
          if-IsKnown (leb_ℤ (step_limit g) p.meta.step_count) (failing p max_steps_exceeded)
            (after_node g interrupted round (run_node_step g validator round p)) (h, tt)
            (after_node-IsKnown round (run_node_step g validator round p)
              (dispatched-IsOn g validator round p (lookup p.current g.nodes) h))

      execute-IsKnown :
          (fuel : ℕ) (validator : Option (T → Result (Unit {0}))) (rounds : ℕ → Round) (i : ℕ)
          (p : Position T E) (o : Outcome T E)
          → IsNode g p.current
          → execute g interrupted fuel validator rounds i p ≡ some o
          → IsNode g o.position.current × IsSound g o.ending
      unfolding execute execute_round
      execute-IsKnown zero validator rounds i p o h ran = absurd (cc)
      execute-IsKnown (suc fuel) validator rounds i p o h ran =
          let here = admit_round-IsKnown validator (rounds i) p (rounds i).on_entry h in
          elim (Next-cases (execute_round g interrupted validator (rounds i) p)) [
            | inl (q, ending, e) ↦
                let is : record { position = q; ending = ending } ≡ o =
                  some-injective _ o (ground (arith, e, ran)) in
                subst (λ x. IsNode g x.position.current × IsSound g x.ending) is
                  (subst (IsKnown g) e here)
            | inr (q, e) ↦
                execute-IsKnown fuel validator rounds (suc i) q o (subst (IsKnown g) e here)
                  (ground (arith, e, ran))
          ]

-- A run of a compiled graph that starts at one of its nodes and ends, ends at one of its nodes; and
-- if it ends by a suspension, then the resume pointer is one of its nodes too.
pub run_known :
    {T E : Type 0} (quote : Text → Text) (b : GraphBuilder T E) (opts : List BuildOption)
    (g : Graph T E) (interrupted : Err → Bool) (fuel : ℕ)
    (validator : Option (T → Result (Unit {0}))) (rounds : ℕ → Round) (i : ℕ) (p : Position T E)
    (o : Outcome T E)
    → compile quote b opts ≡ compiled g
    → IsNode g p.current
    → execute g interrupted fuel validator rounds i p ≡ some o
    → IsNode g o.position.current × IsSound g o.ending
run_known quote b opts g interrupted fuel validator rounds i p o made start ran =
    execute-IsKnown g (λ current state next. resolved_known quote b opts g current state next made)
      (entry_and_fallbacks_valid quote b opts g made).1 interrupted fuel validator rounds i p o
      start ran
