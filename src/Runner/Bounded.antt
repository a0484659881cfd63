-- ===== src/Runner/Bounded.antt =====
-- The loop of execute (runner_execution.go) ends within its step limit.
use flowy.Prelude.{
  ◌≡◌, ◌⊎◌, inl, inr, Bool, true, false, List, ◌++◌, Option, none, some, ◌==◌, ℤ, pos, ◌+ℤ◌, i64,
  leb_ℤ, ltb_ℤ, if◌then◌else◌, ap,
}
use flowy.Base.{
  Text, text_eq, Map, lookup, Err, retry_attempts_invalid, retry_budget_exceeded,
  max_steps_exceeded, Result, ok, err,
}
use flowy.Graph.{Directive, Node, Graph, end_node}
use flowy.Graph.Routing.{resolve_edge, validate_execution_pointer}
use flowy.Runner.{
  Position, Observed, clear, handoff_requested, lease_gone, done, Round, Ending, Stepped, stepped,
  step_failed, emit_canceled, Next, go_on, ended, failing, unwrap_directive, count_of,
  check_budget_limits, fail_reason, resume_pointer,
}
use flowy.Runner.Loop.{
  counted, retried, reduce, unwrapped, checked_state, holds, handled, answered, called, started,
  dispatched, run_node_step, completed_to, fallback_to, retry_within, retry_from, suspend_at,
  apply_directive, with_lease, budgeted, on_failure, after_emit, on_step, after_node, step_limit,
  admit_round,
}

abbrev pub after_call : ℤ → ℤ
after_call count = i64 (count +ℤ pos 1)

abbrev pub Counts : ℤ → ℤ → Type 0
Counts count now = (now ≡ count) ⊎ (now ≡ after_call count)

-- A step counts a handler's call once, before it ends or not at all.
abbrev pub IsCounted : {T E : Type 0} → ℤ → Stepped T E → Type 0
IsCounted count (stepped p base) = p.meta.step_count ≡ after_call count
IsCounted count (step_failed p e) = Counts count p.meta.step_count
IsCounted count (emit_canceled p) = Counts count p.meta.step_count

abbrev pub IsNext : {T E : Type 0} → ℤ → Next T E → Type 0
IsNext count (go_on p) = p.meta.step_count ≡ after_call count
IsNext count (ended p ending) = Counts count p.meta.step_count

module _ {T E : Type 0} (g : Graph T E) (count : ℤ) where
  if-IsCounted :
      (test : Bool) (s t : Stepped T E)
      → IsCounted count s
      → IsCounted count t
      → IsCounted count (if test then s else t)
  if-IsCounted true s t h k = h
  if-IsCounted false s t h k = k

  if-IsNext :
      (test : Bool) (m n : Next T E)
      → IsNext count m
      → IsNext count n
      → IsNext count (if test then m else n)
  if-IsNext true m n h k = h
  if-IsNext false m n h k = k

  unwrapped-IsCounted :
      (round : Round) (p : Position T E) (r : Result (Directive E × List E))
      → p.meta.step_count ≡ after_call count
      → IsCounted count (unwrapped g round p r)
  unwrapped-IsCounted round p (err e) h = inr h
  unwrapped-IsCounted round p (ok (base, effects)) h =
      if-IsCounted round.completed_taken
        (stepped (record p { effects = p.effects ++ effects }) base)
        (emit_canceled (record p { effects = p.effects ++ effects })) h (inr h)

  checked_state-IsCounted :
      (round : Round) (p : Position T E) (directive : Directive E) (r : Result (Unit {0}))
      → p.meta.step_count ≡ after_call count
      → IsCounted count (checked_state g round p directive r)
  checked_state-IsCounted round p directive (err e) h = inr h
  checked_state-IsCounted round p directive (ok _) h =
      unwrapped-IsCounted round p (unwrap_directive directive) h

  handled-IsCounted :
      (validator : Option (T → Result (Unit {0}))) (round : Round) (p : Position T E)
      (r : Result (T × Directive E))
      → p.meta.step_count ≡ after_call count
      → IsCounted count (handled g validator round p r)
  handled-IsCounted validator round p (err e) h = inr h
  handled-IsCounted validator round p (ok (update, directive)) h =
      checked_state-IsCounted round (record p { state = reduce g g.reducer p.state update })
        directive (holds g validator (reduce g g.reducer p.state update)) h

  answered-IsCounted :
      (validator : Option (T → Result (Unit {0}))) (round : Round) (p : Position T E)
      (r : Map ℤ × Result (T × Directive E))
      → p.meta.step_count ≡ after_call count
      → IsCounted count (answered g validator round p r)
  answered-IsCounted validator round p (counts, answer) h =
      handled-IsCounted validator round
        (record p { meta = record p.meta { budget_counts = counts } }) answer h

  started-IsCounted :
      (validator : Option (T → Result (Unit {0}))) (round : Round) (p : Position T E)
      (handler : Option (Node T E)) (taken : Bool)
      → p.meta.step_count ≡ count
      → IsCounted count (started g validator round p handler taken)
  unfolding counted
  started-IsCounted validator round p handler false h = inl h
  started-IsCounted validator round p handler true h =
      answered-IsCounted validator round (record p { meta = counted p.meta })
        (called g handler p.meta.budget_counts p.state) (ap after_call h)

  dispatched-IsCounted :
      (validator : Option (T → Result (Unit {0}))) (round : Round) (p : Position T E)
      (found : Option (Option (Node T E)))
      → p.meta.step_count ≡ count
      → IsCounted count (dispatched g validator round p found)
  dispatched-IsCounted validator round p none h = inl h
  dispatched-IsCounted validator round p (some handler) h =
      started-IsCounted validator round p handler round.started_taken h

  pub run_node_step-IsCounted :
      (validator : Option (T → Result (Unit {0}))) (round : Round) (p : Position T E)
      → p.meta.step_count ≡ count
      → IsCounted count (run_node_step g validator round p)
  unfolding run_node_step
  run_node_step-IsCounted validator round p h =
      dispatched-IsCounted validator round p (lookup p.current g.nodes) h

  completed_to-IsNext :
      (p : Position T E) (r : Result Text)
      → p.meta.step_count ≡ after_call count
      → IsNext count (completed_to g p r)
  completed_to-IsNext p (err e) h = inr h
  completed_to-IsNext p (ok next) h =
      if-IsNext (next == end_node) (ended p Ending.run_completed)
        (go_on (record p { current = next })) (inr h) h

  fallback_to-IsNext :
      (p : Position T E) (o : Option Text)
      → p.meta.step_count ≡ after_call count
      → IsNext count (fallback_to g p o)
  fallback_to-IsNext p none h = inr h
  fallback_to-IsNext p (some fallback) h = h

  suspend_at-IsNext :
      (p : Position T E) (pointer reason : Text) (r : Result (Unit {0}))
      → p.meta.step_count ≡ after_call count
      → IsNext count (suspend_at g p pointer reason r)
  suspend_at-IsNext p pointer reason (ok _) h = inr h
  suspend_at-IsNext p pointer reason (err e) h = inr h

  retry_within-IsNext :
      (p : Position T E) (attempts : ℤ)
      → p.meta.step_count ≡ after_call count
      → IsNext count (retry_within g p attempts)
  retry_within-IsNext p attempts h =
      if-IsNext (ltb_ℤ attempts (count_of p.current p.meta.retry_counts))
        (failing p retry_budget_exceeded) (fallback_to g p (lookup p.current g.retry_routes))
        (inr h) (fallback_to-IsNext p (lookup p.current g.retry_routes) h)

  retry_from-IsNext :
      (p : Position T E) (attempts : ℤ)
      → p.meta.step_count ≡ after_call count
      → IsNext count (retry_from g p attempts)
  retry_from-IsNext p attempts h =
      if-IsNext (leb_ℤ attempts (pos 0)) (failing p retry_attempts_invalid)
        (retry_within g (record p { meta = retried p.current p.meta }) attempts) (inr h)
        (retry_within-IsNext (record p { meta = retried p.current p.meta }) attempts h)

  apply_directive-IsNext :
      (p : Position T E) (base : Directive E)
      → p.meta.step_count ≡ after_call count
      → IsNext count (apply_directive g p base)
  unfolding apply_directive
  apply_directive-IsNext p Directive.zero h = inr h
  apply_directive-IsNext p Directive.completed h =
      completed_to-IsNext p (resolve_edge g p.current p.state) h
  apply_directive-IsNext p Directive.end h = inr h
  apply_directive-IsNext p Directive.next h = inr h
  apply_directive-IsNext p (Directive.suspend reason resume_at) h =
      suspend_at-IsNext p (resume_pointer p.current resume_at) reason
        (validate_execution_pointer g (resume_pointer p.current resume_at)) h
  apply_directive-IsNext p (Directive.handoff reason resume_at) h = inr h
  apply_directive-IsNext p (Directive.fail reason) h = inr h
  apply_directive-IsNext p (Directive.await spec) h = inr h
  apply_directive-IsNext p (Directive.retry attempts) h = retry_from-IsNext p attempts h
  apply_directive-IsNext p (Directive.effect base payload) h = inr h

  -- The lease is looked at once more before the directive.
  observed-IsNext :
      (p : Position T E) (base : Directive E) (o : Observed)
      → p.meta.step_count ≡ after_call count
      → IsNext count (with_lease g p base o)
  observed-IsNext p base lease_gone h = inr h
  observed-IsNext p base clear h = apply_directive-IsNext p base h
  observed-IsNext p base handoff_requested h = apply_directive-IsNext p base h
  observed-IsNext p base done h = apply_directive-IsNext p base h

  budgeted-IsNext :
      (round : Round) (p : Position T E) (base : Directive E) (r : Result (Unit {0}))
      → p.meta.step_count ≡ after_call count
      → IsNext count (budgeted g round p base r)
  budgeted-IsNext round p base (err e) h = inr h
  budgeted-IsNext round p base (ok _) h = observed-IsNext p base round.after_budget h

  module _ (interrupted : Err → Bool) where
    on_failure-IsNext :
        (p : Position T E) (e : Err) (o : Observed)
        → Counts count p.meta.step_count
        → IsNext count (on_failure g interrupted p e o)
    on_failure-IsNext p e lease_gone h = h
    on_failure-IsNext p e clear h = h
    on_failure-IsNext p e handoff_requested h =
        if-IsNext (interrupted e) (ended p Ending.handoff_due)
          (ended p (Ending.run_failed (fail_reason e) e)) h h
    on_failure-IsNext p e done h =
        if-IsNext (interrupted e) (ended p Ending.canceled_due)
          (ended p (Ending.run_failed (fail_reason e) e)) h h

    after_emit-IsNext :
        (p : Position T E) (o : Observed)
        → Counts count p.meta.step_count
        → IsNext count (after_emit g interrupted p o)
    after_emit-IsNext p handoff_requested h = h
    after_emit-IsNext p lease_gone h = h
    after_emit-IsNext p clear h = h
    after_emit-IsNext p done h = h

    on_step-IsNext :
        (round : Round) (p : Position T E) (base : Directive E) (o : Observed)
        → p.meta.step_count ≡ after_call count
        → IsNext count (on_step g interrupted round p base o)
    on_step-IsNext round p base clear h =
        budgeted-IsNext round p base (check_budget_limits p.meta g.defaults.budget_limits) h
    on_step-IsNext round p base handoff_requested h = inr h
    on_step-IsNext round p base lease_gone h = inr h
    on_step-IsNext round p base done h = inr h

    pub after_node-IsNext :
        (round : Round) (s : Stepped T E)
        → IsCounted count s
        → IsNext count (after_node g interrupted round s)
    after_node-IsNext round (step_failed p e) h = on_failure-IsNext p e round.after_step h
    after_node-IsNext round (emit_canceled p) h = after_emit-IsNext p round.after_step h
    after_node-IsNext round (stepped p base) h = on_step-IsNext round p base round.after_step h

    admit_round-IsNext :
        (validator : Option (T → Result (Unit {0}))) (round : Round) (p : Position T E)
        (o : Observed)
        → p.meta.step_count ≡ count
        → IsNext count (admit_round g interrupted validator round p o)
    admit_round-IsNext validator round p handoff_requested h = inl h
    admit_round-IsNext validator round p lease_gone h = inl h
    admit_round-IsNext validator round p done h = inl h
    admit_round-IsNext validator round p clear h =
        if-IsNext (leb_ℤ (step_limit g) p.meta.step_count) (failing p max_steps_exceeded)
          (after_node g interrupted round (run_node_step g validator round p)) (inl h)
          (after_node-IsNext round (run_node_step g validator round p)
            (run_node_step-IsCounted validator round p h))
