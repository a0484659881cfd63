-- ===== src/Runner/Loop.antt =====
-- runNodeStep, applyDirective and the loop of execute (runner_execution.go).
use flowy.Prelude.{
  ℕ, zero, suc, ◌+◌, ◌-◌, Bool, true, false, List, [], ◌++◌, Option, none, some, ◌==◌, ℤ, pos, ◌+ℤ◌,
  i64, leb_ℤ, ltb_ℤ, pos_part, neg_part, if◌then◌else◌,
}
use flowy.Base.{
  Text, text, text_eq, Map, lookup, insert, Err, node_not_found, node_failed, no_retry_route,
  retry_attempts_invalid, retry_budget_exceeded, max_steps_exceeded, removed_next, failed_with,
  execution_capability, lease_lost, Result, ok, err,
}
use flowy.Execution.Types.{RunMetadata}
use flowy.Graph.{Directive, Node, Graph, end_node, default_max_steps}
use flowy.Graph.Routing.{resolve_edge, validate_execution_pointer}
use flowy.Runner.{
  Position, Observed, clear, handoff_requested, lease_gone, done, Round, words, run_completed,
  run_failed, suspending, handing_off, handoff_due, canceled_due, Outcome, Stepped, stepped,
  step_failed, emit_canceled, Next, go_on, ended, failing, unwrap_directive, count_of,
  check_budget_limits, fail_reason, resume_pointer,
}

-- `meta.StepCount++`
unfoldable pub counted : RunMetadata → RunMetadata
counted meta = record meta { step_count = i64 (meta.step_count +ℤ pos 1) }

-- `meta.RetryCounts[current]++`, in the map that the runner shares.
abbrev pub retried : Text → RunMetadata → RunMetadata
retried current meta = record meta {
  retry_counts =
      insert current (i64 (count_of current meta.retry_counts +ℤ pos 1)) meta.retry_counts;
}

module _ {T E : Type 0} (g : Graph T E) where
  -- A nil reducer or handler panics; a compiled graph has none.
  abbrev pub reduce : Option (T → T → T) → T → T → T
  reduce none state update = state
  reduce (some f) state update = f state update

  abbrev pub unwrapped : Round → Position T E → Result (Directive E × List E) → Stepped T E
  unwrapped round p (err e) = step_failed p e
  unwrapped round p (ok (base, effects)) =
      let p' = record p { effects = p.effects ++ effects } in
      if round.completed_taken then stepped p' base else emit_canceled p'

  -- The invariant of the invocation; its own error is returned.
  abbrev pub checked_state : Round → Position T E → Directive E → Result (Unit {0}) → Stepped T E
  checked_state round p directive (err e) = step_failed p e
  checked_state round p directive (ok _) = unwrapped round p (unwrap_directive directive)

  abbrev pub holds : Option (T → Result (Unit {0})) → T → Result (Unit {0})
  holds none state = ok tt
  holds (some validator) state = validator state

  abbrev pub handled :
      Option (T → Result (Unit {0})) → Round → Position T E → Result (T × Directive E) → Stepped T E
  handled validator round p (err e) = step_failed p (node_failed p.current e)
  handled validator round p (ok (update, directive)) =
      let p' = record p { state = reduce g.reducer p.state update } in
      checked_state round p' directive (holds validator p'.state)

  abbrev pub called : Option (Node T E) → Map ℤ → T → Map ℤ × Result (T × Directive E)
  called none counts state = (counts, err (node_not_found []))
  called (some handler) counts state = handler counts state

  -- The counts that the handler leaves are those of the run.
  abbrev pub answered :
      Option (T → Result (Unit {0}))
      → Round
      → Position T E
      → Map ℤ × Result (T × Directive E)
      → Stepped T E
  answered validator round p (counts, answer) =
      handled validator round (record p { meta = record p.meta { budget_counts = counts } }) answer

  -- The sink takes the event of the start, or the run is canceled.
  abbrev pub started :
      Option (T → Result (Unit {0})) → Round → Position T E → Option (Node T E) → Bool → Stepped T E
  started validator round p handler false = emit_canceled p
  started validator round p handler true =
      answered validator round (record p { meta = counted p.meta })
        (called handler p.meta.budget_counts p.state)

  abbrev pub dispatched :
      Option (T → Result (Unit {0}))
      → Round
      → Position T E
      → Option (Option (Node T E))
      → Stepped T E
  dispatched validator round p none = step_failed p (node_not_found p.current)
  dispatched validator round p (some handler) =
      started validator round p handler round.started_taken

  unfoldable pub run_node_step : Option (T → Result (Unit {0})) → Round → Position T E → Stepped T E
  run_node_step validator round p = dispatched validator round p (lookup p.current g.nodes)

  abbrev pub completed_to : Position T E → Result Text → Next T E
  completed_to p (err e) = failing p e
  completed_to p (ok next) =
      if next == end_node then ended p run_completed else go_on (record p { current = next })

  abbrev pub fallback_to : Position T E → Option Text → Next T E
  fallback_to p none = failing p (no_retry_route p.current)
  fallback_to p (some fallback) = go_on (record p { current = fallback })

  -- The rest of applyDirectiveRetry, once the retry is counted.
  abbrev pub retry_within : Position T E → ℤ → Next T E
  retry_within p attempts =
      if ltb_ℤ attempts (count_of p.current p.meta.retry_counts)
      then failing p retry_budget_exceeded
      else fallback_to p (lookup p.current g.retry_routes)

  abbrev pub retry_from : Position T E → ℤ → Next T E
  retry_from p attempts =
      if leb_ℤ attempts (pos 0)
      then failing p retry_attempts_invalid
      else retry_within (record p { meta = retried p.current p.meta }) attempts

  abbrev pub suspend_at : Position T E → Text → Text → Result (Unit {0}) → Next T E
  suspend_at p pointer reason (ok _) = ended p (suspending pointer reason)
  suspend_at p pointer reason (err e) =
      ended p (run_failed (words (text "suspend_resume_target_invalid")) e)

  unfoldable pub apply_directive : Position T E → Directive E → Next T E
  apply_directive p (Directive.await spec) =
      ended p (run_failed (words (text "durable_wait")) execution_capability)
  apply_directive p Directive.completed = completed_to p (resolve_edge g p.current p.state)
  apply_directive p Directive.next = failing p removed_next
  apply_directive p Directive.end = ended p run_completed
  apply_directive p (Directive.suspend reason resume_at) =
      suspend_at p (resume_pointer p.current resume_at) reason
        (validate_execution_pointer g (resume_pointer p.current resume_at))
  apply_directive p (Directive.handoff reason resume_at) = ended p (
      handing_off (resume_pointer p.current resume_at)
        (if reason == [] then text "handoff" else reason))
  apply_directive p (Directive.retry attempts) = retry_from p attempts
  apply_directive p (Directive.fail reason) = failing p (failed_with reason)
  apply_directive p other =
      failing p (failed_with (text "flowy: node returned unsupported directive"))

  abbrev pub with_lease : Position T E → Directive E → Observed → Next T E
  with_lease p base lease_gone = failing p lease_lost
  with_lease p base _ = apply_directive p base

  -- The budgets, the lease and the directive.
  abbrev pub budgeted : Round → Position T E → Directive E → Result (Unit {0}) → Next T E
  budgeted round p base (err e) = failing p e
  budgeted round p base (ok _) = with_lease p base round.after_budget

  abbrev pub step_limit : ℤ
  step_limit =
      if leb_ℤ g.defaults.max_steps (pos 0) then default_max_steps else g.defaults.max_steps

  module _ (interrupted : Err → Bool) where
    -- `interrupted` says whether an error is a cancellation or a deadline of the context.
    abbrev pub on_failure : Position T E → Err → Observed → Next T E
    on_failure p e lease_gone = failing p lease_lost
    on_failure p e clear = ended p (run_failed (fail_reason e) e)
    on_failure p e handoff_requested =
        if interrupted e then ended p handoff_due else ended p (run_failed (fail_reason e) e)
    on_failure p e done =
        if interrupted e then ended p canceled_due else ended p (run_failed (fail_reason e) e)

    abbrev pub after_emit : Position T E → Observed → Next T E
    after_emit p handoff_requested = ended p handoff_due
    after_emit p lease_gone = failing p lease_lost
    after_emit p _ = ended p canceled_due

    abbrev pub on_step : Round → Position T E → Directive E → Observed → Next T E
    on_step round p base clear =
        budgeted round p base (check_budget_limits p.meta g.defaults.budget_limits)
    on_step round p base handoff_requested = ended p handoff_due
    on_step round p base lease_gone = failing p lease_lost
    on_step round p base done = ended p canceled_due

    abbrev pub after_node : Round → Stepped T E → Next T E
    after_node round (step_failed p e) = on_failure p e round.after_step
    after_node round (emit_canceled p) = after_emit p round.after_step
    after_node round (stepped p base) = on_step round p base round.after_step

    abbrev pub admit_round :
        Option (T → Result (Unit {0})) → Round → Position T E → Observed → Next T E
    admit_round validator round p handoff_requested = ended p handoff_due
    admit_round validator round p lease_gone = failing p lease_lost
    admit_round validator round p done = ended p canceled_due
    admit_round validator round p clear =
        if leb_ℤ step_limit p.meta.step_count
        then failing p max_steps_exceeded
        else after_node round (run_node_step validator round p)

    -- One round of the loop.
    unfoldable pub execute_round : Option (T → Result (Unit {0})) → Round → Position T E → Next T E
    execute_round validator round p = admit_round validator round p round.on_entry

    -- The loop, over fuel; the rounds are read in order.
    unfoldable pub execute :
        ℕ → Option (T → Result (Unit {0})) → (ℕ → Round) → ℕ → Position T E → Option (Outcome T E)
    execute zero validator rounds i p = none
    execute (suc fuel) validator rounds i p = elim (execute_round validator (rounds i) p) [
      | ended q ending ↦ some (record { position = q; ending = ending })
      | go_on q ↦ execute fuel validator rounds (suc i) q
    ]

-- The calls of handlers that the limit still admits.
unfoldable pub room : ℤ → ℤ → ℕ
room limit count = (pos_part limit + neg_part count) - (pos_part count + neg_part limit)
