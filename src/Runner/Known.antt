-- ===== src/Runner/Known.antt =====
-- A run of a compiled graph stays on its nodes: execute (runner_execution.go) after Compile
-- (builder.go).
use flowy.Prelude.{◌≡◌, Bool, true, false, List, ◌++◌, Option, none, some, ℤ, if◌then◌else◌}
use flowy.Base.{Text, text_eq, Map, Result, ok, err}
use flowy.Graph.{Directive, Node, Graph}
use flowy.Graph.Routing.{validate_execution_pointer}
use flowy.Runner.{
  Position, Round, Ending, suspending, Stepped, stepped, step_failed, emit_canceled, Next, go_on,
  ended, unwrap_directive,
}
use flowy.Runner.Loop.{
  counted, reduce, unwrapped, checked_state, holds, handled, answered, called, started, dispatched,
}

abbrev pub IsNode : {T E : Type 0} → Graph T E → Text → Type 0
IsNode g name = validate_execution_pointer g name ≡ ok tt

-- A run is suspended at a node.
abbrev pub IsSound : {T E : Type 0} → Graph T E → Ending → Type 0
IsSound g (suspending pointer reason) = IsNode g pointer
IsSound g _ = Unit {0}

abbrev pub IsOn : {T E : Type 0} → Graph T E → Stepped T E → Type 0
IsOn g (stepped p base) = IsNode g p.current
IsOn g (step_failed p e) = IsNode g p.current
IsOn g (emit_canceled p) = IsNode g p.current

abbrev pub IsKnown : {T E : Type 0} → Graph T E → Next T E → Type 0
IsKnown g (go_on p) = IsNode g p.current
IsKnown g (ended p ending) = IsNode g p.current × IsSound g ending

module _ {T E : Type 0} (g : Graph T E) where
  if-IsOn : (test : Bool) (s t : Stepped T E) → IsOn g s → IsOn g t → IsOn g (if test then s else t)
  if-IsOn true s t h k = h
  if-IsOn false s t h k = k

  unwrapped-IsOn :
      (round : Round) (p : Position T E) (r : Result (Directive E × List E))
      → IsNode g p.current
      → IsOn g (unwrapped g round p r)
  unwrapped-IsOn round p (err e) h = h
  unwrapped-IsOn round p (ok (base, effects)) h =
      if-IsOn round.completed_taken (stepped (record p { effects = p.effects ++ effects }) base)
        (emit_canceled (record p { effects = p.effects ++ effects })) h h

  checked_state-IsOn :
      (round : Round) (p : Position T E) (directive : Directive E) (r : Result (Unit {0}))
      → IsNode g p.current
      → IsOn g (checked_state g round p directive r)
  checked_state-IsOn round p directive (err e) h = h
  checked_state-IsOn round p directive (ok _) h =
      unwrapped-IsOn round p (unwrap_directive directive) h

  handled-IsOn :
      (validator : Option (T → Result (Unit {0}))) (round : Round) (p : Position T E)
      (r : Result (T × Directive E))
      → IsNode g p.current
      → IsOn g (handled g validator round p r)
  handled-IsOn validator round p (err e) h = h
  handled-IsOn validator round p (ok (update, directive)) h =
      checked_state-IsOn round (record p { state = reduce g g.reducer p.state update }) directive
        (holds g validator (reduce g g.reducer p.state update)) h

  answered-IsOn :
      (validator : Option (T → Result (Unit {0}))) (round : Round) (p : Position T E)
      (r : Map ℤ × Result (T × Directive E))
      → IsNode g p.current
      → IsOn g (answered g validator round p r)
  answered-IsOn validator round p (counts, answer) h =
      handled-IsOn validator round (record p { meta = record p.meta { budget_counts = counts } })
        answer h

  started-IsOn :
      (validator : Option (T → Result (Unit {0}))) (round : Round) (p : Position T E)
      (handler : Option (Node T E)) (taken : Bool)
      → IsNode g p.current
      → IsOn g (started g validator round p handler taken)
  started-IsOn validator round p handler false h = h
  started-IsOn validator round p handler true h =
      answered-IsOn validator round (record p { meta = counted p.meta })
        (called g handler p.meta.budget_counts p.state) h

  pub dispatched-IsOn :
      (validator : Option (T → Result (Unit {0}))) (round : Round) (p : Position T E)
      (found : Option (Option (Node T E)))
      → IsNode g p.current
      → IsOn g (dispatched g validator round p found)
  dispatched-IsOn validator round p none h = h
  dispatched-IsOn validator round p (some handler) h =
      started-IsOn validator round p handler round.started_taken h
