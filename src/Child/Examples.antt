-- ===== src/Child/Examples.antt =====
-- Two children that share ten units, one of which returns what it has not used.
use flowy.Prelude.{ℕ, ◌+◌, ◌≤◌, ◌≡◌, refl, false, [], ◌∷◌, none, ℤ, pos}
use flowy.Base.{Text, text, text_discrete, Map, lookup, insert, ok, valid_runtime_text, valid_text}
use flowy.Child.{
  ChildSpec, ChildRecord, ChildGroup, ChildGroupPlan, completed, fail_fast, planned_children,
  sort_children, plan_child_group, allocate_child_counters, allocate_children, valid_child_capacity,
  settled_child,
}
use flowy.Child.Return.{
  check_used, returned_units, compute_child_budget_return, validate_child_record_state,
  validate_child_state_machine, valid_child_wait_resolution, valid_child_cancel_confirmation,
  valid_child_outcome_resolution,
}
use flowy.Child.Budget.{units_at, given, plan_within}
use flowy.Child.Returned.{return_conserves}

abbrev spec : Text → ℕ → ChildSpec
spec id units = record { id = id; input = []; allocation = (text "calls", pos units) ∷ [] }

abbrev plan : ChildGroupPlan
plan = record {
  key = text "k";
  label = text "l";
  merge_label = text "m";
  budget_label = text "b";
  cancel_label = text "c";
  max_concurrency = pos 2;
  failure_policy = fail_fast;
  children = spec (text "y") 4 ∷ spec (text "x") 6 ∷ [];
}

abbrev capacity : Map ℤ
capacity = (text "calls", pos 10) ∷ []

abbrev identity : Text → Text
identity id = id

abbrev group : ChildGroup
group = record {
  parent_id = text "p";
  node = text "n";
  activation = 1;
  plan = record plan { children = spec (text "x") 6 ∷ spec (text "y") 4 ∷ [] };
  children = planned_children identity (spec (text "x") 6 ∷ spec (text "y") 4 ∷ []);
  capacity = capacity;
}

plans : plan_child_group identity (text "p") (text "n") 1 plan capacity ≡ ok group
unfolding plan_child_group valid_child_capacity allocate_children allocate_child_counters
    sort_children lookup insert text_discrete valid_runtime_text valid_text
plans = refl

plan_within_example :
    (group.capacity ≡ capacity)
    × (given (text "calls") group.children ≤ units_at (text "calls") capacity)
plan_within_example =
    plan_within identity (text "p") (text "n") 1 plan capacity group (text "calls") plans

abbrev child : ChildRecord
child = record {
  spec = spec (text "x") 6;
  execution_id = text "x";
  revision = 3;
  incarnation = 1;
  wait_id = [];
  state = completed;
  result = [];
  error = [];
  cancel_requested = false;
  cancel_confirmed = false;
  wait_resolution = none;
  outcome_resolution = none;
  cancel_confirmation = none;
}

returns :
    compute_child_budget_return child ((text "calls", pos 2) ∷ []) ≡ ok ((text "calls", pos 4) ∷ [])
unfolding compute_child_budget_return validate_child_record_state validate_child_state_machine
    valid_child_wait_resolution valid_child_cancel_confirmation valid_child_outcome_resolution
    settled_child check_used returned_units lookup insert text_discrete valid_runtime_text
    valid_text
returns = refl

return_conserves_example :
    units_at (text "calls") ((text "calls", pos 4) ∷ [])
      + units_at (text "calls") ((text "calls", pos 2) ∷ [])
    ≡ units_at (text "calls") child.spec.allocation
return_conserves_example =
    return_conserves child ((text "calls", pos 2) ∷ []) ((text "calls", pos 4) ∷ []) (text "calls")
      (refl, tt) returns
