-- ===== src/Child.antt =====
-- Groups of children: the records and PlanChildGroup (child_contract.go), the validation of a child
-- (child_state.go, child_wait.go, child_cancel_confirmation.go, child_outcome_resolution.go) and the
-- return of its budget (child_budget.go). A child's identity is an argument. A map is read in the
-- order of its list.
pub mod Budget
pub mod Return
pub mod Returned
pub mod Examples
use flowy.Prelude.{
  ℕ, zero, suc, ◌+◌, ◌≡◌, Bool, true, false, not, ◌&&◌, ◌||◌, List, [], ◌∷◌, Option, none, some,
  ◌==◌, ◌!=◌, nat_eq, Eq, eq_of_discrete, ltb, ℤ, pos, ◌-ℤ◌, ltb_ℤ, leb_ℤ, ℕ_discrete,
  if◌then◌else◌,
}
use flowy.Base.{
  Bytes, Text, text_eq, valid_runtime_text, Time, is_zero, Map, lookup, insert, Err,
  child_duplicate, child_invalid, children_unresolved, budget_exceeded, execution_corrupt, Result,
  ok, err, ◌>>=◌, ◌>>◌, reject_if, fails,
}

pub data ChildState : Type 0 where
  planned queued running waiting completed failed canceled unknown : ChildState
  other_state : Text → ChildState

pub data FailurePolicy : Type 0 where
  fail_fast collect_errors : FailurePolicy
  other_policy : Text → FailurePolicy

pub record ChildSpec : Type 0 where
  pub id : Text
  pub input : Bytes
  pub allocation : Map ℤ

pub record ChildGroupPlan : Type 0 where
  pub key : Text
  pub label : Text
  pub merge_label : Text
  pub budget_label : Text
  pub cancel_label : Text
  pub max_concurrency : ℤ
  pub failure_policy : FailurePolicy
  pub children : List ChildSpec

pub record WaitResolution : Type 0 where
  pub wait_id : Text
  pub decision_id : Text
  pub child_revision : ℕ
  pub source_revision : ℕ
  pub incarnation : ℕ
  pub at : Time

pub record OutcomeResolution : Type 0 where
  pub decision_id : Text
  pub reason : Text
  pub evidence : Text
  pub request_digest : Text
  pub prior_state : ChildState
  pub child_revision : ℕ
  pub prior_incarnation : ℕ
  pub source_revision : ℕ
  pub incarnation : ℕ
  pub at : Time

pub record CancelConfirmation : Type 0 where
  pub request_id : Text
  pub decision_id : Text
  pub reason : Text
  pub evidence : Text
  pub prior_state : ChildState
  pub child_revision : ℕ
  pub source_revision : ℕ
  pub incarnation : ℕ
  pub at : Time

pub record ChildRecord : Type 0 where
  pub spec : ChildSpec
  pub execution_id : Text
  pub revision : ℕ
  pub incarnation : ℕ
  pub wait_id : Text
  pub state : ChildState
  pub result : Bytes
  pub error : Text
  pub cancel_requested : Bool
  pub cancel_confirmed : Bool
  pub wait_resolution : Option WaitResolution
  pub outcome_resolution : Option OutcomeResolution
  pub cancel_confirmation : Option CancelConfirmation

-- The fields of ChildGroupRecord that a plan sets; it has no cancellation, no merge and no return.
pub record ChildGroup : Type 0 where
  pub parent_id : Text
  pub node : Text
  pub activation : ℕ
  pub plan : ChildGroupPlan
  pub children : List ChildRecord
  pub capacity : Map ℤ

abbrev known_policy : FailurePolicy → Bool
known_policy fail_fast = true
known_policy collect_errors = true
known_policy (other_policy label) = false

unfoldable pub valid_child_capacity : Map ℤ → Bool
valid_child_capacity [] = true
valid_child_capacity ((name, units) ∷ rest) =
    name != []
    && valid_runtime_text (name ∷ [])
    && not (ltb_ℤ units (pos 0))
    && valid_child_capacity rest

-- `units < 0 || !exists || available < units`
abbrev pub lacks : Option ℤ → ℤ → Bool
lacks none units = true
lacks (some available) units = ltb_ℤ units (pos 0) || ltb_ℤ available units

abbrev pub left_of : Option ℤ → ℤ → ℤ
left_of none units = pos 0
left_of (some available) units = available -ℤ units

-- What remains of the counters.
unfoldable pub allocate_child_counters : Map ℤ → Map ℤ → Result (Map ℤ)
allocate_child_counters remaining [] = ok remaining
allocate_child_counters remaining ((name, units) ∷ rest) = do
  reject_if
      (name == [] || not (valid_runtime_text (name ∷ [])) || lacks (lookup name remaining) units)
      budget_exceeded
  allocate_child_counters (insert name (left_of (lookup name remaining) units) remaining) rest

abbrev pub contains : Text → List Text → Bool
contains id [] = false
contains id (x ∷ rest) = x == id || contains id rest

-- The loop of PlanChildGroup over its children.
unfoldable pub allocate_children : List Text → Map ℤ → List ChildSpec → Result (Map ℤ)
allocate_children seen remaining [] = ok remaining
allocate_children seen remaining (spec ∷ rest) = do
  reject_if (spec.id == [] || not (valid_runtime_text (spec.id ∷ []))) child_invalid
  reject_if (contains spec.id seen) child_duplicate
  left ← allocate_child_counters remaining spec.allocation
  allocate_children (spec.id ∷ seen) left rest

-- Go's `<` on strings.
abbrev text_lt : Text → Text → Bool
text_lt s [] = false
text_lt [] (y ∷ t) = true
text_lt (x ∷ s) (y ∷ t) = ltb x y || (x == y && text_lt s t)

abbrev pub insert_child : ChildSpec → List ChildSpec → List ChildSpec
insert_child c [] = c ∷ []
insert_child c (x ∷ xs) = if text_lt x.id c.id then x ∷ insert_child c xs else c ∷ x ∷ xs

unfoldable pub sort_children : List ChildSpec → List ChildSpec
sort_children [] = []
sort_children (c ∷ rest) = insert_child c (sort_children rest)

abbrev pub planned_child : (Text → Text) → ChildSpec → ChildRecord
planned_child identity spec = record {
  spec = spec;
  execution_id = identity spec.id;
  revision = 0;
  incarnation = 0;
  wait_id = [];
  state = planned;
  result = [];
  error = [];
  cancel_requested = false;
  cancel_confirmed = false;
  wait_resolution = none;
  outcome_resolution = none;
  cancel_confirmation = none;
}

abbrev pub planned_children : (Text → Text) → List ChildSpec → List ChildRecord
planned_children identity [] = []
planned_children identity (spec ∷ rest) =
    planned_child identity spec ∷ planned_children identity rest

abbrev is_nil {ℓ} : {A : Type ℓ} → List A → Bool
is_nil [] = true
is_nil (x ∷ xs) = false

abbrev pub bad_plan : Text → Text → ℕ → ChildGroupPlan → Bool
bad_plan parent_id node activation plan =
    parent_id == []
    || node == []
    || activation == 0
    || plan.key == []
    || plan.label == []
    || plan.merge_label == []
    || not (
        valid_runtime_text (
          parent_id ∷ node ∷ plan.key ∷ plan.label ∷ plan.merge_label ∷ plan.budget_label
          ∷ plan.cancel_label ∷ []))
    || plan.budget_label == []
    || plan.cancel_label == []
    || leb_ℤ plan.max_concurrency (pos 0)
    || is_nil plan.children
    || not (known_policy plan.failure_policy)

-- `identity` is childExecutionIdentity of the parent, the node, the activation and the key.
unfoldable pub plan_child_group :
    (Text → Text) → Text → Text → ℕ → ChildGroupPlan → Map ℤ → Result ChildGroup
plan_child_group identity parent_id node activation plan available = do
  reject_if (bad_plan parent_id node activation plan) child_invalid
  reject_if (not (valid_child_capacity available)) budget_exceeded
  remaining ← allocate_children [] available plan.children
  ok (record {
    parent_id = parent_id;
    node = node;
    activation = activation;
    plan = record plan { children = sort_children plan.children };
    children = planned_children identity (sort_children plan.children);
    capacity = available;
  })

abbrev pub is_completed_or_failed : ChildState → Bool
is_completed_or_failed completed = true
is_completed_or_failed failed = true
is_completed_or_failed _ = false

abbrev pub settled_state : ChildState → Bool
settled_state canceled = true
settled_state s = is_completed_or_failed s

unfoldable pub settled_child : ChildRecord → Bool
settled_child c = settled_state c.state
