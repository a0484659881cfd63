-- ===== src/Activity/Types.antt =====
-- The data of activity.go, activity_retry.go and activity_resolution.go.
use flowy.Prelude.{ℕ, ℤ, List, Option, Eq, eq_of_discrete, ℕ_discrete}
use flowy.Base.{Bytes, Text, Time}
use flowy.Activity.Schedule.{RetryPolicy, ScheduleDecision}

-- ActivityOrigin; `no_origin` is the empty string.
pub data Origin : Type 0 where
  no_origin live replayed reconciled manual simulated : Origin
  other_origin : Text → Origin

-- ActivityState
pub data State : Type 0 where
  prepared running completed failed unknown : State
  other_state : Text → State

-- ActivityFailureClass; `unclassified` is the empty string.
pub data FailureClass : Type 0 where
  unclassified retryable non_retryable ambiguous : FailureClass
  other_class : Text → FailureClass

-- ActivityResolutionAction
pub data Action : Type 0 where
  complete fail retry : Action
  other_action : Text → Action

unfoldable pub origin_discrete : Discrete Origin
unfolding ℕ_discrete
origin_discrete = hlevel ℕ_discrete

instance abbrev pub origin_eq : Eq Origin
origin_eq = eq_of_discrete origin_discrete

unfoldable pub state_discrete : Discrete State
unfolding ℕ_discrete
state_discrete = hlevel ℕ_discrete

instance abbrev pub state_eq : Eq State
state_eq = eq_of_discrete state_discrete

unfoldable pub class_discrete : Discrete FailureClass
unfolding ℕ_discrete
class_discrete = hlevel ℕ_discrete

instance abbrev pub class_eq : Eq FailureClass
class_eq = eq_of_discrete class_discrete

unfoldable pub action_discrete : Discrete Action
unfolding ℕ_discrete
action_discrete = hlevel ℕ_discrete

instance abbrev pub action_eq : Eq Action
action_eq = eq_of_discrete action_discrete

-- ActivityAttempt
pub record Attempt : Type 0 where
  pub number : ℤ
  pub incarnation : ℕ  -- uint64
  pub state : State
  pub error : Text
  pub classification : FailureClass
  pub started_at : Time
  pub retry_schedule : Option ScheduleDecision
  pub finished_at : Time

-- ActivityResolutionRecord
pub record ResolutionRecord : Type 0 where
  pub decision_id : Text
  pub attempt : ℤ
  pub action : Action
  pub prior_state : State
  pub source_revision : ℕ  -- uint64
  pub incarnation : ℕ  -- uint64
  pub reason : Text
  pub evidence : Text
  pub safe_retry_contract : Text
  pub retry_schedule : Option ScheduleDecision
  pub at : Time

-- ActivityRecord
pub record ActivityRecord : Type 0 where
  pub identity : Text
  pub execution_id : Text
  pub node : Text
  pub activation : ℕ  -- uint64
  pub key : Text
  pub input_digest : Text
  pub implementation : Text
  pub state : State
  pub outcome : Bytes
  pub origin : Origin
  pub attempts : List Attempt
  pub retry : RetryPolicy
  pub classification : FailureClass
  pub next_attempt_at : Time
  pub resolutions : List ResolutionRecord

-- ActivityResolution
pub record Resolution : Type 0 where
  pub identity : Text
  pub input_digest : Text
  pub implementation : Text
  pub decision_id : Text
  pub action : Action
  pub reason : Text
  pub evidence : Text
  pub outcome : Bytes
  pub safe_retry_contract : Text
  pub not_before : Time
