-- ===== src/Wait/Types.antt =====
-- The data of durable_wait_contract.go, and of the cancellation in durable_wait_cancellation.go.
use flowy.Prelude.{ℕ, Option, Eq, eq_of_discrete, ℕ_discrete, ◌≡◌, true}
use flowy.Base.{Bytes, Text, Time, Zoned, Map, valid_activity_digest}
use flowy.Execution.Types.{WaitProfile}

-- WaitState
pub data WaitState : Type 0 where
  armed resolved expired canceled : WaitState
  other_state : Text → WaitState

-- WaitWinnerPolicy
pub data WinnerPolicy : Type 0 where
  first_committed : WinnerPolicy
  other_policy : Text → WinnerPolicy

-- WaitDeliveryKind
pub data DeliveryKind : Type 0 where
  event timer : DeliveryKind
  other_kind : Text → DeliveryKind

unfoldable pub delivery_kind_discrete : Discrete DeliveryKind
unfolding ℕ_discrete
delivery_kind_discrete = hlevel ℕ_discrete

instance abbrev pub delivery_kind_eq : Eq DeliveryKind
delivery_kind_eq = eq_of_discrete delivery_kind_discrete

-- WaitDecisionStatus
pub data DecisionStatus : Type 0 where
  accepted unmatched lost rejected_canceled : DecisionStatus
  other_status : Text → DecisionStatus

-- DurableWaitSpec
pub record WaitSpec : Type 0 where
  pub id : Text
  pub correlation_id : Text
  pub deadline : Zoned
  pub matcher_label : Text
  pub payload_codec : Text
  pub continuation_label : Text
  pub event_pointer : Text
  pub timeout_pointer : Text
  pub winner_policy : WinnerPolicy

-- WaitDelivery
pub record WaitDelivery : Type 0 where
  pub generation : Text
  pub id : Text
  pub kind : DeliveryKind
  pub correlation_id : Text
  pub expected_revision : ℕ  -- uint64
  pub payload : Bytes

-- WaitDecision
pub record WaitDecision : Type 0 where
  pub id : Text
  pub kind : DeliveryKind
  pub correlation_id : Text
  pub payload_digest : Text
  pub status : DecisionStatus
  pub source_revision : ℕ  -- uint64
  pub incarnation : ℕ  -- uint64
  pub at : Time

-- WaitCancellation
pub record WaitCancellation : Type 0 where
  pub generation : Text
  pub id : Text
  pub reason : Text
  pub evidence : Text

-- WaitCancellationRecord
pub record CancellationRecord : Type 0 where
  pub id : Text
  pub reason : Text
  pub evidence : Text
  pub source_revision : ℕ
  pub incarnation : ℕ
  pub at : Time

-- DurableWaitRecord
pub record WaitRecord : Type 0 where
  pub execution_id : Text
  pub node : Text
  pub activation : ℕ
  pub generation : Text
  pub arm_revision : ℕ
  pub spec : WaitSpec
  pub profile : WaitProfile
  pub state : WaitState
  pub winner_id : Text
  pub decisions : Map WaitDecision
  pub cancellation : Option CancellationRecord

-- waitIdentity, waitGeneration and waitPayloadDigest: hex SHA-256 of JSON and of the payload.
pub record WaitHashes : Type 0 where
  pub identity : Text → Text → ℕ → Text → Text
  pub generation : Text → ℕ → Text
  pub payload_digest : Bytes → Text

-- hex.EncodeToString of the 32 bytes of a SHA-256 is canonical.
pub record IsHex (h : WaitHashes) : Type 0 where
  pub canonical : (b : Bytes) → valid_activity_digest (h.payload_digest b) ≡ true
