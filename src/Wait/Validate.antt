-- ===== src/Wait/Validate.antt =====
-- DurableWaitSpec.Validate and planDurableWait (durable_wait_contract.go), validateDurableWait and
-- its parts (durable_wait_arbitration.go), validWaitCancellation (durable_wait_cancellation.go).
use flowy.Prelude.{
  ℕ, Bool, true, false, not, ◌&&◌, ◌||◌, List, [], ◌∷◌, Option, none, some, ◌==◌, ◌!=◌, nat_eq,
  if◌then◌else◌, ltb, leb, pos, int_eq, ℤ_discrete,
}
use flowy.Base.{
  Text, text_eq, text_discrete, valid_runtime_text, valid_activity_digest, is_zero, before,
  json_time, Map, lookup, wait_invalid, Result, ok, ◌>>◌, reject_if, fails,
}
use flowy.Execution.Validate.{validate_wait_profile}
use flowy.Execution.Types.{WaitProfile}
use flowy.Wait.Types.{
  WaitState, armed, resolved, expired, canceled, other_state, WinnerPolicy, first_committed,
  other_policy, DeliveryKind, event, timer, DecisionStatus, accepted, unmatched, lost,
  rejected_canceled, other_status, WaitSpec, WaitDecision, WaitRecord, CancellationRecord,
  WaitHashes,
}

abbrev is_first_committed : WinnerPolicy → Bool
is_first_committed first_committed = true
is_first_committed (other_policy p) = false

unfoldable pub validate_wait_spec : WaitSpec → Result (Unit {0})
unfolding text_discrete ℤ_discrete
validate_wait_spec s = do
  reject_if
      (s.id == []
        || s.correlation_id == []
        || is_zero s.deadline.instant
        || s.deadline.offset != pos 0
        || not (
            valid_runtime_text (
              s.id ∷ s.correlation_id ∷ s.matcher_label ∷ s.payload_codec ∷ s.continuation_label
              ∷ s.event_pointer ∷ s.timeout_pointer ∷ []))
        || s.matcher_label == []
        || s.payload_codec == []
        || s.continuation_label == []
        || s.event_pointer == []
        || s.timeout_pointer == []
        || not (is_first_committed s.winner_policy))
      wait_invalid
  reject_if (not (json_time s.deadline.instant)) wait_invalid

abbrev pub is_event : DeliveryKind → Bool
is_event event = true
is_event _ = false

abbrev pub is_timer : DeliveryKind → Bool
is_timer timer = true
is_timer _ = false

abbrev pub is_armed : WaitState → Bool
is_armed armed = true
is_armed _ = false

abbrev pub is_resolved : WaitState → Bool
is_resolved resolved = true
is_resolved _ = false

abbrev pub is_expired : WaitState → Bool
is_expired expired = true
is_expired _ = false

abbrev pub is_canceled : WaitState → Bool
is_canceled canceled = true
is_canceled _ = false

unfoldable pub valid_cancel : Option CancellationRecord → WaitRecord → ℕ → Bool
unfolding text_discrete
valid_cancel none record_ revision = false
valid_cancel (some cancel) record_ revision =
    cancel.id != []
    && cancel.reason != []
    && cancel.evidence != []
    && leb record_.arm_revision cancel.source_revision
    && ltb cancel.source_revision revision
    && cancel.incarnation != 0
    && not (is_zero cancel.at)
    && valid_runtime_text (cancel.id ∷ cancel.reason ∷ cancel.evidence ∷ [])

abbrev pub has {ℓ} : {A : Type ℓ} → Option A → Bool
has none = false
has (some a) = true

unfoldable pub valid_wait_cancellation : WaitRecord → ℕ → Bool
valid_wait_cancellation w revision =
    if is_canceled w.state then valid_cancel w.cancellation w revision else not (has w.cancellation)

-- The source revision of a missing decision or cancellation is the zero one.
abbrev pub source_of : Option WaitDecision → ℕ
source_of none = 0
source_of (some d) = d.source_revision

abbrev pub canceled_at : Option CancellationRecord → ℕ
canceled_at none = 0
canceled_at (some k) = k.source_revision

-- validWaitDecisionState, by the status of the decision.
unfoldable pub valid_status :
    DecisionStatus → WaitRecord → WaitDecision → Option WaitDecision → Bool
valid_status accepted w d winner =
    d.id == w.winner_id
    && ((is_resolved w.state && is_event d.kind) || (is_expired w.state && is_timer d.kind))
valid_status unmatched w d winner =
    is_event d.kind
    && (w.winner_id == [] || ltb d.source_revision (source_of winner))
    && (not (has w.cancellation) || ltb d.source_revision (canceled_at w.cancellation))
valid_status lost w d winner = w.winner_id != [] && ltb (source_of winner) d.source_revision
valid_status rejected_canceled w d winner =
    is_canceled w.state && has w.cancellation && ltb (canceled_at w.cancellation) d.source_revision
valid_status (other_status s) w d winner = false

unfoldable pub contains : List ℕ → ℕ → Bool
contains [] n = false
contains (m ∷ rest) n = m == n || contains rest n

module _ (h : WaitHashes) where
  open h use {identity, generation, payload_digest}

  -- The body of the loop of validateWaitDecisions; `sources` are the revisions seen so far.
  unfoldable pub valid_wait_decision :
      WaitRecord → ℕ → Option WaitDecision → List ℕ → Text → WaitDecision → Bool
  valid_wait_decision w revision winner sources id d =
      not (
        id == []
        || id != d.id
        || d.correlation_id != w.spec.correlation_id
        || d.incarnation == 0
        || is_zero d.at
        || ltb d.source_revision w.arm_revision
        || leb revision d.source_revision
        || contains sources d.source_revision
        || not (valid_activity_digest d.payload_digest)
        || (not (is_event d.kind) && not (is_timer d.kind)))
      && not (
          is_timer d.kind
          && (before d.at w.spec.deadline.instant || d.payload_digest != payload_digest []))
      && valid_status d.status w d winner

  unfoldable pub valid_decisions :
      WaitRecord → ℕ → Option WaitDecision → List ℕ → Map WaitDecision → Bool
  valid_decisions w revision winner sources [] = true
  valid_decisions w revision winner sources ((id, d) ∷ rest) =
      valid_wait_decision w revision winner sources id d
      && valid_decisions w revision winner (d.source_revision ∷ sources) rest

  abbrev pub is_accepted : Option WaitDecision → Bool
  is_accepted none = false
  is_accepted (some d) = elim d.status [ accepted ↦ true | _ ↦ false ]

  abbrev pub cancel_sources : Option CancellationRecord → List ℕ
  cancel_sources none = []
  cancel_sources (some k) = k.source_revision ∷ []

  unfoldable pub validate_wait_decisions : WaitRecord → ℕ → Result (Unit {0})
  validate_wait_decisions w revision = do
    let winner = lookup w.winner_id w.decisions
    reject_if (w.winner_id != [] && not (is_accepted winner)) wait_invalid
    reject_if (not (valid_decisions w revision winner (cancel_sources w.cancellation) w.decisions))
        wait_invalid

  -- The `switch` on the state in validateDurableWait.
  unfoldable pub valid_winner : WaitState → Text → Bool
  valid_winner armed winner = winner == []
  valid_winner canceled winner = winner == []
  valid_winner resolved winner = winner != []
  valid_winner expired winner = winner != []
  valid_winner (other_state s) winner = false

  -- The first condition of validateDurableWait.
  unfoldable pub bad_address : WaitRecord → ℕ → Bool
  bad_address w revision =
      w.execution_id == []
      || w.node == []
      || w.activation == 0
      || fails (validate_wait_spec w.spec)
      || fails (validate_wait_profile w.profile)
      || w.arm_revision == 0
      || ltb revision w.arm_revision
      || w.generation
        != generation (identity w.execution_id w.node w.activation w.spec.id) w.arm_revision

  unfoldable pub validate_durable_wait : WaitRecord → ℕ → Result (Unit {0})
  validate_durable_wait w revision = do
    reject_if (bad_address w revision) wait_invalid
    reject_if (not (valid_wait_cancellation w revision)) wait_invalid
    reject_if (not (valid_winner w.state w.winner_id)) wait_invalid
    validate_wait_decisions w revision

  unfoldable pub plan_durable_wait :
      Text → Text → ℕ → ℕ → WaitSpec → WaitProfile → Result WaitRecord
  unfolding text_discrete
  plan_durable_wait execution node activation revision spec profile = do
    reject_if
        (fails (validate_wait_spec spec)
          || fails (validate_wait_profile profile)
          || execution == []
          || node == []
          || activation == 0
          || revision == 0)
        wait_invalid
    ok (record {
      execution_id = execution;
      node = node;
      activation = activation;
      generation = generation (identity execution node activation spec.id) revision;
      arm_revision = revision;
      spec = spec;
      profile = profile;
      state = armed;
      winner_id = [];
      decisions = [];
      cancellation = none;
    })
