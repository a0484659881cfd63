-- ===== src/Wait/Examples.antt =====
-- A wait that is armed, decided, sent again and canceled, with constant digests.
use flowy.Prelude.{
  ◌+◌, ◌≡◌, ◌≢◌, refl, true, false, arith, [], ◌∷◌, none, some, pos, ◌⊎◌, int_eq, ℤ_discrete,
}
use flowy.Base.{
  Text, Time, text, text_discrete, zero_time, is_zero, json_time, ok, lookup, insert,
  valid_runtime_text, valid_text, valid_activity_digest,
}
use flowy.Execution.Types.{WaitProfile}
use flowy.Execution.Validate.{validate_wait_profile}
use flowy.Wait.Types.{
  WaitHashes, IsHex, WaitSpec, WaitRecord, WaitDelivery, WaitDecision, WaitCancellation, event,
  timer, accepted, armed, first_committed, delivery_kind_discrete,
}
use flowy.Wait.Validate.{
  is_armed, is_canceled, validate_wait_spec, validate_durable_wait, plan_durable_wait, bad_address,
  valid_wait_cancellation, valid_winner, validate_wait_decisions, valid_decisions,
  valid_wait_decision, valid_status, contains,
}
use flowy.Wait.Arbitration.{
  prepare_wait_decision, validate_wait_delivery, decide, decided, decision_of, wait_decision_status,
}
use flowy.Wait.Cancellation.{
  cancel_wait, check_cancellation, validate_wait_cancellation_request, canceled_record, other_id,
  differs,
}
use flowy.Wait.Delivery.{prepare-valid, one_winner, redelivery_replays}
use flowy.Wait.Canceled.{cancel-valid, cancellation_replays}

abbrev hash : Text
hash = text "0123456789abcdef0123456789abcdef0123456789abcdef0123456789abcdef"

abbrev hashes : WaitHashes
hashes = record {
  identity = λ execution node activation id. text "identity";
  generation = λ identity revision. text "generation";
  payload_digest = λ payload. hash;
}

hashes-IsHex : IsHex hashes
unfolding valid_activity_digest
hashes-IsHex = record { canonical = λ b. refl }

abbrev spec : WaitSpec
spec = record {
  id = text "approval";
  correlation_id = text "order-1";
  deadline = record {
    instant = 9223372036854775808000000000 + 1000000000;
    offset = pos 0;
    utc_location = true;
  };
  matcher_label = text "m";
  payload_codec = text "json";
  continuation_label = text "c";
  event_pointer = text "approved";
  timeout_pointer = text "late";
  winner_policy = first_committed;
}

abbrev profile : WaitProfile
profile = record {
  label = text "p";
  journal_owner = text "a";
  lease_owner = text "a";
  timer_owner = text "a";
  clock_owner = text "a";
  retry_owner = text "a";
  recovery_owner = text "a";
}

abbrev waiting : WaitRecord
waiting = record {
  execution_id = text "run";
  node = text "ask";
  activation = 1;
  generation = text "generation";
  arm_revision = 3;
  spec = spec;
  profile = profile;
  state = armed;
  winner_id = [];
  decisions = [];
  cancellation = none;
}

abbrev delivery : WaitDelivery
delivery = record {
  generation = text "generation";
  id = text "d1";
  kind = event;
  correlation_id = text "order-1";
  expected_revision = 3;
  payload = 7 ∷ [];
}

abbrev now : Time
now = 9223372036854775808000000000 + 500

abbrev decision : WaitDecision
decision = record {
  id = text "d1";
  kind = event;
  correlation_id = text "order-1";
  payload_digest = hash;
  status = accepted;
  source_revision = 3;
  incarnation = 2;
  at = now;
}

abbrev resolved_wait : WaitRecord
resolved_wait = record waiting {
  state = flowy.Wait.Types.resolved;
  winner_id = text "d1";
  decisions = (text "d1", decision) ∷ [];
}

planned : plan_durable_wait hashes (text "run") (text "ask") 1 3 spec profile ≡ ok waiting
unfolding plan_durable_wait validate_wait_spec validate_wait_profile valid_runtime_text valid_text
    is_zero zero_time json_time text_discrete ℤ_discrete
planned = refl

waiting_valid : validate_durable_wait hashes waiting 3 ≡ ok tt
unfolding validate_durable_wait validate_wait_decisions valid_decisions valid_winner
    valid_wait_cancellation bad_address validate_wait_spec validate_wait_profile valid_runtime_text
    valid_text is_zero zero_time json_time lookup text_discrete ℤ_discrete
waiting_valid = refl

arrived :
    prepare_wait_decision hashes waiting delivery 3 2 now true ≡ ok (resolved_wait, decision, false)
unfolding prepare_wait_decision validate_wait_delivery decide decided decision_of
    wait_decision_status lookup insert validate_durable_wait validate_wait_decisions valid_decisions
    valid_winner valid_wait_cancellation bad_address validate_wait_spec validate_wait_profile
    valid_runtime_text valid_text is_zero zero_time json_time text_discrete ℤ_discrete
arrived = refl

now_set : is_zero now ≡ false
unfolding is_zero zero_time
now_set = refl

-- The record stays valid at later revisions.
resolved_valid : validate_durable_wait hashes resolved_wait 6 ≡ ok tt
unfolding validate_durable_wait validate_wait_decisions valid_decisions valid_wait_decision
    valid_status contains valid_activity_digest valid_winner valid_wait_cancellation bad_address
    validate_wait_spec validate_wait_profile valid_runtime_text valid_text is_zero zero_time
    json_time lookup text_discrete ℤ_discrete
resolved_valid = refl

prepare-valid_example :
    (validate_durable_wait hashes resolved_wait 4 ≡ ok tt)
    × (lookup (text "d1") resolved_wait.decisions ≡ some decision)
    × (false ≡ true → resolved_wait ≡ waiting)
prepare-valid_example =
    prepare-valid hashes hashes-IsHex waiting resolved_wait delivery 3 2 now true decision false
      arrived

one_winner_example :
    ((accepted ≡ accepted)
      × (true ≡ true)
      × (waiting.winner_id ≡ [])
      × (resolved_wait.winner_id ≡ text "d1")
      × (is_armed resolved_wait.state ≡ false))
    ⊎ ((accepted ≢ accepted)
        × (resolved_wait.state ≡ waiting.state)
        × (resolved_wait.winner_id ≡ waiting.winner_id))
one_winner_example =
    one_winner hashes hashes-IsHex waiting resolved_wait delivery 3 2 now true decision arrived

redelivery_replays_example :
    prepare_wait_decision hashes resolved_wait
      (record delivery { expected_revision = 4 })
      6
      9
      now
      false
    ≡ ok (resolved_wait, decision, true)
redelivery_replays_example =
    redelivery_replays hashes hashes-IsHex waiting resolved_wait delivery
      (record delivery { expected_revision = 4 }) 3 6 2 9 now now true false decision false arrived
      resolved_valid refl (omega arith) (omega arith) refl now_set

abbrev request : WaitCancellation
request = record {
  generation = text "generation";
  id = text "k1";
  reason = text "order withdrawn";
  evidence = text "ticket 12";
}

abbrev canceled_wait : WaitRecord
canceled_wait = record waiting {
  state = flowy.Wait.Types.canceled;
  cancellation = some (record {
    id = text "k1";
    reason = text "order withdrawn";
    evidence = text "ticket 12";
    source_revision = 3;
    incarnation = 2;
    at = now;
  });
}

withdrawn : cancel_wait (text "run") 3 false waiting 3 request 2 now ≡ ok (canceled_wait, false)
unfolding cancel_wait check_cancellation validate_wait_cancellation_request canceled_record
    valid_runtime_text valid_text is_zero zero_time text_discrete
withdrawn = refl

cancel-valid_example :
    (is_canceled canceled_wait.state ≡ true)
    × (other_id canceled_wait.cancellation request ≡ false)
    × (differs canceled_wait.cancellation request ≡ false)
    × (validate_durable_wait hashes canceled_wait 4 ≡ ok tt)
cancel-valid_example =
    cancel-valid hashes waiting canceled_wait (text "run") 3 3 2 false request now false
      waiting_valid refl withdrawn

cancellation_replays_example :
    cancel_wait (text "run") 8 true canceled_wait 3 request 5 zero_time ≡ ok (canceled_wait, true)
cancellation_replays_example =
    cancellation_replays hashes waiting canceled_wait (text "run") 3 8 3 2 5 false true request now
      zero_time false withdrawn (omega arith)
