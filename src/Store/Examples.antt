-- ===== src/Store/Examples.antt =====
-- A run of the store on one execution, with envelopes stored as they are and a constant digest.
use flowy.Prelude.{
  ℕ, ◌+◌, ◌≡◌, refl, true, arith, none, some, [], ◌∷◌, if◌then◌else◌, pos, nat_eq, int_eq,
}
use flowy.Base.{
  Text, Time, text, text_discrete, zero_time, Result, ok, err, lease_lost, fails,
  valid_runtime_text, valid_text,
}
use flowy.Execution.Types.{Envelope, ExecutionLease, replay_mode_discrete}
use flowy.Execution.Codec.{Codec}
use flowy.Execution.Sample.{envelope}
use flowy.Execution.Validate.{
  validate_descriptor, seal_execution_envelope, validate_execution_integrity, valid_migration_text,
  envelope_digest,
}
use flowy.Execution.Transition.{validate_fork_transition, validate_rollover_transition}
use flowy.Store.{
  Store, new_memory_execution_store, acquire_execution, renew_execution, commit_execution,
  current_lease, held, load_execution, decode_execution, publish,
}
use flowy.Store.Fencing.{IsFenced, new-IsFenced}
use flowy.Store.Step.{Reach, here, next, acquire, commit}
use flowy.Store.Run.{stale_lease_lost, Reach-IsFenced}
use flowy.Store.History.{new-IsIndexed, IsKept, Reach-IsKept}
use flowy.Store.Once.{revision_committed_once}
use flowy.Store.Load.{IsFaithful, commit_loads}

-- A text that is not UTF-8 is coerced.
abbrev coerced : Text → Text
coerced s = if valid_text s then s else 0xef ∷ 0xbf ∷ 0xbd ∷ []

-- The status of the handoff is coerced as encoding/json does.
abbrev plain : Codec
plain = record {
  Encoded = Envelope;
  encode = λ e. ok (record e {
    run_meta = record e.run_meta { handoff_status = coerced e.run_meta.handoff_status };
  });
  decode = λ e. some e;
  digest = λ e. ok (text "digest");
  request_digest = λ source old new target decision policy projection. text "request";
}

abbrev lease_of : Text → ℕ → Time → ExecutionLease
lease_of owner fence expiry = record {
  execution_id = text "run";
  owner = owner;
  incarnation = fence;
  expires_at = expiry;
}

abbrev noon : Time
noon = 9223372036854775808000000000 + 100

abbrev store_of {ℓ} : {A : Type ℓ} → Result (A × Store plain) → Store plain
store_of (ok p) = p.1
store_of (err e) = new_memory_execution_store plain

abbrev empty : Store plain
empty = new_memory_execution_store plain

abbrev leased : Store plain
leased = store_of (acquire_execution plain empty noon noon none (text "run") (text "a") (pos 10))

abbrev committed : Store plain
committed =
    store_of
      (commit_execution plain leased (noon + 1) none 0 (lease_of (text "a") 1 (noon + 10)) envelope)

abbrev taken : Store plain
taken = store_of (
    acquire_execution plain committed (noon + 20) (noon + 20) none (text "run") (text "b") (pos 10))

leased_acquired :
    acquire_execution plain empty noon noon none (text "run") (text "a") (pos 10)
    ≡ ok (lease_of (text "a") 1 (noon + 10), leased)
unfolding acquire_execution current_lease new_memory_execution_store zero_time text_discrete
leased_acquired = refl

abbrev sealed : Envelope
sealed = record envelope { revision = 1; digest = text "digest" }

committed_at_0 :
    commit_execution plain leased (noon + 1) none 0 (lease_of (text "a") 1 (noon + 10)) envelope
    ≡ ok (sealed, committed)
unfolding commit_execution held publish decode_execution validate_descriptor seal_execution_envelope
    validate_execution_integrity valid_migration_text envelope_digest validate_fork_transition
    validate_rollover_transition acquire_execution current_lease new_memory_execution_store
    zero_time text_discrete valid_runtime_text valid_text replay_mode_discrete
committed_at_0 = refl

taken_acquired :
    acquire_execution plain committed (noon + 20) (noon + 20) none (text "run") (text "b") (pos 10)
    ≡ ok (lease_of (text "b") 2 (noon + 30), taken)
unfolding commit_execution held publish decode_execution validate_descriptor seal_execution_envelope
    validate_execution_integrity valid_migration_text envelope_digest validate_fork_transition
    validate_rollover_transition acquire_execution current_lease new_memory_execution_store
    zero_time text_discrete valid_runtime_text valid_text replay_mode_discrete
taken_acquired = refl

run_to_committed : Reach plain empty committed
run_to_committed =
    next (next here (acquire noon noon none (text "run") (text "a") (pos 10) _ leased_acquired))
      (commit (noon + 1) none 0 (lease_of (text "a") 1 (noon + 10)) envelope sealed committed_at_0)

committed-IsFenced : IsFenced plain committed
committed-IsFenced = Reach-IsFenced plain empty committed run_to_committed (new-IsFenced plain)

-- The first owner comes back after the second one took the execution over.
stale_lease_lost_example :
    (commit_execution plain taken (noon + 21) none 1 (lease_of (text "a") 1 (noon + 10)) envelope
      ≡ err lease_lost)
    × (renew_execution plain taken
          (noon + 21)
          (noon + 22)
          none
          (lease_of (text "a") 1 (noon + 10))
          (pos 5)
        ≡ err lease_lost)
stale_lease_lost_example =
    stale_lease_lost plain committed taken taken (noon + 20) (noon + 20) (noon + 21) (noon + 22)
      none (text "run") (text "b") (pos 10) (lease_of (text "b") 2 (noon + 30))
      (lease_of (text "a") 1 (noon + 10)) 1 envelope 4 committed-IsFenced taken_acquired here refl
      (omega arith) refl

Reach-IsFenced_example : IsFenced plain committed
Reach-IsFenced_example = Reach-IsFenced plain empty committed run_to_committed (new-IsFenced plain)

leased-IsKept : IsKept plain empty leased
leased-IsKept =
    Reach-IsKept plain empty leased
      (next here (acquire noon noon none (text "run") (text "a") (pos 10) _ leased_acquired))
      (new-IsIndexed plain)

Reach-IsKept_example : IsKept plain empty committed
Reach-IsKept_example = Reach-IsKept plain empty committed run_to_committed (new-IsIndexed plain)

revision_committed_once_example :
    fails
      (commit_execution plain taken (noon + 21) none 0 (lease_of (text "b") 2 (noon + 30)) envelope)
    ≡ true
revision_committed_once_example =
    revision_committed_once plain leased committed taken (noon + 1) (noon + 21) none none 0
      (lease_of (text "a") 1 (noon + 10)) (lease_of (text "b") 2 (noon + 30)) envelope envelope
      sealed leased-IsKept.indexed committed_at_0
      (next here
        (acquire (noon + 20) (noon + 20) none (text "run") (text "b") (pos 10) _ taken_acquired))
      refl

plain-IsFaithful : IsFaithful plain
plain-IsFaithful = record {
  keeps_fork = λ e d b valid h read. ground (arith, h, read);
  keeps_no_rollover = λ e d b missing h read. ground (arith, missing, h, read);
  keeps_no_transfer = λ e d b missing h read. ground (arith, missing, h, read);
}

commit_loads_example : load_execution plain committed none (text "run") ≡ ok sealed
commit_loads_example =
    commit_loads plain leased committed (noon + 1) none 0 (lease_of (text "a") 1 (noon + 10))
      envelope sealed plain-IsFaithful
      (next here (acquire noon noon none (text "run") (text "a") (pos 10) _ leased_acquired))
      committed_at_0
