-- ===== src/Store.antt =====
-- testutil/execution_store.go: the conformance store of executions. A Go map is a function from its
-- keys, with the zero value, or `none`, where a key is missing; `now` is a reading of the store's clock and `ctx`
-- the error of the context. A method that fails has changed nothing yet, so its result is the new
-- store beside the value, or an error. CommitRollover and RetainExecution are not modelled.
pub mod Commit
pub mod Fencing
pub mod Step
pub mod Run
pub mod History
pub mod Once
pub mod Plain
pub mod Load
pub mod Examples
use flowy.Prelude.{
  ℕ, ◌+◌, ◌-◌, Bool, true, false, not, ◌&&◌, ◌||◌, [], Option, none, some, ◌==◌, ◌!=◌, Eq, nat_eq,
  ltb, if◌then◌else◌, ℤ, pos, leb_ℤ, i64_mod,
}
use flowy.Base.{
  Text, text_eq, text_discrete, Time, add, after, zero_time, text, Err, Result, ok, err, host,
  execution_capability, lease_lost, lease_held, thread_lease_busy, thread_not_found,
  concurrency_conflict, invalid_snapshot, checkpoint_unavailable, execution_corrupt, joined, ◌>>=◌,
  ◌>>◌, reject_if,
}
use flowy.Execution.Types.{Envelope, ExecutionLease, ForkLineage, RolloverReceipt}
use flowy.Execution.Codec.{Codec}
use flowy.Execution.Validate.{
  validate_descriptor, seal_execution_envelope, validate_execution_integrity,
}
use flowy.Execution.Transition.{
  validate_fork_transition, validate_fork_anchor, validate_rollover_transition,
  validate_lifecycle_anchors,
}

-- `m[key] = value`
abbrev pub update {ℓ} : {V : Type ℓ} → (Text → V) → Text → V → Text → V
update m key value k = if key == k then value else m k

abbrev pub update_at {ℓ} : {V : Type ℓ} → (ℕ → V) → ℕ → V → ℕ → V
update_at m key value k = if key == k then value else m k

abbrev pub max_uint64 : ℕ
max_uint64 = i64_mod - 1

abbrev pub check_context : Option Err → Result (Unit {0})
check_context none = ok tt
check_context (some e) = err e

module _ (c : Codec) where
  open c use {Encoded, encode, decode}

  -- MemoryExecutionStore, less its mutex: each method runs under it.
  pub record Store : Type 0 where
    pub history : Text → ℕ → Option Encoded
    pub heads : Text → ℕ
    pub leases : Text → Option ExecutionLease
    pub fences : Text → ℕ
    pub lineage : Text → Option ForkLineage
    pub incoming : Text → Option RolloverReceipt
    pub outgoing : Text → Option RolloverReceipt

  unfoldable pub new_memory_execution_store : Store
  new_memory_execution_store = record {
    history = λ id revision. none;
    heads = λ id. 0;
    leases = λ id. none;
    fences = λ id. 0;
    lineage = λ id. none;
    incoming = λ id. none;
    outgoing = λ id. none;
  }

  unfoldable pub decode_execution : Encoded → Text → ℕ → Result Envelope
  decode_execution bytes id revision = elim (decode bytes) [
    | none ↦ err execution_corrupt
    | some e ↦ do validate_execution_integrity c e id revision; ok e
  ]

  -- JSON is never empty, so `len(data) == 0` is a missing entry.
  unfoldable pub decode_anchored_execution : Store → Option Encoded → Text → ℕ → Result Envelope
  decode_anchored_execution s none id revision = err checkpoint_unavailable
  decode_anchored_execution s (some bytes) id revision = do
    e ← decode_execution bytes id revision
    validate_fork_anchor e (s.lineage id)
    validate_lifecycle_anchors c e (s.incoming id) (s.outgoing id)
    ok e

  unfoldable pub load_execution : Store → Option Err → Text → Result Envelope
  load_execution s ctx id = do
    check_context ctx
    reject_if (s.heads id == 0) thread_not_found
    decode_anchored_execution s (s.history id (s.heads id)) id (s.heads id)

  unfoldable pub load_checkpoint : Store → Option Err → Text → ℕ → Result Envelope
  load_checkpoint s ctx id revision = do
    reject_if (revision == 0) invalid_snapshot
    check_context ctx
    reject_if (ltb (s.heads id) revision) thread_not_found
    decode_anchored_execution s (s.history id revision) id revision

  -- The zero ExecutionLease stands for a missing one.
  unfoldable pub current_lease : Store → Text → ExecutionLease
  current_lease s id = elim (s.leases id) [
    | none ↦ record { execution_id = []; owner = []; incarnation = 0; expires_at = zero_time }
    | some l ↦ l
  ]

  unfoldable pub held : Store → Time → ExecutionLease → Bool
  unfolding text_discrete
  held s now lease =
      let current = current_lease s lease.execution_id in
      lease.incarnation != 0
      && current.owner == lease.owner
      && current.incarnation == lease.incarnation
      && after current.expires_at now

  pub predecessor : Store → Text → ℕ → Result (Option Envelope)
  predecessor s id revision =
      if ltb 0 revision
      then (decode_anchored_execution s (s.history id revision) id revision >>= λ e. ok (some e))
      else ok none

  -- The writes at the end of CommitExecution.
  unfoldable pub publish : Store → Text → ℕ → Encoded → Envelope → Store
  publish s id expected bytes result = record s {
    history = update s.history id (update_at (s.history id) (expected + 1) (some bytes));
    heads = update s.heads id (expected + 1);
    lineage =
        if expected == 0
        then elim result.fork [ none ↦ s.lineage | some f ↦ update s.lineage id (some f) ]
        else s.lineage;
  }

  unfoldable pub commit_execution :
      Store → Time → Option Err → ℕ → ExecutionLease → Envelope → Result (Envelope × Store)
  unfolding text_discrete predecessor
  commit_execution s now ctx expected lease envelope = do
    reject_if (expected == max_uint64) execution_capability
    check_context ctx
    reject_if (not (held s now lease) || envelope.execution_id != lease.execution_id) lease_lost
    validate_descriptor envelope.descriptor
    reject_if (envelope.progress.execution_pointer == []) invalid_snapshot
    reject_if (s.heads envelope.execution_id != expected) concurrency_conflict
    previous ← predecessor s envelope.execution_id expected
    validate_rollover_transition previous envelope
    validate_fork_transition previous envelope
    sealed ← seal_execution_envelope c (record envelope { revision = expected + 1 })
    bytes ← encode sealed
    result ← decode_execution bytes envelope.execution_id (expected + 1)
    ok (result, publish s envelope.execution_id expected bytes result)

  abbrev pub invalid_lease : Err
  invalid_lease = host (text "flowy: invalid lease acquisition")

  abbrev pub invalid_renewal : Err
  invalid_renewal = host (text "flowy: invalid lease renewal")

  -- `again` is the clock's second reading, for the expiry.
  unfoldable pub acquire_execution :
      Store → Time → Time → Option Err → Text → Text → ℤ → Result (ExecutionLease × Store)
  unfolding text_discrete
  acquire_execution s now again ctx id owner ttl = do
    check_context ctx
    reject_if (id == [] || owner == [] || leb_ℤ ttl (pos 0)) invalid_lease
    let current = current_lease s id
    reject_if (after current.expires_at now && current.owner == owner) thread_lease_busy
    reject_if (after current.expires_at now) lease_held
    reject_if (s.fences id == max_uint64) execution_capability
    let fence = s.fences id + 1
    let lease : ExecutionLease = record {
      execution_id = id;
      owner = owner;
      incarnation = fence;
      expires_at = add again ttl;
    }
    ok (
      lease,
      record s { fences = update s.fences id fence; leases = update s.leases id (some lease) },
    )

  unfoldable pub renew_execution :
      Store → Time → Time → Option Err → ExecutionLease → ℤ → Result (ExecutionLease × Store)
  renew_execution s now again ctx lease ttl = do
    check_context ctx
    reject_if (leb_ℤ ttl (pos 0)) invalid_renewal
    reject_if (not (held s now lease)) lease_lost
    let renewed : ExecutionLease = record lease { expires_at = add again ttl }
    ok (renewed, record s { leases = update s.leases lease.execution_id (some renewed) })

  -- A missing lease is released already, if its fence is still the lease's own.
  released : Store → ExecutionLease → Option ExecutionLease → Result Store
  unfolding text_discrete
  released s lease none =
      if s.fences lease.execution_id == lease.incarnation && lease.incarnation != 0
      then ok s
      else err lease_lost
  released s lease (some current) =
      if current.owner != lease.owner || current.incarnation != lease.incarnation
      then err lease_lost
      else ok (record s { leases = update s.leases lease.execution_id none })

  unfoldable pub release_execution : Store → Option Err → ExecutionLease → Result Store
  unfolding released
  release_execution s ctx lease = do
    check_context ctx
    released s lease (s.leases lease.execution_id)
