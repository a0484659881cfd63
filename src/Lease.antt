-- ===== src/Lease.antt =====
-- lease.go: MemoryLeaseManager, the in-process manager of thread leases, less its mutex: each
-- method runs under it. `now` is what its clock reads. An error made with `%w: %s` is the sentinel
-- joined with the text.
pub mod Fence
pub mod Examples
use flowy.Prelude.{
  ℕ, ◌+◌, ◌-◌, Bool, true, false, not, ◌&&◌, ◌||◌, [], Option, none, some, ◌==◌, ◌!=◌, nat_eq,
  if◌then◌else◌, ltb, ℤ, pos, leb_ℤ, i64_mod,
}
use flowy.Base.{
  Text, text_eq, text_discrete, Time, add, after, text, Err, host, joined, lease_held, lease_lost,
  thread_lease_busy, execution_capability, Result, ok, err, ◌>>◌, ◌>>=◌, reject_if,
}
use flowy.Execution.Types.{ExecutionLease}
use flowy.Store.{update, max_uint64}

-- leaseRecord
pub record LeaseRecord : Type 0 where
  pub owner : Text
  pub expires_at : Time
  pub incarnation : ℕ  -- uint64

pub record MemoryLeaseManager : Type 0 where
  pub leases : Text → Option LeaseRecord
  pub fences : Text → ℕ

unfoldable pub new_memory_lease_manager : MemoryLeaseManager
new_memory_lease_manager = record { leases = λ id. none; fences = λ id. 0 }

abbrev pub live : Option LeaseRecord → Time → Bool
live none now = false
live (some rec) now = after rec.expires_at now

abbrev pub owner_of : Option LeaseRecord → Text
owner_of none = []
owner_of (some rec) = rec.owner

-- The holder is empty, and the flag false, when no lease is live.
unfoldable pub holder : MemoryLeaseManager → Time → Text → Text × Bool
holder m now id =
    let rec = m.leases id in if live rec now then (owner_of rec, true) else ([], false)

unfoldable pub is_held : MemoryLeaseManager → Time → Text → Bool
unfolding holder
is_held m now id = (holder m now id).1

unfoldable pub acquire :
    MemoryLeaseManager → Time → Text → Text → ℤ → Result (ExecutionLease × MemoryLeaseManager)
unfolding text_discrete
acquire m now id owner ttl = do
  reject_if (id == [] || owner == [])
      (host (text "flowy: lease acquire requires threadID and owner"))
  reject_if (leb_ℤ ttl (pos 0)) (host (text "flowy: lease ttl must be positive"))
  let rec = m.leases id
  reject_if (live rec now && owner_of rec != owner) (joined lease_held (host (owner_of rec)))
  reject_if (live rec now) (joined thread_lease_busy (host (owner_of rec)))
  reject_if (m.fences id == max_uint64) execution_capability
  let fence = m.fences id + 1
  let lease : ExecutionLease = record {
    execution_id = id;
    owner = owner;
    incarnation = fence;
    expires_at = add now ttl;
  }
  ok (
    lease,
    record {
      leases =
          update m.leases id
            (some (record { owner = owner; expires_at = add now ttl; incarnation = fence }));
      fences = update m.fences id fence;
    },
  )

abbrev pub names : LeaseRecord → ExecutionLease → Bool
names rec lease = rec.owner == lease.owner && rec.incarnation == lease.incarnation

renewed :
    MemoryLeaseManager
    → Time
    → ExecutionLease
    → ℤ
    → Option LeaseRecord
    → Result (ExecutionLease × MemoryLeaseManager)
unfolding text_discrete
renewed m now lease ttl none = err lease_lost
renewed m now lease ttl (some rec) = do
  reject_if (not (after rec.expires_at now) || not (names rec lease)) lease_lost
  ok (
    record lease { expires_at = add now ttl },
    record m {
      leases = update m.leases lease.execution_id (some (record rec { expires_at = add now ttl }));
    },
  )

unfoldable pub renew :
    MemoryLeaseManager → Time → ExecutionLease → ℤ → Result (ExecutionLease × MemoryLeaseManager)
unfolding renewed text_discrete
renew m now lease ttl = do
  reject_if
      (lease.execution_id == [] || lease.owner == [] || lease.incarnation == 0 || leb_ℤ ttl (pos 0))
      lease_lost
  renewed m now lease ttl (m.leases lease.execution_id)

released : MemoryLeaseManager → ExecutionLease → Option LeaseRecord → Result MemoryLeaseManager
unfolding text_discrete
released m lease none = ok m
released m lease (some rec) = do
  reject_if (not (names rec lease)) lease_lost
  ok (record m { leases = update m.leases lease.execution_id none })

unfoldable pub release : MemoryLeaseManager → ExecutionLease → Result MemoryLeaseManager
unfolding released text_discrete
release m lease = do
  reject_if (lease.execution_id == [] || lease.owner == [] || lease.incarnation == 0) lease_lost
  released m lease (m.leases lease.execution_id)
