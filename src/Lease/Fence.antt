-- ===== src/Lease/Fence.antt =====
-- Exclusion and fencing of the leases of MemoryLeaseManager, over whole runs.
use flowy.Prelude.{
  ◌+◌, ◌≤◌, ◌<◌, ◌≡◌, false, ◌||◌, [], some, ◌==◌, nat_eq, if◌then◌else◌, arith, ℤ, ◌⊎◌, inl, inr,
  Option-cases, Bool-cases,
}
use flowy.Base.{Text, text_eq, Time, ok, err, lease_lost}
use flowy.Execution.Types.{ExecutionLease}
use flowy.Lease.{
  LeaseRecord, MemoryLeaseManager, new_memory_lease_manager, holder, acquire, renew, release,
}

-- The record of every thread carries its fence.
pub record IsFenced (m : MemoryLeaseManager) : Type 0 where
  pub fence : (id : Text) (l : LeaseRecord) → m.leases id ≡ some l → l.incarnation ≡ m.fences id

pub new-IsFenced : IsFenced new_memory_lease_manager
unfolding new_memory_lease_manager
new-IsFenced = record { fence = λ id l h. cc }

-- One successful call, at any clock reading.
pub data Step (m n : MemoryLeaseManager) : Type 0 where
  acquired :
      (now : Time) (id owner : Text) (ttl : ℤ) (l : ExecutionLease)
      → acquire m now id owner ttl ≡ ok (l, n)
      → Step m n
  renewed :
      (now : Time) (lease l : ExecutionLease) (ttl : ℤ)
      → renew m now lease ttl ≡ ok (l, n)
      → Step m n
  released : (lease : ExecutionLease) → release m lease ≡ ok n → Step m n

pub data Reach (m : MemoryLeaseManager) : MemoryLeaseManager → Type 0 where
  here : Reach m m
  next : {n o : MemoryLeaseManager} → Reach m n → Step n o → Reach m o

-- What a successful acquisition found and wrote.
record IsAcquired (m n : MemoryLeaseManager) (now : Time) (id : Text) (l : ExecutionLease)
    : Type 0 where
  names_id : l.execution_id ≡ id
  next_fence : l.incarnation ≡ m.fences id + 1
  free : holder m now id ≡ ([], false)
  fences : (j : Text) → n.fences j ≡ (if id == j then m.fences id + 1 else m.fences j)

acquire-IsAcquired :
    (m n : MemoryLeaseManager) (now : Time) (id owner : Text) (ttl : ℤ) (l : ExecutionLease)
    → acquire m now id owner ttl ≡ ok (l, n)
    → IsAcquired m n now id l
unfolding acquire holder
acquire-IsAcquired m n now id owner ttl l h = record {
  names_id = ground arith;
  next_fence = ground arith;
  free = ground arith;
  fences = λ j. ground arith;
}

Step-IsFenced : (m n : MemoryLeaseManager) → Step m n → IsFenced m → IsFenced n
unfolding acquire renew release
Step-IsFenced m n (acquired now id owner ttl l h) f = record {
  fence = λ j r e. ground (arith, f.fence j r);
}
Step-IsFenced m n (renewed now lease l ttl h) f = record { fence = λ j r e. grind (arith, f.fence) }
Step-IsFenced m n (released lease h) f = record { fence = λ j r e. ground (arith, f.fence j r) }

pub Reach-IsFenced : (m n : MemoryLeaseManager) → Reach m n → IsFenced m → IsFenced n
Reach-IsFenced m n here f = f
Reach-IsFenced m n (next {n = k} r st) f = Step-IsFenced k n st (Reach-IsFenced m k r f)

fences-Step : (m n : MemoryLeaseManager) (id : Text) → Step m n → m.fences id ≤ n.fences id
unfolding renew release
fences-Step m n id (acquired now j owner ttl l h) =
    ground (arith, (acquire-IsAcquired m n now j owner ttl l h).fences id)
fences-Step m n id (renewed now lease l ttl h) = ground arith
fences-Step m n id (released lease h) = ground arith

pub fences-Reach : (m n : MemoryLeaseManager) (id : Text) → Reach m n → m.fences id ≤ n.fences id
fences-Reach m n id here = omega arith
fences-Reach m n id (next {n = k} r st) =
    omega (arith, fences-Reach m k id r, fences-Step k n id st)

module _ (m n o p : MemoryLeaseManager) (now later : Time) (id owner owner' : Text) (ttl ttl' : ℤ)
    (old new : ExecutionLease) (first : acquire m now id owner ttl ≡ ok (old, n)) (run : Reach n o)
    (second : acquire o later id owner' ttl' ≡ ok (new, p)) where
  -- Between two acquisitions of a thread, whatever calls lie between them, the incarnation grows, and
  -- nobody holds the thread at the clock reading of the second, right before it.
  pub acquisitions_exclude : (old.incarnation < new.incarnation) × (holder o later id ≡ ([], false))
  acquisitions_exclude =
      let a = acquire-IsAcquired m n now id owner ttl old first in
      let b = acquire-IsAcquired o p later id owner' ttl' new second in
      (ground (arith, a.next_fence, b.next_fence, a.fences id, fences-Reach n o id run), b.free)

-- In every run from a manager whose records carry the fences, a lease whose incarnation is below the
-- fence of its thread is not renewed, and its release either fails with ErrLeaseLost or leaves the
-- manager as it is.
pub old_lease_powerless :
    (m n : MemoryLeaseManager) (now : Time) (ttl : ℤ) (old : ExecutionLease)
    → IsFenced m
    → Reach m n
    → old.incarnation < m.fences old.execution_id
    → (renew n now old ttl ≡ err lease_lost)
      × ((release n old ≡ err lease_lost) ⊎ (release n old ≡ ok n))
unfolding renew release
old_lease_powerless m n now ttl old f run older =
    let fn = Reach-IsFenced m n run f in
    let up = fences-Reach m n old.execution_id run in
    let blank = old.execution_id == [] || old.owner == [] || old.incarnation == 0 in
    elim (Option-cases (n.leases old.execution_id)) [
      | inl e ↦ (
        ground (arith, e),
        elim (Bool-cases blank) [
          | inl b ↦ inl (ground (arith, b))
          | inr b ↦ inr (ground (arith, b, e))
        ],
      )
      | inr (rec, e) ↦
          let newer = fn.fence old.execution_id rec e in
          (ground (arith, e, newer, older, up), inl (ground (arith, e, newer, older, up)))
    ]
