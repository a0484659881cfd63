-- ===== src/Lease/Examples.antt =====
-- Runs of the lease manager on concrete threads.
use flowy.Prelude.{ℕ, ◌<◌, ◌≡◌, refl, true, false, arith, [], pos, ◌⊎◌, none}
use flowy.Base.{Text, Time, text, text_discrete, Result, ok, err, lease_lost, fails}
use flowy.Execution.Types.{ExecutionLease}
use flowy.Lease.{MemoryLeaseManager, new_memory_lease_manager, holder, acquire, renew, release}
use flowy.Lease.Fence.{
  IsFenced, new-IsFenced, here, next, acquired, acquisitions_exclude, old_lease_powerless,
  Reach-IsFenced,
}

abbrev thread : Text
thread = text "t"

abbrev noon : Time
noon = 5000000000

abbrev lease_at : Text → ℕ → Time → ExecutionLease
lease_at owner fence expiry = record {
  execution_id = text "t";
  owner = owner;
  incarnation = fence;
  expires_at = expiry;
}

abbrev manager_of : Result (ExecutionLease × MemoryLeaseManager) → MemoryLeaseManager
manager_of (ok p) = p.1
manager_of (err e) = record { leases = λ id. none; fences = λ id. 0 }

abbrev first : MemoryLeaseManager
first = manager_of (acquire new_memory_lease_manager noon thread (text "a") (pos 10))

abbrev third : MemoryLeaseManager
third = manager_of (acquire first (5000000020) thread (text "b") (pos 10))

first_acquired :
    acquire new_memory_lease_manager noon thread (text "a") (pos 10)
    ≡ ok (lease_at (text "a") 1 5000000010, first)
unfolding acquire new_memory_lease_manager text_discrete
first_acquired = refl

third_acquired :
    acquire first 5000000020 thread (text "b") (pos 10)
    ≡ ok (lease_at (text "b") 2 5000000030, third)
unfolding acquire new_memory_lease_manager text_discrete
third_acquired = refl

-- While the first lease is live, nobody else gets the thread, and its owner does not get it twice.
refusals :
    (fails (acquire first 5000000005 thread (text "b") (pos 10)) ≡ true)
    × (fails (acquire first 5000000005 thread (text "a") (pos 10)) ≡ true)
    × (holder first 5000000005 thread ≡ (text "a", true))
    × (holder first 5000000010 thread ≡ ([], false))
unfolding acquire new_memory_lease_manager holder text_discrete
refusals = (refl, refl, refl, refl)

acquisitions_exclude_example : (1 < 2) × (holder first 5000000020 thread ≡ ([], false))
acquisitions_exclude_example =
    acquisitions_exclude new_memory_lease_manager first first third noon 5000000020 thread
      (text "a") (text "b") (pos 10) (pos 10) (lease_at (text "a") 1 5000000010)
      (lease_at (text "b") 2 5000000030) first_acquired here third_acquired

third-IsFenced : IsFenced third
third-IsFenced =
    Reach-IsFenced new_memory_lease_manager third
      (next (next here (acquired noon thread (text "a") (pos 10) _ first_acquired))
        (acquired 5000000020 thread (text "b") (pos 10) _ third_acquired))
      new-IsFenced

older : 1 < third.fences thread
unfolding acquire new_memory_lease_manager text_discrete
older = omega arith

old_lease_powerless_example :
    (renew third 5000000021 (lease_at (text "a") 1 5000000010) (pos 5) ≡ err lease_lost)
    × ((release third (lease_at (text "a") 1 5000000010) ≡ err lease_lost)
        ⊎ (release third (lease_at (text "a") 1 5000000010) ≡ ok third))
old_lease_powerless_example =
    old_lease_powerless third third 5000000021 (pos 5) (lease_at (text "a") 1 5000000010)
      third-IsFenced here older
