-- ===== src/Store/Run.antt =====
-- Fencing over whole runs.
use flowy.Prelude.{ℕ, ◌≤◌, ◌<◌, ◌≡◌, false, Option, none, ◌==◌, nat_eq, arith, ℤ, ap}
use flowy.Base.{Text, text_eq, Time, Err, ok, err, lease_lost}
use flowy.Execution.Types.{Envelope, ExecutionLease}
use flowy.Execution.Codec.{Codec}
use flowy.Store.{Store, held, commit_execution, acquire_execution, renew_execution, max_uint64}
use flowy.Store.Fencing.{
  IsFenced, held_fence, acquire-IsAcquired, acquire-IsFenced, renew-IsFenced, release-IsFenced,
  commit-leases, fences-renew, fences-release,
}
use flowy.Store.Step.{Step, Reach, acquire, renew, release, commit, here, next}

module _ (c : Codec) where
  Step-IsFenced : (s t : Store c) → Step c s t → IsFenced c s → IsFenced c t
  Step-IsFenced s t (acquire now again ctx id owner ttl l h) f =
      acquire-IsFenced c s t now again ctx id owner ttl l f h
  Step-IsFenced s t (renew now again ctx lease l ttl h) f =
      renew-IsFenced c s t now again ctx lease l ttl f h
  Step-IsFenced s t (release ctx lease h) f = release-IsFenced c s t ctx lease f h
  Step-IsFenced s t (commit now ctx expected lease e r h) f =
      let (leases, fences) = commit-leases c s t now ctx expected lease e r h in
      record {
        fence =
            λ id l e. ground (arith, f.fence id l, ap (λ m. m id) leases, ap (λ m. m id) fences);
      }

  -- In every run of acquisitions, renewals, releases and commits, from a store in which every lease
  -- carries the fence of its execution, every lease carries that fence again.
  pub Reach-IsFenced : (s t : Store c) → Reach c s t → IsFenced c s → IsFenced c t
  Reach-IsFenced s t here f = f
  Reach-IsFenced s t (next {t = m} r st) f = Step-IsFenced m t st (Reach-IsFenced s m r f)

  fences-Step : (s t : Store c) (id : Text) → Step c s t → s.fences id ≤ t.fences id
  fences-Step s t id (acquire now again ctx j owner ttl l h) =
      ground (arith, (acquire-IsAcquired c s t now again ctx j owner ttl l h).fences id)
  fences-Step s t id (renew now again ctx lease l ttl h) =
      ground (arith, fences-renew c s t now again ctx lease l ttl h id)
  fences-Step s t id (release ctx lease h) = ground (arith, fences-release c s t ctx lease h id)
  fences-Step s t id (commit now ctx expected lease e r h) =
      ground (arith, ap (λ m. m id) (commit-leases c s t now ctx expected lease e r h).1)

  pub fences-Reach : (s t : Store c) (id : Text) → Reach c s t → s.fences id ≤ t.fences id
  fences-Reach s t id here = omega arith
  fences-Reach s t id (next {t = m} r st) =
      omega (arith, fences-Reach s m id r, fences-Step m t id st)

  stale_not_held :
      (s : Store c) (now : Time) (old : ExecutionLease)
      → IsFenced c s
      → old.incarnation < s.fences old.execution_id
      → held c s now old ≡ false
  stale_not_held s now old f h = ground (arith, held_fence c s now old f)

  -- Once an execution has been acquired anew, an older lease of it is lost for good: in every run
  -- that follows, at any clock reading, a commit and a renewal under the older incarnation are
  -- refused with ErrLeaseLost. The store's leases carry its fences, the context is not canceled,
  -- the expected revision is not the last of a uint64 and the renewal's duration is positive.
  pub stale_lease_lost :
      (s t u : Store c) (now again later last : Time) (ctx : Option Err) (id owner : Text) (ttl : ℤ)
      (new old : ExecutionLease) (expected : ℕ) (e : Envelope) (extension : ℕ)
      → IsFenced c s
      → acquire_execution c s now again ctx id owner ttl ≡ ok (new, t)
      → Reach c t u
      → old.execution_id ≡ id
      → old.incarnation < new.incarnation
      → (expected == max_uint64) ≡ false
      → (commit_execution c u later none expected old e ≡ err lease_lost)
        × (renew_execution c u later last none old (ℤ.pos (ℕ.suc extension)) ≡ err lease_lost)
  unfolding commit_execution renew_execution
  stale_lease_lost s t u now again later last ctx id owner ttl new old expected e extension f h run
        same older range =
      let a = acquire-IsAcquired c s t now again ctx id owner ttl new h in
      let ft = acquire-IsFenced c s t now again ctx id owner ttl new f h in
      let fu = Reach-IsFenced t u run ft in
      let up = fences-Reach t u id run in
      let lost : held c u later old ≡ false =
        stale_not_held u later old fu (ground (arith, a.fences id, a.next_fence)) in
      (rw (range, lost), ground (arith, lost))
