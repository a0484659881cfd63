-- ===== src/Store/Fencing.antt =====
-- Leases and fences: who may write. Every lease in the store carries the fence of its id, so a
-- lease that an acquisition has replaced can neither commit nor renew.
use flowy.Prelude.{
  ap, ℕ, ◌+◌, ◌≡◌, true, false, Option, some, ◌==◌, nat_eq, arith, ℤ, if◌then◌else◌,
}
use flowy.Base.{Text, text_eq, Time, Err, ok, after}
use flowy.Execution.Types.{Envelope, ExecutionLease}
use flowy.Execution.Codec.{Codec}
use flowy.Store.Commit.{commit-IsCommitted}
use flowy.Store.{
  Store, new_memory_execution_store, held, current_lease, commit_execution, acquire_execution,
  renew_execution, release_execution, publish,
}

module _ (c : Codec) where
  -- Every stored lease is the one of the last acquisition of its id.
  pub record IsFenced (s : Store c) : Type 0 where
    pub fence :
        (id : Text) (l : ExecutionLease) → s.leases id ≡ some l → l.incarnation ≡ s.fences id

  pub new-IsFenced : IsFenced (new_memory_execution_store c)
  unfolding new_memory_execution_store
  new-IsFenced = record { fence = λ id l h. cc }

  -- A lease that the store holds is the current one.
  pub held_fence :
      (s : Store c) (now : Time) (lease : ExecutionLease)
      → IsFenced s
      → held c s now lease ≡ true
      → lease.incarnation ≡ s.fences lease.execution_id
  unfolding held current_lease
  held_fence s now lease f h = grind (arith, f.fence)

  -- What a successful acquisition returns and writes.
  pub record IsAcquired (s t : Store c) (now : Time) (id : Text) (l : ExecutionLease) : Type 0 where
    pub names : l.execution_id ≡ id
    pub next_fence : l.incarnation ≡ s.fences id + 1
    pub free : after (current_lease c s id).expires_at now ≡ false
    pub leases : (j : Text) → t.leases j ≡ (if id == j then some l else s.leases j)
    pub fences : (j : Text) → t.fences j ≡ (if id == j then s.fences id + 1 else s.fences j)

  pub acquire-IsAcquired :
      (s t : Store c) (now again : Time) (ctx : Option Err) (id owner : Text) (ttl : ℤ)
      (l : ExecutionLease)
      → acquire_execution c s now again ctx id owner ttl ≡ ok (l, t)
      → IsAcquired s t now id l
  unfolding acquire_execution
  acquire-IsAcquired s t now again ctx id owner ttl l h = record {
    names = ground arith;
    next_fence = ground arith;
    free = ground arith;
    leases = λ j. ground arith;
    fences = λ j. ground arith;
  }

  pub acquire-IsFenced :
      (s t : Store c) (now again : Time) (ctx : Option Err) (id owner : Text) (ttl : ℤ)
      (l : ExecutionLease)
      → IsFenced s
      → acquire_execution c s now again ctx id owner ttl ≡ ok (l, t)
      → IsFenced t
  acquire-IsFenced s t now again ctx id owner ttl l f h =
      let a = acquire-IsAcquired s t now again ctx id owner ttl l h in
      record { fence = λ j m e. ground (arith, a.leases j, a.fences j, a.next_fence, f.fence j m) }

  pub renew-IsFenced :
      (s t : Store c) (now again : Time) (ctx : Option Err) (lease l : ExecutionLease) (ttl : ℤ)
      → IsFenced s
      → renew_execution c s now again ctx lease ttl ≡ ok (l, t)
      → IsFenced t
  unfolding renew_execution
  renew-IsFenced s t now again ctx lease l ttl f h = record {
    fence = λ j m e. ground (arith, held_fence s now lease f, f.fence j m);
  }

  pub release-IsFenced :
      (s t : Store c) (ctx : Option Err) (lease : ExecutionLease)
      → IsFenced s
      → release_execution c s ctx lease ≡ ok t
      → IsFenced t
  unfolding release_execution
  release-IsFenced s t ctx lease f h = record { fence = λ j m e. ground (arith, f.fence j m) }

  pub commit-leases :
      (s t : Store c) (now : Time) (ctx : Option Err) (expected : ℕ) (lease : ExecutionLease)
      (e r : Envelope)
      → commit_execution c s now ctx expected lease e ≡ ok (r, t)
      → (t.leases ≡ s.leases) × (t.fences ≡ s.fences)
  unfolding publish
  commit-leases s t now ctx expected lease e r h =
      let w = (commit-IsCommitted c s t now ctx expected lease e r h).written in
      (ap (λ u. u.leases) w, ap (λ u. u.fences) w)

  pub fences-renew :
      (s t : Store c) (now again : Time) (ctx : Option Err) (lease l : ExecutionLease) (ttl : ℤ)
      → renew_execution c s now again ctx lease ttl ≡ ok (l, t)
      → (id : Text) → t.fences id ≡ s.fences id
  unfolding renew_execution
  fences-renew s t now again ctx lease l ttl h id = ground arith

  pub fences-release :
      (s t : Store c) (ctx : Option Err) (lease : ExecutionLease)
      → release_execution c s ctx lease ≡ ok t
      → (id : Text) → t.fences id ≡ s.fences id
  unfolding release_execution
  fences-release s t ctx lease h id = ground arith
