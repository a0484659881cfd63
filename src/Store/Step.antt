-- ===== src/Store/Step.antt =====
-- The store under any interleaving of its callers that acquire, renew, release and commit.
-- CommitRollover and RetainExecution, which deletes revisions, are no steps here. Each method runs
-- under the mutex, so a run is a sequence of successful calls, at any clock readings.
use flowy.Prelude.{ℕ, ◌≡◌, Option, ℤ}
use flowy.Base.{Text, Time, Err, ok}
use flowy.Execution.Types.{Envelope, ExecutionLease}
use flowy.Execution.Codec.{Codec}
use flowy.Store.{Store, commit_execution, acquire_execution, renew_execution, release_execution}

-- One successful call.
pub data Step (c : Codec) (s : Store c) (t : Store c) : Type 0 where
  acquire :
      (now again : Time) (ctx : Option Err) (id owner : Text) (ttl : ℤ) (l : ExecutionLease)
      → acquire_execution c s now again ctx id owner ttl ≡ ok (l, t)
      → Step c s t
  renew :
      (now again : Time) (ctx : Option Err) (lease l : ExecutionLease) (ttl : ℤ)
      → renew_execution c s now again ctx lease ttl ≡ ok (l, t)
      → Step c s t
  release :
      (ctx : Option Err) (lease : ExecutionLease)
      → release_execution c s ctx lease ≡ ok t
      → Step c s t
  commit :
      (now : Time) (ctx : Option Err) (expected : ℕ) (lease : ExecutionLease) (e r : Envelope)
      → commit_execution c s now ctx expected lease e ≡ ok (r, t)
      → Step c s t

pub data Reach (c : Codec) (s : Store c) : Store c → Type 0 where
  here : Reach c s s
  next : {t u : Store c} → Reach c s t → Step c t u → Reach c s u
