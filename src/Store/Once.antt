-- ===== src/Store/Once.antt =====
-- Optimistic concurrency over whole runs: of the writers at one revision, one succeeds.
use flowy.Prelude.{ℕ, ◌+◌, ◌≡◌, true, Option, nat_eq, arith, ap}
use flowy.Base.{text_eq, Time, Err, ok, fails, fails_if_refuted}
use flowy.Execution.Types.{Envelope, ExecutionLease}
use flowy.Execution.Codec.{Codec}
use flowy.Store.{Store, commit_execution}
use flowy.Store.Commit.{commit-IsCommitted}
use flowy.Store.Step.{Reach}
use flowy.Store.History.{IsIndexed, Reach-IsKept, history-commit, commit-IsKept}

module _ (c : Codec) where
  head_past :
      (s t : Store c) (now : Time) (ctx : Option Err) (expected : ℕ) (lease : ExecutionLease)
      (e r : Envelope)
      → commit_execution c s now ctx expected lease e ≡ ok (r, t)
      → t.heads e.execution_id ≡ expected + 1
  head_past s t now ctx expected lease e r h =
      let (history, heads) = history-commit c s t now ctx expected lease e r h in
      let k = commit-IsCommitted c s t now ctx expected lease e r h in
      ground (arith, heads e.execution_id, k.at_head)

  -- After a commit of an execution at an expected revision, to a store
  -- that is indexed by its heads, every later commit of that execution at the same expected revision
  -- fails, whatever calls lie between, and whatever its lease, clock, context and envelope.
  pub revision_committed_once :
      (s t u : Store c) (now later : Time) (ctx ctx' : Option Err) (expected : ℕ)
      (lease lease' : ExecutionLease) (e e' r : Envelope)
      → IsIndexed c s
      → commit_execution c s now ctx expected lease e ≡ ok (r, t)
      → Reach c t u
      → e'.execution_id ≡ e.execution_id
      → fails (commit_execution c u later ctx' expected lease' e') ≡ true
  revision_committed_once s t u now later ctx ctx' expected lease lease' e e' r f h run same =
      let it = commit-IsKept c s t now ctx expected lease e r h f in
      let kept = Reach-IsKept c t u run it.indexed in
      let past = head_past s t now ctx expected lease e r h in
      let grown = kept.grown e.execution_id in
      fails_if_refuted (commit_execution c u later ctx' expected lease' e') (λ a again.
        let k = commit-IsCommitted c u a.1 later ctx' expected lease' e' a.0 again in
        ground (arith, k.at_head, past, grown, ap u.heads same))
