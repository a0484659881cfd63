-- ===== src/Store/History.antt =====
-- Revisions: what a commit writes, and what it leaves.
use flowy.Prelude.{
  ℕ, zero, suc, ◌+◌, ◌≤◌, ◌<◌, ◌≡◌, refl, sym, subst, ap, ◌∙◌, Bool, true, false, not, Option, none,
  some, ◌==◌, nat_eq, arith, if◌then◌else◌,
}
use flowy.Base.{Text, text_eq, Time, Err, ok}
use flowy.Execution.Types.{Envelope, ExecutionLease}
use flowy.Execution.Codec.{Codec}
use flowy.Store.{
  Store, new_memory_execution_store, commit_execution, acquire_execution, renew_execution,
  release_execution, publish,
}
use flowy.Store.Commit.{commit-IsCommitted}
use flowy.Store.Step.{Step, Reach, acquire, renew, release, commit, here, next}

module _ (c : Codec) where
  -- No revision is stored past the head.
  pub record IsIndexed (s : Store c) : Type 0 where
    pub bounded : (id : Text) (r : ℕ) (b : c.Encoded) → s.history id r ≡ some b → r ≤ s.heads id

  pub new-IsIndexed : IsIndexed (new_memory_execution_store c)
  unfolding new_memory_execution_store
  new-IsIndexed = record { bounded = λ id r b h. cc }

  pub history-commit :
      (s t : Store c) (now : Time) (ctx : Option Err) (expected : ℕ) (lease : ExecutionLease)
      (e r : Envelope)
      → (h : commit_execution c s now ctx expected lease e ≡ ok (r, t))
      → let k = commit-IsCommitted c s t now ctx expected lease e r h in
        ((j : Text) (n : ℕ)
          → t.history j n ≡ (
              if e.execution_id == j
              then (if (s.heads j + 1) == n then some k.bytes else s.history j n)
              else s.history j n))
        × ((j : Text) → t.heads j ≡ (if e.execution_id == j then s.heads j + 1 else s.heads j))
  unfolding publish
  history-commit s t now ctx expected lease e r h =
      let k = commit-IsCommitted c s t now ctx expected lease e r h in
      (
        λ j n. ground (arith, ap (λ u. u.history j n) k.written, k.at_head),
        λ j. ground (arith, ap (λ u. u.heads j) k.written, k.at_head),
      )

  history-acquire :
      (s t : Store c) (now again : Time) (ctx : Option Err) (id owner : Text)
      (ttl : flowy.Prelude.Int.ℤ) (l : ExecutionLease)
      → acquire_execution c s now again ctx id owner ttl ≡ ok (l, t)
      → (j : Text) (n : ℕ) → (t.history j n ≡ s.history j n) × (t.heads j ≡ s.heads j)
  unfolding acquire_execution
  history-acquire s t now again ctx id owner ttl l h j n = (ground arith, ground arith)

  history-renew :
      (s t : Store c) (now again : Time) (ctx : Option Err) (lease l : ExecutionLease)
      (ttl : flowy.Prelude.Int.ℤ)
      → renew_execution c s now again ctx lease ttl ≡ ok (l, t)
      → (j : Text) (n : ℕ) → (t.history j n ≡ s.history j n) × (t.heads j ≡ s.heads j)
  unfolding renew_execution
  history-renew s t now again ctx lease l ttl h j n = (ground arith, ground arith)

  history-release :
      (s t : Store c) (ctx : Option Err) (lease : ExecutionLease)
      → release_execution c s ctx lease ≡ ok t
      → (j : Text) (n : ℕ) → (t.history j n ≡ s.history j n) × (t.heads j ≡ s.heads j)
  unfolding release_execution
  history-release s t ctx lease h j n = (ground arith, ground arith)

  -- One call keeps the index, every stored revision, and never lowers a head.
  pub record IsKept (s t : Store c) : Type 0 where
    pub indexed : IsIndexed t
    pub kept :
        (id : Text) (r : ℕ) (b : c.Encoded) → s.history id r ≡ some b → t.history id r ≡ some b
    pub grown : (id : Text) → s.heads id ≤ t.heads id

  same-IsKept :
      (s t : Store c)
      → IsIndexed s
      → ((j : Text) (n : ℕ) → (t.history j n ≡ s.history j n) × (t.heads j ≡ s.heads j))
      → IsKept s t
  same-IsKept s t f same = record {
    indexed = record {
      bounded = λ id r b h. ground (arith, (same id r).0, (same id r).1, f.bounded id r b);
    };
    kept = λ id r b h. ground (arith, (same id r).0);
    grown = λ id. ground (arith, (same id 0).1);
  }

  pub commit-IsKept :
      (s t : Store c) (now : Time) (ctx : Option Err) (expected : ℕ) (lease : ExecutionLease)
      (e r : Envelope)
      → commit_execution c s now ctx expected lease e ≡ ok (r, t)
      → IsIndexed s
      → IsKept s t
  commit-IsKept s t now ctx expected lease e r h f =
      let (history, heads) = history-commit s t now ctx expected lease e r h in
      record {
        indexed = record {
          bounded = λ id n b g. ground (arith, history id n, heads id, f.bounded id n b);
        };
        kept = λ id n b g. ground (arith, history id n, f.bounded id n b);
        grown = λ id. ground (arith, heads id);
      }

  Step-IsKept : (s t : Store c) → Step c s t → IsIndexed s → IsKept s t
  Step-IsKept s t (acquire now again ctx id owner ttl l h) f =
      same-IsKept s t f (history-acquire s t now again ctx id owner ttl l h)
  Step-IsKept s t (renew now again ctx lease l ttl h) f =
      same-IsKept s t f (history-renew s t now again ctx lease l ttl h)
  Step-IsKept s t (release ctx lease h) f = same-IsKept s t f (history-release s t ctx lease h)
  Step-IsKept s t (commit now ctx expected lease e r h) f =
      commit-IsKept s t now ctx expected lease e r h f

  -- From a store that is indexed by its heads, in every run of acquisitions, renewals, releases and
  -- commits: no stored revision of any execution is ever changed or lost, no head goes back, and the
  -- index stays.
  pub Reach-IsKept : (s t : Store c) → Reach c s t → IsIndexed s → IsKept s t
  Reach-IsKept s t here f = record { indexed = f; kept = λ id r b h. h; grown = λ id. omega arith }
  Reach-IsKept s t (next {t = m} run st) f =
      let before = Reach-IsKept s m run f in
      let last = Step-IsKept m t st before.indexed in
      record {
        indexed = last.indexed;
        kept = λ id r b h. last.kept id r b (before.kept id r b h);
        grown = λ id. omega (arith, before.grown id, last.grown id);
      }
