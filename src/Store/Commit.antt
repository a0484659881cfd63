-- ===== src/Store/Commit.antt =====
-- What a successful CommitExecution has checked, and what it writes.
use flowy.Prelude.{[], ℕ, ◌+◌, ◌≡◌, Bool, true, false, not, ◌||◌, Option, ◌==◌, ◌!=◌, nat_eq, arith}
use flowy.Base.{
  Text, text_eq, Time, Err, ok, >>=-eq-ok, >>-eq-ok, reject_if-eq-ok, lease_lost,
  execution_capability, concurrency_conflict, invalid_snapshot,
}
use flowy.Execution.Types.{Envelope, ExecutionLease}
use flowy.Execution.Codec.{Codec}
use flowy.Execution.Validate.{validate_descriptor, seal_execution_envelope}
use flowy.Execution.Transition.{validate_fork_transition, validate_rollover_transition}
use flowy.Store.{
  Store, held, commit_execution, publish, predecessor, decode_execution, max_uint64, check_context,
}

module _ (c : Codec) where
  pub record IsCommitted (s : Store c) (now : Time) (expected : ℕ) (lease : ExecutionLease)
      (e r : Envelope) (t : Store c) : Type 0 where
    pub in_range : (expected == max_uint64) ≡ false
    pub fenced : held c s now lease ≡ true
    pub owned : e.execution_id ≡ lease.execution_id
    pub at_head : s.heads e.execution_id ≡ expected
    pub previous : Option Envelope
    pub loaded : predecessor c s e.execution_id expected ≡ ok previous
    pub rollover_kept : validate_rollover_transition previous e ≡ ok tt
    pub fork_kept : validate_fork_transition previous e ≡ ok tt
    pub sealed : Envelope
    pub seals : seal_execution_envelope c (record e { revision = expected + 1 }) ≡ ok sealed
    pub bytes : c.Encoded
    pub encodes : c.encode sealed ≡ ok bytes
    pub decodes : decode_execution c bytes e.execution_id (expected + 1) ≡ ok r
    pub written : t ≡ publish c s e.execution_id expected bytes r

  held_of : (a b : Bool) → (not a || b) ≡ false → a ≡ true
  held_of a b h = ground arith

  same_id : (a : Bool) (x y : Text) → (a || x != y) ≡ false → x ≡ y
  same_id a x y h = ground arith

  same_head : (x y : ℕ) → (x != y) ≡ false → x ≡ y
  same_head x y h = ground arith

  pub commit-IsCommitted :
      (s t : Store c) (now : Time) (ctx : Option Err) (expected : ℕ) (lease : ExecutionLease)
      (e r : Envelope)
      → commit_execution c s now ctx expected lease e ≡ ok (r, t)
      → IsCommitted s now expected lease e r t
  unfolding commit_execution
  commit-IsCommitted s t now ctx expected lease e r h =
      let id = e.execution_id in
      let (range, h1) = reject_if-eq-ok (expected == max_uint64) execution_capability _ h in
      let (alive, h2) = >>-eq-ok (check_context ctx) _ h1 in
      let (mine, h3) =
        reject_if-eq-ok (not (held c s now lease) || id != lease.execution_id) lease_lost _ h2 in
      let (described, h4) = >>-eq-ok (validate_descriptor e.descriptor) _ h3 in
      let (pointed, h5) =
        reject_if-eq-ok (e.progress.execution_pointer == []) invalid_snapshot _ h4 in
      let (head, h6) = reject_if-eq-ok (s.heads id != expected) concurrency_conflict _ h5 in
      let (previous, loaded, h7) = >>=-eq-ok (predecessor c s id expected) _ h6 in
      let (rolled, h8) = >>-eq-ok (validate_rollover_transition previous e) _ h7 in
      let (forked, h9) = >>-eq-ok (validate_fork_transition previous e) _ h8 in
      let (sealed, seals, h10) =
        >>=-eq-ok (seal_execution_envelope c (record e { revision = expected + 1 })) _ h9 in
      let (bytes, encodes, h11) = >>=-eq-ok (c.encode sealed) _ h10 in
      let (result, decodes, h12) = >>=-eq-ok (decode_execution c bytes id (expected + 1)) _ h11 in
      record {
        in_range = range;
        fenced = held_of (held c s now lease) (id != lease.execution_id) mine;
        owned = same_id (not (held c s now lease)) id lease.execution_id mine;
        at_head = same_head (s.heads id) expected head;
        previous = previous;
        loaded = loaded;
        rollover_kept = rolled;
        fork_kept = forked;
        sealed = sealed;
        seals = seals;
        bytes = bytes;
        encodes = encodes;
        decodes = ground (arith, decodes, h12);
        written = ground (arith, h12);
      }
