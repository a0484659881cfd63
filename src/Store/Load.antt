-- ===== src/Store/Load.antt =====
-- What LoadExecution gives back after a commit.
use flowy.Prelude.{
  ℕ, suc, ◌+◌, ◌≡◌, sym, subst, ap, ◌∙◌, true, Option, none, some, nat_eq, arith, ltb, Option-cases,
  inl, inr,
}
use flowy.Base.{Text, text_eq, Time, Err, ok}
use flowy.Execution.Types.{Envelope, ExecutionLease, ForkLineage, fork_lineage_eq}
use flowy.Execution.Codec.{Codec}
use flowy.Execution.Validate.{seal_execution_envelope, validate_execution_integrity}
use flowy.Execution.Transition.{
  valid_fork_of, validate_fork_transition, validate_fork_anchor, equal_rollover_lineage,
  validate_lifecycle_anchors,
}
use flowy.Store.{
  Store, new_memory_execution_store, commit_execution, publish, decode_execution,
  decode_anchored_execution, load_execution,
}
use flowy.Store.Commit.{commit-IsCommitted}
use flowy.Store.Step.{Reach}
use flowy.Store.Plain.{
  same_fork_refl, IsPlain, new-IsPlain, Reach-IsPlain, rollover_none, fork_known, fork_named,
  not_transferred,
}

-- What the JSON of an envelope keeps of its lineage: a fork that is valid, whose texts are then UTF-8
-- and whose time is in UTC, and that there is no rollover and no transfer. Of other texts nothing is
-- asked, as Marshal coerces what is not UTF-8.
pub record IsFaithful (c : Codec) : Type 0 where
  pub keeps_fork :
      (e d : Envelope) (b : c.Encoded)
      → valid_fork_of e.fork e.execution_id ≡ true
      → c.encode e ≡ ok b
      → c.decode b ≡ some d
      → d.fork ≡ e.fork
  pub keeps_no_rollover :
      (e d : Envelope) (b : c.Encoded)
      → e.rollover ≡ none
      → c.encode e ≡ ok b
      → c.decode b ≡ some d
      → d.rollover ≡ none
  pub keeps_no_transfer :
      (e d : Envelope) (b : c.Encoded)
      → e.transfer ≡ none
      → c.encode e ≡ ok b
      → c.decode b ≡ some d
      → d.transfer ≡ none

module _ (c : Codec) where
  -- What sealing keeps.
  record IsSealOf (e r : Envelope) : Type 0 where
    same_id : r.execution_id ≡ e.execution_id
    same_fork_as : r.fork ≡ e.fork
    same_rollover : r.rollover ≡ e.rollover
    same_transfer : r.transfer ≡ e.transfer

  seal-IsSealOf :
      (e r : Envelope) (n : ℕ)
      → seal_execution_envelope c (record e { revision = n }) ≡ ok r
      → IsSealOf e r
  unfolding seal_execution_envelope
  seal-IsSealOf e r n h = record {
    same_id = ground arith;
    same_fork_as = ground arith;
    same_rollover = ground arith;
    same_transfer = ground arith;
  }

  decoded :
      (b : c.Encoded) (id : Text) (n : ℕ) (r : Envelope)
      → decode_execution c b id n ≡ ok r
      → (c.decode b ≡ some r) × (r.execution_id ≡ id)
  unfolding decode_execution validate_execution_integrity
  decoded b id n r h = elim (Option-cases (c.decode b)) [
    | inl none_read ↦ absurd (ground (arith, none_read, h))
    | inr (e, read) ↦
        let same : e ≡ r = ground (arith, read, h) in
        let named : e.execution_id ≡ id = ground (arith, read, h) in
        (read ∙ ap some same, sym (ap (λ x. x.execution_id) same) ∙ named)
  ]

  anchor_ok :
      (r : Envelope)
      → valid_fork_of r.fork r.execution_id ≡ true
      → validate_fork_anchor r r.fork ≡ ok tt
  unfolding validate_fork_anchor validate_fork_transition
  anchor_ok r v = ground (arith, v, same_fork_refl r.fork)

  anchors_ok :
      (r : Envelope)
      → r.rollover ≡ none
      → r.transfer ≡ none
      → validate_lifecycle_anchors c r none none ≡ ok tt
  unfolding validate_lifecycle_anchors equal_rollover_lineage
  anchors_ok r rollover transfer = ground (arith, rollover, transfer)

  lineage_written :
      (s : Store c) (id : Text) (expected : ℕ) (b : c.Encoded) (r : Envelope)
      → IsPlain c s
      → s.heads id ≡ expected
      → (ltb 0 expected ≡ true → s.lineage id ≡ r.fork)
      → (publish c s id expected b r).lineage id ≡ r.fork
  unfolding publish
  lineage_written s id expected b r plain head same = elim (Option-cases r.fork) [
    | inl q ↦ ground (arith, q, plain.unforked id, head, same)
    | inr (f, q) ↦ ground (arith, q, plain.unforked id, head, same)
  ]

  loads :
      (t : Store c) (id : Text) (n : ℕ) (b : c.Encoded) (r : Envelope)
      → t.heads id ≡ suc n
      → t.history id (suc n) ≡ some b
      → decode_execution c b id (suc n) ≡ ok r
      → validate_fork_anchor r (t.lineage id) ≡ ok tt
      → validate_lifecycle_anchors c r (t.incoming id) (t.outgoing id) ≡ ok tt
      → load_execution c t none id ≡ ok r
  unfolding load_execution decode_anchored_execution
  loads t id n b r head stored decodes fork lived =
      ground (arith, head, stored, decodes, fork, lived)

  named_of :
      (f g : Option ForkLineage) (x y : Text)
      → f ≡ g
      → x ≡ y
      → valid_fork_of g y ≡ true
      → valid_fork_of f x ≡ true
  named_of f g x y p q v = cc

  published_loads :
      (s : Store c) (id : Text) (expected : ℕ) (b : c.Encoded) (r : Envelope)
      → decode_execution c b id (suc expected) ≡ ok r
      → validate_fork_anchor r ((publish c s id expected b r).lineage id) ≡ ok tt
      → validate_lifecycle_anchors c r (s.incoming id) (s.outgoing id) ≡ ok tt
      → load_execution c (publish c s id expected b r) none id ≡ ok r
  unfolding publish
  published_loads s id expected b r d fork lived =
      loads (publish c s id expected b r) id expected b r (ground arith) (ground arith) d fork lived

  committed_loads :
      (s t : Store c) (now : Time) (ctx : Option Err) (expected : ℕ) (lease : ExecutionLease)
      (e r : Envelope)
      → IsFaithful c
      → IsPlain c s
      → commit_execution c s now ctx expected lease e ≡ ok (r, t)
      → load_execution c t none e.execution_id ≡ ok r
  committed_loads s t now ctx expected lease e r faithful plain h =
      let k = commit-IsCommitted c s t now ctx expected lease e r h in
      let id = e.execution_id in
      let (read, is_named) = decoded k.bytes id (expected + 1) r k.decodes in
      let seal = seal-IsSealOf e k.sealed (expected + 1) k.seals in
      let valid = fork_named c s expected e k.previous plain k.loaded k.rollover_kept k.fork_kept in
      let sealed_valid : valid_fork_of k.sealed.fork k.sealed.execution_id ≡ true =
        named_of k.sealed.fork e.fork k.sealed.execution_id id seal.same_fork_as seal.same_id
          valid in
      let fork : r.fork ≡ e.fork =
        faithful.keeps_fork k.sealed r k.bytes sealed_valid k.encodes read ∙ seal.same_fork_as in
      let named : valid_fork_of r.fork r.execution_id ≡ true =
        named_of r.fork e.fork r.execution_id id fork is_named valid in
      let rollover =
        faithful.keeps_no_rollover k.sealed r k.bytes
          (seal.same_rollover
            ∙ rollover_none c s expected e k.previous plain k.loaded k.rollover_kept k.fork_kept)
          k.encodes read in
      let transfer =
        faithful.keeps_no_transfer k.sealed r k.bytes
          (seal.same_transfer
            ∙ not_transferred c s expected e k.previous plain k.loaded k.rollover_kept k.fork_kept)
          k.encodes read in
      let lineage = lineage_written s id expected k.bytes r plain k.at_head (λ z.
        fork_known c s expected e k.previous plain k.loaded k.rollover_kept k.fork_kept z
        ∙ sym fork) in
      let fork_ok =
        subst (λ f. validate_fork_anchor r f ≡ ok tt) (sym lineage) (anchor_ok r named) in
      let lived_out =
        subst (λ o. validate_lifecycle_anchors c r none o ≡ ok tt) (sym (plain.outgoing id))
          (anchors_ok r rollover transfer) in
      let lived =
        subst (λ o. validate_lifecycle_anchors c r o (s.outgoing id) ≡ ok tt)
          (sym (plain.incoming id)) lived_out in
      subst (λ u. load_execution c u none id ≡ ok r) (sym k.written)
        (published_loads s id expected k.bytes r
          (subst (λ n. decode_execution c k.bytes id n ≡ ok r) (omega arith) k.decodes) fork_ok
          lived)

  -- In a store that was reached from the new one by acquisitions, renewals, releases and commits: after
  -- a commit, LoadExecution under a context that is not canceled returns the envelope that the commit
  -- returned, that is, the one read back from its JSON. The JSON keeps the lineage of an envelope: a
  -- valid fork, and that there is no rollover and no transfer.
  pub commit_loads :
      (s t : Store c) (now : Time) (ctx : Option Err) (expected : ℕ) (lease : ExecutionLease)
      (e r : Envelope)
      → IsFaithful c
      → Reach c (new_memory_execution_store c) s
      → commit_execution c s now ctx expected lease e ≡ ok (r, t)
      → load_execution c t none e.execution_id ≡ ok r
  commit_loads s t now ctx expected lease e r faithful run h =
      committed_loads s t now ctx expected lease e r faithful
        (Reach-IsPlain c (new_memory_execution_store c) s run (new-IsPlain c)) h
