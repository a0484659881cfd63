-- ===== src/Checkpoint/Interface.antt =====
-- What the runner relies on of a Checkpointer (flowy.go), and that MemoryCheckpointer keeps it.
use flowy.Prelude.{ℕ, ◌+◌, ◌≡◌, ap, sym, ==-refl, ◌∙◌, if◌then◌else◌}
use flowy.Base.{Text, text_eq, Err, Result, ok, err}
use flowy.Checkpoint.{Snapshot, MemoryCheckpointer, save, load}
use flowy.Checkpoint.History.{saved, save-load, loaded}

-- Save and Load, with the store that a Save leaves beside what it returns. As the store is passed from
-- call to call, nobody else writes between two of them.
pub record Checkpointer (T E : Type 0) : Type 1 where
  pub Store : Type 0
  pub save : Store → ℕ → Snapshot T E → Store × Result ℕ
  pub load : Store → Text → Result (Snapshot T E × ℕ)

-- A save moves on by one revision and is what the next load finds; a save that fails, as by
-- ErrConcurrencyConflict, leaves the store.
pub record IsCheckpointer {T E : Type 0} (c : Checkpointer T E) : Type 0 where
  pub next :
      (s s' : c.Store) (expected revision : ℕ) (snapshot : Snapshot T E)
      → c.save s expected snapshot ≡ (s', ok revision)
      → revision ≡ expected + 1
  pub loads :
      (s s' : c.Store) (expected revision : ℕ) (snapshot : Snapshot T E)
      → c.save s expected snapshot ≡ (s', ok revision)
      → c.load s' snapshot.thread_id ≡ ok (record snapshot { revision = revision }, revision)
  pub refused :
      (s s' : c.Store) (expected : ℕ) (snapshot : Snapshot T E) (e : Err)
      → c.save s expected snapshot ≡ (s', err e)
      → s' ≡ s

-- A method that fails has changed nothing.
abbrev pub settled : {S : Type 0} → S → Result (S × ℕ) → S × Result ℕ
settled s (err e) = (s, err e)
settled s (ok (s', revision)) = (s', ok revision)

settled_ok :
    {S : Type 0} (s s' : S) (r : Result (S × ℕ)) (revision : ℕ)
    → settled s r ≡ (s', ok revision)
    → r ≡ ok (s', revision)
settled_ok s s' (err e) revision h = let bad = ap (λ p. p.1) h in absurd (cc)
settled_ok s s' (ok (t, n)) revision h =
    let fine = ap (λ p. p.1) h in let at = ap (λ p. p.0) h in cc

settled_err :
    {S : Type 0} (s s' : S) (r : Result (S × ℕ)) (e : Err) → settled s r ≡ (s', err e) → s' ≡ s
settled_err s s' (err e') e h = sym (ap (λ p. p.0) h)
settled_err s s' (ok (t, n)) e h = let bad = ap (λ p. p.1) h in absurd (cc)

abbrev pub memory : (T E : Type 0) → Checkpointer T E
memory T E = record {
  Store = MemoryCheckpointer T E;
  save = λ s expected snapshot. settled s (save s expected snapshot);
  load = load;
}

pub memory-IsCheckpointer : {T E : Type 0} → IsCheckpointer (memory T E)
memory-IsCheckpointer = record {
  next = λ s s' expected revision snapshot h.
      (saved s s' expected revision snapshot
        (settled_ok s s' (save s expected snapshot) revision h)).0;
  loads = λ s s' expected revision snapshot h.
      save-load s s' expected revision snapshot snapshot.thread_id
        (settled_ok s s' (save s expected snapshot) revision h)
      ∙ ap (λ b. if b then loaded snapshot revision else load s snapshot.thread_id)
          (==-refl snapshot.thread_id);
  refused = λ s s' expected snapshot e h. settled_err s s' (save s expected snapshot) e h;
}
