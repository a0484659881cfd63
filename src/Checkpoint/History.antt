-- ===== src/Checkpoint/History.antt =====
-- The histories that MemoryCheckpointer keeps (testutil/memory_checkpointer.go).
use flowy.Prelude.{
  inl, inr, ℕ, ◌+◌, ◌≡◌, refl, true, List, [], ◌∷◌, ◌++◌, some, ◌==◌, ◌!=◌, nat_eq, arith,
  Bool-cases, ==-refl, sym, ◌∙◌, ap, subst, if◌then◌else◌,
}
use flowy.Base.{
  Text, text_eq, last?, lookup, insert, lookup-insert, Result, ok, reject_if-eq-ok, >>-eq-ok,
  execution_capability, concurrency_conflict, ok-injective, fails, fails_if_refuted,
}
use flowy.Checkpoint.{
  Snapshot, MemoryCheckpointer, items_of, items_at, revision_of, save, load, latest,
  validate_snapshot_header, max_uint64,
}

last?-snoc {ℓ} : {A : Type ℓ} (xs : List A) (a : A) → last? (xs ++ a ∷ []) ≡ some a
last?-snoc [] a = refl
last?-snoc (x ∷ []) a = refl
last?-snoc (x ∷ y ∷ xs) a = last?-snoc (y ∷ xs) a

module _ {T E : Type 0} where
  -- What a save has checked, and what it leaves.
  pub saved :
      (m m' : MemoryCheckpointer T E) (expected revision : ℕ) (snapshot : Snapshot T E)
      → save m expected snapshot ≡ ok (m', revision)
      → (revision ≡ expected + 1)
        × (revision_of (last? (items_at m snapshot.thread_id)) ≡ expected)
        × (m'.history
            ≡ insert snapshot.thread_id
                (items_at m snapshot.thread_id ++ record snapshot { revision = expected + 1 } ∷ [])
                m.history)
  unfolding save
  saved m m' expected revision snapshot h =
      let (_, h1) = reject_if-eq-ok (expected == max_uint64) execution_capability _ h in
      let (_, h2) =
        >>-eq-ok
          (validate_snapshot_header snapshot.thread_id (expected + 1) snapshot.execution_pointer) _
          h1 in
      let (current, h3) =
        reject_if-eq-ok (revision_of (last? (items_at m snapshot.thread_id)) != expected)
          concurrency_conflict _ h2 in
      let made = ok-injective _ (m', revision) h3 in
      (sym (ap (λ r. r.1) made), ground (arith, current), sym (ap (λ r. r.0.history) made))

  abbrev pub loaded : Snapshot T E → ℕ → Result (Snapshot T E × ℕ)
  loaded s revision = ok (record s { revision = revision }, revision)

  -- The snapshot that a save stores is loaded from then on, with its revision, by its thread; every
  -- other thread loads what it did.
  pub save-load :
      (m m' : MemoryCheckpointer T E) (expected revision : ℕ) (snapshot : Snapshot T E)
      (thread : Text)
      → save m expected snapshot ≡ ok (m', revision)
      → load m' thread
        ≡ (if snapshot.thread_id == thread then loaded snapshot revision else load m thread)
  unfolding load
  save-load m m' expected revision snapshot thread h =
      let (next, _, kept) = saved m m' expected revision snapshot h in
      let stored : Snapshot T E = record snapshot { revision = expected + 1 } in
      let found : lookup thread m'.history ≡ (
          if snapshot.thread_id == thread
          then some (items_at m snapshot.thread_id ++ stored ∷ [])
          else lookup thread m.history) =
        ap (lookup thread) kept
        ∙ lookup-insert snapshot.thread_id thread (items_at m snapshot.thread_id ++ stored ∷ [])
            m.history in
      elim (Bool-cases (snapshot.thread_id == thread)) [
        | inl same ↦
            let there : lookup thread m'.history
                ≡ some (items_at m snapshot.thread_id ++ stored ∷ []) =
              ground (arith, found, same) in
            let loads : load m' thread ≡ loaded snapshot (expected + 1) =
              ap (λ o. latest (last? (items_of o))) there
              ∙ ap latest (last?-snoc (items_at m snapshot.thread_id) stored) in
            let is : loaded snapshot (expected + 1) ≡ loaded snapshot revision =
              ap (loaded snapshot) (sym next) in
            ground (arith, same, loads, is)
        | inr other ↦
            let there : lookup thread m'.history ≡ lookup thread m.history =
              ground (arith, found, other) in
            ground (arith, other, ap (λ o. latest (last? (items_of o))) there)
      ]

  saved_last :
      (m m' : MemoryCheckpointer T E) (expected revision : ℕ) (s : Snapshot T E)
      → save m expected s ≡ ok (m', revision)
      → last? (items_at m' s.thread_id) ≡ some (record s { revision = expected + 1 })
  saved_last m m' expected revision s h =
      let (_, _, kept) = saved m m' expected revision s h in
      let items = items_at m s.thread_id ++ record s { revision = expected + 1 } ∷ [] in
      let found : lookup s.thread_id m'.history ≡ some items =
        ap (lookup s.thread_id) kept
        ∙ ground
            (arith, lookup-insert s.thread_id s.thread_id items m.history, ==-refl s.thread_id) in
      ap (λ o. last? (items_of o)) found
      ∙ last?-snoc (items_at m s.thread_id) (record s { revision = expected + 1 })

  -- After a save at an expected revision, a save of the same thread at that revision is refused.
  pub saved_once :
      (m m' : MemoryCheckpointer T E) (expected revision : ℕ) (s t : Snapshot T E)
      → save m expected s ≡ ok (m', revision)
      → s.thread_id ≡ t.thread_id
      → fails (save m' expected t) ≡ true
  saved_once m m' expected revision s t h same =
      fails_if_refuted (save m' expected t) (λ (m'', r) again.
        let (_, current, _) = saved m' m'' expected r t again in
        let last = saved_last m m' expected revision s h in
        let at : last? (items_at m' t.thread_id) ≡ some (record s { revision = expected + 1 }) =
          subst (λ id. last? (items_at m' id) ≡ some (record s { revision = expected + 1 })) same
            last in
        let now : expected + 1 ≡ expected = sym (ap revision_of at) ∙ current in
        absurd (omega (arith, now)))
