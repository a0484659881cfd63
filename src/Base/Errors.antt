-- ===== src/Base/Errors.antt =====
-- The sentinel errors that the modelled functions return, and the results of fallible functions. `errors.Join` and
-- `fmt.Errorf` with two `%w` keep both errors.
use flowy.Prelude.{refl, ◌≡◌, ◌⊎◌, inl, inr, ℕ, Bool, true, false}
use flowy.Base.Strings.{Text}
use flowy.Base.Clock.{Time}

pub data Err : Type 0 where
  execution_incompatible migration_missing migration_invalid : Err
  activity_conflict activity_unknown activity_busy : Err
  attempts_exhausted activity_failed schedule_invalid : Err
  activity_retry_pending : Text → Time → ℕ → Err
  execution_corrupt execution_capability invalid_snapshot : Err
  concurrency_conflict lease_lost lease_held thread_lease_busy thread_not_found : Err
  checkpoint_unavailable lifecycle_invalid lifecycle_limit source_digest : Err
  rollover_conflict execution_transferred fork_policy : Err
  wait_invalid wait_conflict wait_stale wait_canceled wait_expired : Err
  node_not_found no_outgoing_edge empty_target no_retry_route resume_node_not_found : Text → Err
  undeclared_target unknown_target : Text → Text → Err
  router_failed node_failed : Text → Err → Err
  retry_attempts_invalid retry_budget_exceeded max_steps_exceeded budget_exceeded : Err
  effect_mismatch zero_directive_returned removed_next : Err
  failed_with : Text → Err
  handoff_orphaned handoff_pending handoff_already_enqueued handoff_not_recoverable : Err
  handoff_outbox_required invalid_resume_token : Err
  child_duplicate child_invalid children_unresolved : Err
  snapshot_envelope_invalid handoff_patch_failed handoff_enqueue_failed invalid_handoff_intent : Err
  host : Text → Err
  joined : Err → Err → Err

-- The value and the error that a function returns; one of the two.
pub data Result {ℓ} (T : Type ℓ) : Type ℓ where
  err : Err → Result T
  ok : T → Result T

-- The next call, if this one returned no error.
infixl 5 ◌>>=◌ ◌>>◌
abbrev pub ◌>>=◌ {ℓ μ} : {T : Type ℓ} {U : Type μ} → Result T → (T → Result U) → Result U
err failure >>= next = err failure
ok value >>= next = next value

abbrev pub ◌>>◌ {μ} : {U : Type μ} → Result (Unit {0}) → Result U → Result U
step >> rest = step >>= λ _. rest

-- `if test { return err }`
abbrev pub reject_if : Bool → Err → Result (Unit {0})
reject_if true e = err e
reject_if false e = ok tt

-- `err != nil`
abbrev pub fails {ℓ} : {A : Type ℓ} → Result A → Bool
fails (ok a) = false
fails (err e) = true

-- `errors.Join(outer, err)` on the error path.
abbrev pub joining {ℓ} : {A : Type ℓ} → Err → Result A → Result A
joining outer (ok a) = ok a
joining outer (err e) = err (joined outer e)

-- What a successful step says of its parts.
pub >>=-eq-ok {ℓ μ} :
    {T : Type ℓ} {U : Type μ} (first : Result T) (next : T → Result U) {result : U}
    → (first >>= next) ≡ ok result
    → (value : T) × (first ≡ ok value) × (next value ≡ ok result)
>>=-eq-ok (err failure) next h = cc
>>=-eq-ok (ok value) next h = (value, refl, h)

pub >>-eq-ok {ℓ} :
    {B : Type ℓ} (m : Result (Unit {0})) (k : Result B) {b : B}
    → (m >> k) ≡ ok b
    → (m ≡ ok tt) × (k ≡ ok b)
>>-eq-ok (ok tt) k h = (refl, h)
>>-eq-ok (err e) k h = cc

pub reject_if-eq-ok {ℓ} :
    {B : Type ℓ} (b : Bool) (e : Err) (k : Result B) {v : B}
    → (reject_if b e >> k) ≡ ok v
    → (b ≡ false) × (k ≡ ok v)
reject_if-eq-ok true e k h = cc
reject_if-eq-ok false e k h = (refl, h)

pub ok_of_not-fails : (r : Result (Unit {0})) → fails r ≡ false → r ≡ ok tt
ok_of_not-fails (ok tt) h = refl
ok_of_not-fails (err e) h = cc

pub fails_if_refuted {ℓ} :
    {T : Type ℓ} (r : Result T) → ((value : T) → r ≡ ok value → false ≡ true) → fails r ≡ true
fails_if_refuted (ok value) h = h value refl
fails_if_refuted (err e) h = refl

-- To split on a computed result and keep the equation.
pub Result-cases {ℓ} :
    {T : Type ℓ} (r : Result T) → ((e : Err) × (r ≡ err e)) ⊎ ((value : T) × (r ≡ ok value))
Result-cases (err e) = inl (e, refl)
Result-cases (ok value) = inr (value, refl)

pub joining-eq-ok {ℓ} :
    {T : Type ℓ} (outer : Err) (r : Result T) (value : T)
    → joining outer r ≡ ok value
    → r ≡ ok value
joining-eq-ok outer (ok a) value h = h
joining-eq-ok outer (err e) value h = cc

pub ok-injective {ℓ} : {T : Type ℓ} (a b : T) → ok a ≡ ok b → a ≡ b
ok-injective a b h = cc

module _ {ℓ} {T : Type ℓ} where
  abbrev pub failed : Err → Result T
  failed e = err e

  pub err-injective : (d e : Err) → failed d ≡ failed e → d ≡ e
  err-injective d e h = cc
