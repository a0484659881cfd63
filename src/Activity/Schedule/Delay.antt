-- ===== src/Activity/Schedule/Delay.antt =====
-- What the delays of activity_schedule.go come to: the backoff is the capped power, and no
-- product or sum of the code leaves the range of an int64.
use native.Mathlib.Nat.{
  mul-le-mul_left, mul-one, mul-pos, pow-zero, mul_assoc, mul_comm, pow-suc, one-le-pow,
  le-div_iff_mul-le, div-lt_iff_lt-mul, add-mul,
}
use flowy.Prelude.{
  ℕ, zero, suc, ◌+◌, ◌*◌, ◌/◌, ◌%◌, ◌^◌, ◌≤◌, ◌<◌, ◌≡◌, ap, true, inl, inr, ltb, leb, if◌then◌else◌,
  arith, ℤ, pos, i64, u64, ◌*ℤ◌, quot, rem, i64_mod, i64_half, pos_part, Bool-cases, ltb→lt,
  not_ltb→le,
}
use flowy.Base.{ok}
use flowy.Activity.Schedule.{
  is_exponential, validate_activity_schedule, RetrySchedule, delay_rounds,
  activity_retry_base_delay, activity_retry_jitter_width,
}

pub i64-pos : (n : ℕ) → n < i64_half → i64 (pos n) ≡ pos n
unfolding i64
i64-pos n h = ground arith

pub u64-pos : (n : ℕ) → n < i64_mod → u64 (pos n) ≡ n
unfolding u64
u64-pos n h = omega arith

-- `x` capped at `top`.
abbrev pub cap : ℕ → ℕ → ℕ
cap top x = if leb top x then top else x

pow_step : (d m n : ℕ) → d * m ^ suc n ≡ d * m * m ^ n
pow_step d m n = simp (pow-suc, mul_assoc, mul_comm)

le-mul-pow : (d m n : ℕ) → 0 < m → d ≤ d * m ^ n
le-mul-pow d m n h = grind (arith, one-le-pow n m h)

over : (top d m : ℕ) → 0 < d → top / d < m → top < d * m
over top d m p h = rw mul_comm ((div-lt_iff_lt-mul p).0 h)

under : (top d m : ℕ) → 0 < d → m ≤ top / d → d * m ≤ top
under top d m p h = rw mul_comm ((le-div_iff_mul-le p).0 h)

multiplier_fits : (top d m : ℕ) → 0 < d → m ≤ top / d → m ≤ top
multiplier_fits top d m p h = grind (arith, under top d m p h)

times :
    (top d m : ℕ) → 0 < d → top < i64_half → m ≤ top / d → i64 (pos d *ℤ i64 (pos m)) ≡ pos (d * m)
unfolding ◌*ℤ◌
times top d m p fits h =
    rw (i64-pos m (omega (arith, multiplier_fits top d m p h)))
      (i64-pos (d * m) (omega (arith, under top d m p h)))

quot_small : (top d : ℕ) → top < i64_half → u64 (quot (pos top) (pos d)) ≡ top / d
unfolding quot
quot_small top d h = u64-pos (top / d) (grind arith)

module _ (top m : ℕ) (fits : top < i64_half) (grows : 2 ≤ m) where
  rounds-eq-cap :
      (n d : ℕ) → 0 < d → d ≤ top → delay_rounds n (pos top) m (pos d) ≡ pos (cap top (d * m ^ n))
  unfolding delay_rounds
  rounds-eq-cap zero d p h = ground (arith, mul-one d, pow-zero m)
  rounds-eq-cap (suc n) d p h = elim (Bool-cases (ltb (top / d) m)) [
    | inl big ↦ ground (
      arith,
      quot_small top d fits,
      pow_step d m n,
      le-mul-pow d m (suc n) (omega arith),
      le-mul-pow (d * m) m n (omega arith),
      over top d m p (ltb→lt (top / d) m big),
    )
    | inr small ↦
        let le : m ≤ top / d = not_ltb→le (top / d) m small in
        let ih = rounds-eq-cap n (d * m) (mul-pos p (omega arith)) (under top d m p le) in
        ground (
          arith,
          quot_small top d fits,
          pow_step d m n,
          le-mul-pow d m (suc n) (omega arith),
          times top d m p fits le,
          ih,
        )
  ]

-- A delay that an int64 holds.
abbrev pub Fits : ℤ → Type 0
Fits d = pos_part d < i64_half

-- What validateActivitySchedule leaves to know of the numbers.
pub record IsSound (s : RetrySchedule) : Type 0 where
  pub initial_pos : s.initial_delay ≡ pos (pos_part s.initial_delay)
  pub max_pos : s.max_delay ≡ pos (pos_part s.max_delay)
  pub ordered : pos_part s.initial_delay ≤ pos_part s.max_delay
  pub jitter : s.jitter_permille ≤ 1000
  pub starts : is_exponential s.kind ≡ true → 0 < pos_part s.initial_delay
  pub grows : is_exponential s.kind ≡ true → 2 ≤ s.multiplier

pub validate-IsSound : (s : RetrySchedule) → validate_activity_schedule s ≡ ok tt → IsSound s
unfolding validate_activity_schedule
validate-IsSound s h = ground arith

-- The backoff that is meant: the initial delay times the multiplier for each earlier attempt, and
-- no more than the maximum.
unfoldable pub backoff : RetrySchedule → ℕ → ℕ
backoff s n =
    if is_exponential s.kind
    then cap (pos_part s.max_delay) (pos_part s.initial_delay * s.multiplier ^ n)
    else pos_part s.initial_delay

-- Under a valid schedule the loop computes the capped backoff of the attempt, for every attempt
-- number, though it multiplies int64 values. The maximal delay fits an int64.
pub base_delay-eq-backoff :
    (s : RetrySchedule) (n : ℕ)
    → validate_activity_schedule s ≡ ok tt
    → Fits s.max_delay
    → activity_retry_base_delay s (pos (suc n)) ≡ pos (backoff s n)
unfolding activity_retry_base_delay backoff
base_delay-eq-backoff s n valid fits =
    let v = validate-IsSound s valid in
    elim (Bool-cases (is_exponential s.kind)) [
      | inr plain ↦ ground (arith, v.initial_pos)
      | inl doubling ↦
          let steps =
            rounds-eq-cap (pos_part s.max_delay) s.multiplier fits (v.grows doubling) n
              (pos_part s.initial_delay) (v.starts doubling) v.ordered in
          ground (arith, v.initial_pos, v.max_pos, steps)
    ]

jitter_whole : (d p : ℕ) → p ≤ 1000 → d / 1000 * p ≤ d
jitter_whole d p h = grind arith

jitter_parts : (d p : ℕ) → d * p / 1000 ≡ d / 1000 * p + d % 1000 * p / 1000
jitter_parts d p =
    let split : d * p ≡ (1000 * (d / 1000) + d % 1000) * p = ap (λ t. t * p) (omega arith) in
    omega (arith, split, add-mul (1000 * (d / 1000)) (d % 1000) p, mul_assoc 1000 (d / 1000) p)

jitter_sum : (d p : ℕ) → d < i64_half → p ≤ 1000 → d / 1000 * p + d % 1000 * p / 1000 < i64_half
jitter_sum d p fits h =
    let whole : d / 1000 * p ≤ d / 1000 * 1000 = mul-le-mul_left (d / 1000) h in
    let part : d % 1000 * p ≤ d % 1000 * 1000 = mul-le-mul_left (d % 1000) h in omega arith

-- For a delay that an int64 holds and at most 1000 permille, the two partial products add up to
-- the permille share of the delay, rounded down.
pub jitter_width-eq-share :
    (d permille : ℕ)
    → d < i64_half
    → permille ≤ 1000
    → activity_retry_jitter_width (pos d) permille ≡ pos (d * permille / 1000)
unfolding activity_retry_jitter_width quot rem ◌*ℤ◌
jitter_width-eq-share d p fits h =
    let whole : d / 1000 * p ≤ d = jitter_whole d p h in
    let part : d % 1000 * p < 1000000 = grind arith in
    rw (i64-pos (d / 1000 * p) (omega arith), i64-pos (d % 1000 * p) (omega arith))
      (rw (jitter_parts d p)
        (ground (arith, i64-pos (d / 1000 * p + d % 1000 * p / 1000) (jitter_sum d p fits h))))
