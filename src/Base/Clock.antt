-- ===== src/Base/Clock.antt =====
-- `time.Time` as the count of nanoseconds from the earliest instant that Go represents, which
-- lies 2^63 seconds before the zero time, midnight of 1 January of the year 1.
use flowy.Prelude.{
  ℕ, ◌+◌, ◌-◌, ◌*◌, Bool, not, ◌&&◌, ltb, leb, ◌==◌, Eq, nat_eq, eq_of_discrete, ℤ, pos_part,
  neg_part, int_eq, ℤ_discrete, ℕ_discrete, true,
}

abbrev pub Time : Type 0
Time = ℕ

abbrev pub second : ℕ
second = 1000000000

unfoldable pub zero_time : Time
zero_time = 9223372036854775808000000000

-- The end of the year 9999: 3652059 days after the zero time.
abbrev year_10000 : Time
year_10000 = 9223372036854775808000000000 + 3652059 * 86400 * 1000000000

-- The year 0 is a leap year.
abbrev year_0 : Time
year_0 = 9223372036854775808000000000 - 366 * 86400 * 1000000000

unfoldable pub is_zero : Time → Bool
unfolding zero_time
is_zero t = t == zero_time

abbrev pub before : Time → Time → Bool
before a b = ltb a b

abbrev pub after : Time → Time → Bool
after a b = ltb b a

-- Go's Add wraps past 2^63 seconds; the callers add less than 2^63 nanoseconds to an instant
-- of the years 1 to 9999.
abbrev pub add : Time → ℤ → Time
add t d = t + pos_part d - neg_part d

-- activityScheduleTimeValid
unfoldable pub schedule_time_valid : Time → Bool
unfolding is_zero
schedule_time_valid t = not (is_zero t) && leb 9223372036854775808000000000 t && ltb t year_10000

-- An instant with its location where the code reads it: the offset from UTC in seconds, and
-- whether the location is `time.UTC` itself.
pub record Zoned : Type 0 where
  pub instant : Time
  pub offset : ℤ
  pub utc_location : Bool

unfoldable pub zoned_discrete : Discrete Zoned
unfolding ℕ_discrete ℤ_discrete
zoned_discrete = hlevel (ℕ_discrete, ℤ_discrete)

instance abbrev pub zoned_eq : Eq Zoned
zoned_eq = eq_of_discrete zoned_discrete

-- t.UTC()
abbrev pub utc : Time → Zoned
utc t = record { instant = t; offset = ℤ.pos 0; utc_location = true }

-- Time.MarshalJSON succeeds on a UTC instant of the years 0 to 9999.
unfoldable pub json_time : Time → Bool
json_time t = leb year_0 t && ltb t year_10000
