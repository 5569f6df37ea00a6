-- ===== src/Time.antt =====
-- include/mart-common/MartTime.h. Times and durations are in nanoseconds, the period of the clock
-- that the library uses; a duration type `Dur` is given by the nanoseconds of its unit. The time
-- that a clock shows is an argument, as is the state of a clock for what sleeps.
pub mod Timers
pub mod Schedule
mod Tests
use mart_common.Prelude.{ℕ, zero, suc, ◌+◌, ◌/◌, ◌≡◌, refl, arith, Bool, if◌then◌else◌}
use mart_common.Prelude.Int.{ℤ, pos, negsuc, ◌+ℤ◌, ◌-ℤ◌, ◌*ℤ◌, ltb_ℤ, leb_ℤ}

abbrev pub neg : ℕ → ℤ
neg zero = pos 0
neg (suc n) = negsuc n

-- `std::chrono::duration_cast` drops what is less than a unit, towards zero.
abbrev pub duration_cast : ℕ → ℤ → ℤ
duration_cast unit (pos n) = pos (n / unit)
duration_cast unit (negsuc n) = neg (suc n / unit)

unfoldable pub abs : ℤ → ℤ
abs d = if leb_ℤ (pos 0) d then d else pos 0 -ℤ d

unfoldable pub passed_time : ℕ → ℤ → ℤ → ℤ
passed_time unit now start = duration_cast unit (now -ℤ start)

unfoldable pub has_timed_out : ℤ → ℤ → ℤ → Bool
has_timed_out now start timeout = ltb_ℤ timeout (now -ℤ start)

abbrev pub max_ℤ : ℤ → ℤ → ℤ
max_ℤ a b = if ltb_ℤ a b then b else a

-- In the unit of the clock.
pub cast_one : (d : ℤ) → duration_cast 1 d ≡ d
cast_one (pos n) = ground arith
cast_one (negsuc n) = ground arith
