-- ===== src/Time/Timers.antt =====
-- `Timer` of include/mart-common/MartTime.h, and `BasicTimer` for any clock: the members of the two
-- have the same bodies. `now` is what the clock shows at a call, or at the calls in their order.
use mart_common.Prelude.{ℕ, zero, suc, ◌/◌, ◌≡◌, ◌∙◌, ap, Bool, true, false, refl, arith}
use mart_common.Prelude.Int.{
  ℤ, pos, negsuc, ◌+ℤ◌, ◌-ℤ◌, ◌≤ℤ◌, ltb_ℤ, int_laws, -ℤ_parts, eq_of_parts,
}
use mart_common.Time.{duration_cast, neg, max_ℤ, cast_one}

pub record Timer : Type 0 where
  pub start_time : ℤ
  pub timeout : ℤ

-- `Timer()`: the timeout is -1.
unfoldable pub start : ℤ → Timer
start now = record { start_time = now; timeout = negsuc 0 }

-- `Timer( timeout )`.
unfoldable pub start_with : ℤ → ℤ → Timer
start_with now timeout = record { start_time = now; timeout = timeout }

unfoldable pub elapsed : ℕ → ℤ → Timer → ℤ
elapsed unit now t = duration_cast unit (now -ℤ t.start_time)

-- The clock is read twice.
unfoldable pub reset : ℤ → ℤ → Timer → ℤ × Timer
unfolding elapsed
reset now now' t = (elapsed 1 now t, record t { start_time = now' })

unfoldable pub remaining : ℕ → ℤ → Timer → ℤ
remaining unit now t = max_ℤ (duration_cast unit (t.timeout -ℤ (now -ℤ t.start_time))) (pos 0)

unfoldable pub has_timed_out : ℤ → Timer → Bool
has_timed_out now t = ltb_ℤ t.timeout (now -ℤ t.start_time)

-- What is left of a timeout in whole units.
abbrev pub left_over : ℕ → ℤ → ℤ
left_over unit (pos n) = pos (n / unit)
left_over unit (negsuc n) = pos 0

max_neg : (q : ℕ) → max_ℤ (neg q) (pos 0) ≡ pos 0
max_neg zero = ground arith
max_neg (suc q) = ground arith

remaining_of : (unit : ℕ) (d : ℤ) → max_ℤ (duration_cast unit d) (pos 0) ≡ left_over unit d
remaining_of unit (pos n) = ground arith
remaining_of unit (negsuc n) = max_neg (suc n / unit)

left_over-at_least : (unit : ℕ) (d : ℤ) → pos 0 ≤ℤ left_over unit d
left_over-at_least unit (pos n) = omega arith
left_over-at_least unit (negsuc n) = omega arith

left_over-none : (unit : ℕ) (d : ℤ) → ltb_ℤ d (pos 0) ≡ true → left_over unit d ≡ pos 0
left_over-none unit (pos n) h = ground arith
left_over-none unit (negsuc n) h = refl

left_over-all : (d : ℤ) → ltb_ℤ d (pos 0) ≡ false → left_over 1 d ≡ d
left_over-all (pos n) h = ground arith
left_over-all (negsuc n) h = ground arith

-- What is left is never negative, in any unit; once the timer has timed out it is 0, and before
-- that, in the unit of the clock, it and the elapsed time make up the timeout. After a reset the
-- time counts from the second reading of the clock.
pub remaining_lem :
    (unit : ℕ) (now now' : ℤ) (t : Timer)
    → (pos 0 ≤ℤ remaining unit now t)
      × (has_timed_out now t ≡ true → remaining unit now t ≡ pos 0)
      × (has_timed_out now t ≡ false → elapsed 1 now t +ℤ remaining 1 now t ≡ t.timeout)
      × (has_timed_out now' (reset now now t).1 ≡ ltb_ℤ t.timeout (now' -ℤ now))
unfolding remaining has_timed_out elapsed reset
remaining_lem unit now now' t = (
  rw (remaining_of unit d) (left_over-at_least unit d),
  λ h. remaining_of unit d ∙ left_over-none unit d (ground (arith, -ℤ_parts t.timeout e)),
  λ h.
      ap (λ r. duration_cast 1 e +ℤ r)
        (remaining_of 1 d ∙ left_over-all d (ground (arith, -ℤ_parts t.timeout e)))
      ∙ ap (λ r. r +ℤ d) (cast_one e)
      ∙ eq_of_parts (e +ℤ d) t.timeout (omega int_laws),
  refl,
)
  where
    e : ℤ
    e = now -ℤ t.start_time

    d : ℤ
    d = t.timeout -ℤ e
