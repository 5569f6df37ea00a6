-- ===== src/Text/Integral.antt =====
-- `to_integral` and `to_integral_unsafe` of include/mart-common/StringView.h. A target type is
-- given by its largest value `max_value`; arithmetic in it is reduced by `max_value + 1`.
pub mod Bounds
use mart_common.Prelude.{
  ℕ, ◌+◌, ◌-◌, ◌*◌, ◌/◌, ◌%◌, Bool, true, false, not, ◌&&◌, ◌||◌, List, [], ◌∷◌, ltb, leb, ◌==◌,
  if◌then◌else◌, drop,
}
use mart_common.Text.{Bytes, is_digit}

-- What a parser returns: a value, or the exception `std::out_of_range`.
pub data Parsed {ℓ} (A : Type ℓ) : Type ℓ where
  value : A → Parsed A
  out_of_range : Parsed A

-- An `int` result: a magnitude behind `-`, or plain.
pub data Signed : Type 0 where
  plain : ℕ → Signed
  negated : ℕ → Signed

module _ (max_value : ℕ) where
  -- The two tests that guard `tmp * 10 + d`.
  abbrev pub overflows : ℕ → ℕ → Bool
  overflows tmp d = leb (max_value / 16) tmp && ltb ((max_value - d) / 10) tmp

  core_loop : ℕ → Bytes → Parsed ℕ
  core_loop tmp [] = value tmp
  core_loop tmp (c ∷ s) =
      if not (is_digit c)
      then value tmp
      else if overflows tmp (c - b'0')
      then out_of_range
      else core_loop ((tmp * 10 + (c - b'0')) % (max_value + 1)) s

  -- `details_to_integral::core`.
  unfoldable pub core : Bytes → Parsed ℕ
  unfolding core_loop
  core s = core_loop 0 s

  -- `details_to_integral::base` of an unsigned type; on the empty text its assertion fails,
  -- and `to_integral` never calls it there.
  unfoldable pub base_unsigned : Bytes → Parsed ℕ
  unfolding core
  base_unsigned [] = value 0
  base_unsigned (c ∷ s) = if c == b'+' then core s else core (c ∷ s)

  negate : Parsed ℕ → Parsed Signed
  negate (value n) = value (negated n)
  negate out_of_range = out_of_range

  keep : Parsed ℕ → Parsed Signed
  keep (value n) = value (plain n)
  keep out_of_range = out_of_range

  -- `details_to_integral::base` of a signed type.
  unfoldable pub base_signed : Bytes → Parsed Signed
  unfolding core negate keep
  base_signed [] = value (plain 0)
  base_signed (c ∷ s) =
      if c == b'-'
      then negate (core s)
      else if c == b'+'
      then keep (core s)
      else keep (core (c ∷ s))

  -- `to_integral<T>`.
  unfoldable pub to_integral_unsigned : Bytes → Parsed ℕ
  unfolding base_unsigned
  to_integral_unsigned [] = value 0
  to_integral_unsigned (c ∷ s) = base_unsigned (c ∷ s)

  unfoldable pub to_integral_signed : Bytes → Parsed Signed
  unfolding base_signed
  to_integral_signed [] = value (plain 0)
  to_integral_signed (c ∷ s) = base_signed (c ∷ s)

  unsafe_loop : ℕ → Bytes → ℕ
  unsafe_loop v [] = v
  unsafe_loop v (c ∷ s) = unsafe_loop ((v * 10 + c + (max_value + 1) - b'0') % (max_value + 1)) s

  -- `to_integral_unsafe<T>` of an unsigned type: no check at all, the arithmetic wraps.
  unfoldable pub to_integral_unsafe : Bytes → ℕ
  unfolding unsafe_loop
  to_integral_unsafe s = unsafe_loop 0 s
