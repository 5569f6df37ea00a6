-- ===== src/Text/Integral/Bounds.antt =====
-- `to_integral` against the number that the leading digits spell, with no bound on it.
use mart_common.Prelude.{
  ℕ, ◌+◌, ◌-◌, ◌*◌, ◌%◌, ◌≤◌, ◌≡◌, refl, true, [], ◌∷◌, leb, ltb, if◌then◌else◌, All, Bool-cases,
  inl, inr, arith,
}
use native.Mathlib.Nat.{mod-eq_of_lt}
use mart_common.Text.{Bytes, is_digit}
use mart_common.Text.Integral.{
  Parsed, value, out_of_range, overflows, core_loop, core, to_integral_signed, to_integral_unsigned,
  plain, negated, unsafe_loop, to_integral_unsafe,
}

-- The number that the leading digits spell behind the digits already read.
unfoldable pub spelled_from : ℕ → Bytes → ℕ
spelled_from n [] = n
spelled_from n (c ∷ s) = if is_digit c then spelled_from (n * 10 + (c - b'0')) s else n

unfoldable pub spelled : Bytes → ℕ
unfolding spelled_from
spelled s = spelled_from 0 s

spelled_from-ge : (n : ℕ) (s : Bytes) → n ≤ spelled_from n s
unfolding spelled_from
spelled_from-ge n [] = omega arith
spelled_from-ge n (c ∷ s) = ground (arith, spelled_from-ge (n * 10 + (c - b'0')) s)

abbrev pub checked : ℕ → ℕ → Parsed ℕ
checked max_value n = if leb n max_value then value n else out_of_range

is_digit-le : (c : ℕ) → is_digit c ≡ true → (b'0' ≤ c) × (c - b'0' ≤ 9)
is_digit-le c h = ground arith

-- Behind the quick test against a sixteenth of the limit, the slow one is exact.
overflows-exact :
    (max_value n d : ℕ)
    → 9 ≤ max_value
    → d ≤ 9
    → overflows max_value n d ≡ ltb max_value (n * 10 + d)
overflows-exact max_value n d h hd = ground arith

wraps_once : (n max_value : ℕ) → n ≤ max_value → (n + (max_value + 1)) % (max_value + 1) ≡ n
wraps_once n max_value h = grind arith

wrap-fits : (max_value n : ℕ) → n ≤ max_value → n % (max_value + 1) ≡ n
wrap-fits max_value n h = mod-eq_of_lt {n = n} {m = max_value + 1} (omega arith)

core_loop-digit :
    (max_value n c : ℕ) (s : Bytes)
    → 9 ≤ max_value
    → is_digit c ≡ true
    → core_loop max_value n (c ∷ s) ≡ (
        if ltb max_value (n * 10 + (c - b'0'))
        then out_of_range
        else core_loop max_value (n * 10 + (c - b'0')) s)
unfolding core_loop
core_loop-digit max_value n c s h digit =
    rw (digit, overflows-exact max_value n (c - b'0') h (is_digit-le c digit).1)
      (ground (arith, wrap-fits max_value (n * 10 + (c - b'0'))))

core_loop-checked :
    (max_value n : ℕ) (s : Bytes)
    → 9 ≤ max_value
    → n ≤ max_value
    → core_loop max_value n s ≡ checked max_value (spelled_from n s)
unfolding spelled_from
core_loop-checked max_value n [] h fits = unfold core_loop in ground arith
core_loop-checked max_value n (c ∷ s) h fits = elim (Bool-cases (is_digit c)) [
  | inl digit ↦
      rw (core_loop-digit max_value n c s h digit, digit)
        (ground (
          arith,
          spelled_from-ge (n * 10 + (c - b'0')) s,
          core_loop-checked max_value (n * 10 + (c - b'0')) s,
        ))
  | inr other ↦ unfold core_loop in rw (other) (ground arith)
]

unsafe_digit :
    (max_value n c : ℕ)
    → is_digit c ≡ true
    → n * 10 + (c - b'0') ≤ max_value
    → (n * 10 + c + (max_value + 1) - b'0') % (max_value + 1) ≡ n * 10 + (c - b'0')
unsafe_digit max_value n c digit fits =
    let sum : n * 10 + c + (max_value + 1) - b'0' ≡ n * 10 + (c - b'0') + (max_value + 1) =
      omega (arith, is_digit-le c digit) in
    rw sum (wraps_once (n * 10 + (c - b'0')) max_value fits)

unsafe_loop-spelled :
    (max_value n : ℕ) (s : Bytes)
    → All (λ c. is_digit c ≡ true) s
    → spelled_from n s ≤ max_value
    → unsafe_loop max_value n s ≡ spelled_from n s
unfolding unsafe_loop spelled_from
unsafe_loop-spelled max_value n [] digits fits = refl
unsafe_loop-spelled max_value n (c ∷ s) digits fits = ground (
  arith,
  spelled_from-ge (n * 10 + (c - b'0')) s,
  unsafe_digit max_value n c digits.0,
  unsafe_loop-spelled max_value (n * 10 + (c - b'0')) s digits.1,
)

-- `core` returns the number that the leading digits spell when the type can hold it, and throws
-- `std::out_of_range` otherwise, for every type that holds 9: no sum in it ever wraps.
pub core_lem :
    (max_value : ℕ) (s : Bytes) → 9 ≤ max_value → core max_value s ≡ checked max_value (spelled s)
unfolding core spelled
core_lem max_value s h = core_loop-checked max_value 0 s h (omega arith)

-- On a text of digits alone whose number the type can hold, `to_integral_unsafe` returns it.
pub to_integral_unsafe_lem :
    (max_value : ℕ) (s : Bytes)
    → All (λ c. is_digit c ≡ true) s
    → spelled s ≤ max_value
    → to_integral_unsafe max_value s ≡ spelled s
unfolding to_integral_unsafe spelled
to_integral_unsafe_lem max_value s digits fits = unsafe_loop-spelled max_value 0 s digits fits

-- `to_integral` of an unsigned type skips one leading `+`, and of a signed type also reads one
-- leading `-`: each result, the exception included, is fixed by the spelled number alone.
pub to_integral_signed_lem :
    (max_value : ℕ) (s : Bytes)
    → 9 ≤ max_value
    → (to_integral_signed max_value (b'-' ∷ s)
        ≡ (if leb (spelled s) max_value then value (negated (spelled s)) else out_of_range))
      × (to_integral_signed max_value (b'+' ∷ s)
          ≡ (if leb (spelled s) max_value then value (plain (spelled s)) else out_of_range))
      × (to_integral_unsigned max_value (b'+' ∷ s) ≡ checked max_value (spelled s))
unfolding to_integral_signed to_integral_unsigned
to_integral_signed_lem max_value s h = ground (arith, core_lem max_value s h)
