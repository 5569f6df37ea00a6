-- ===== src/Text/Decimal.antt =====
-- `std::to_string` of an unsigned number, which `basic_endpoint_v4_base::toString`
-- (src/mart-netlib/ip.cpp) prints a port with, against the parsers of StringView.h.
use mart_common.Prelude.{
  ℕ, zero, suc, ◌+◌, ◌-◌, ◌*◌, ◌/◌, ◌%◌, ◌^◌, ◌≤◌, ◌<◌, ◌≡◌, refl, true, false, [], ◌∷◌, ◌++◌, ltb,
  All, All-append, length, length-append, Bool-cases, inl, inr, arith,
}
use native.Mathlib.Nat.{pow-suc}
use mart_common.Text.{Bytes, Lacks, is_digit}
use mart_common.Text.Integral.{value, to_integral_unsigned, core}
use mart_common.Text.Integral.Bounds.{spelled, spelled_from, core_lem}

-- The fuel bounds the number of digits; `n` is more than enough.
print_loop : ℕ → ℕ → Bytes
print_loop zero n = (b'0' + n % 10) ∷ []
print_loop (suc fuel) n = elim (ltb n 10) [
  | true ↦ (b'0' + n) ∷ []
  | false ↦ print_loop fuel (n / 10) ++ (b'0' + n % 10) ∷ []
]

unfoldable pub to_string : ℕ → Bytes
unfolding print_loop
to_string n = print_loop n n

abbrev pub Digits : Bytes → Type 0
Digits = All (λ c. is_digit c ≡ true)

-- Digits hold no other byte.
pub Digits-Lacks : (b : ℕ) (s : Bytes) → is_digit b ≡ false → Digits s → Lacks b s
Digits-Lacks b [] h hs = tt
Digits-Lacks b (c ∷ s) h hs = ground (arith, Digits-Lacks b s h hs.1)

pub spelled_from-append :
    (n : ℕ) (s t : Bytes) → Digits s → spelled_from n (s ++ t) ≡ spelled_from (spelled_from n s) t
unfolding spelled_from
spelled_from-append n [] t h = refl
spelled_from-append n (c ∷ s) t h =
    ground (arith, spelled_from-append (n * 10 + (c - b'0')) s t h.1)

scaled_digit : (n d p : ℕ) → d ≤ 9 → (n * 10 + d + 1) * p ≤ (n + 1) * (p * 10)
scaled_digit n d p h = grind arith

spelled_from-lt : (n : ℕ) (s : Bytes) → Digits s → spelled_from n s < (n + 1) * 10 ^ length s
unfolding spelled_from
spelled_from-lt n [] h = omega arith
spelled_from-lt n (c ∷ s) h = ground (
  arith,
  pow-suc 10 (length s),
  scaled_digit n (c - b'0') (10 ^ length s),
  spelled_from-lt (n * 10 + (c - b'0')) s h.1,
)

-- `k` digits spell less than `10 ^ k`.
pub spelled-lt : (s : Bytes) → Digits s → spelled s < 10 ^ length s
unfolding spelled
spelled-lt s h = omega (arith, spelled_from-lt 0 s h)

digit-Digits : (d : ℕ) → d ≤ 9 → Digits ((b'0' + d) ∷ [])
digit-Digits d h = ground arith

print_loop-Digits : (fuel n : ℕ) → Digits (print_loop fuel n)
unfolding print_loop
print_loop-Digits zero n = digit-Digits (n % 10) (omega arith)
print_loop-Digits (suc fuel) n = elim (Bool-cases (ltb n 10)) [
  | inl small ↦ rw (small, print_loop) (digit-Digits n (ground arith))
  | inr large ↦
      rw (large, print_loop)
        (All-append _ (print_loop fuel (n / 10)) _ (print_loop-Digits fuel (n / 10))
          (digit-Digits (n % 10) (omega arith)))
]

spelled_from_digit : (n d : ℕ) → d ≤ 9 → spelled_from n ((b'0' + d) ∷ []) ≡ n * 10 + d
unfolding spelled_from
spelled_from_digit n d h = ground arith

spelled-print_loop : (fuel n : ℕ) → n ≤ fuel → spelled_from 0 (print_loop fuel n) ≡ n
unfolding print_loop
spelled-print_loop zero n h = omega (arith, spelled_from_digit 0 (n % 10) (omega arith))
spelled-print_loop (suc fuel) n h = elim (Bool-cases (ltb n 10)) [
  | inl small ↦ rw (small, print_loop) (omega (arith, spelled_from_digit 0 n (ground arith)))
  | inr large ↦
      rw
        (
          large,
          print_loop,
          spelled_from-append 0 (print_loop fuel (n / 10)) _ (print_loop-Digits fuel (n / 10)),
        )
        (omega (
          arith,
          spelled-print_loop fuel (n / 10) (omega arith),
          spelled_from_digit (spelled_from 0 (print_loop fuel (n / 10))) (n % 10) (omega arith),
        ))
]

-- Printed numbers hold only digits.
pub to_string-Digits : (n : ℕ) → Digits (to_string n)
unfolding to_string
to_string-Digits n = print_loop-Digits n n

-- A printed number spells itself.
pub spelled-to_string : (n : ℕ) → spelled (to_string n) ≡ n
unfolding to_string spelled
spelled-to_string n = spelled-print_loop n n (omega arith)

length-print_loop : (fuel k n : ℕ) → n < 10 ^ suc k → n ≤ fuel → length (print_loop fuel n) ≤ suc k
unfolding print_loop
length-print_loop zero k n h le = omega arith
length-print_loop (suc fuel) zero n h le = let small : n < 10 = omega arith in ground arith
length-print_loop (suc fuel) (suc k) n h le = elim (Bool-cases (ltb n 10)) [
  | inl small ↦ rw (small, print_loop) (omega arith)
  | inr large ↦
      rw (large, print_loop)
        (omega (
          arith,
          length-append (print_loop fuel (n / 10)) ((b'0' + n % 10) ∷ []),
          length-print_loop fuel k (n / 10) (omega (arith, pow-suc 10 (suc k))) (omega arith),
        ))
]

-- A number below `10 ^ k` takes at most `k` digits, if `k` is not 0.
pub length-to_string : (k n : ℕ) → n < 10 ^ suc k → length (to_string n) ≤ suc k
unfolding to_string
length-to_string k n h = length-print_loop n k n h (omega arith)

print_loop-ne-nil : (fuel n : ℕ) → 0 < length (print_loop fuel n)
unfolding print_loop
print_loop-ne-nil zero n = omega arith
print_loop-ne-nil (suc fuel) n = elim (Bool-cases (ltb n 10)) [
  | inl small ↦ rw (small, print_loop) (omega arith)
  | inr large ↦
      rw (large, print_loop)
        (omega (arith, length-append (print_loop fuel (n / 10)) ((b'0' + n % 10) ∷ [])))
]

pub to_string-ne-nil : (n : ℕ) → 0 < length (to_string n)
unfolding to_string
to_string-ne-nil n = print_loop-ne-nil n n

no_plus :
    (s : Bytes)
    → Digits s
    → 0 < length s
    → (max_value : ℕ) → to_integral_unsigned max_value s ≡ core max_value s
unfolding to_integral_unsigned
no_plus [] h p max_value = absurd (omega arith)
no_plus (c ∷ s) h p max_value = ground arith

-- `to_integral` reads back what `std::to_string` prints, for every value of the type.
pub to_integral-to_string :
    (max_value n : ℕ)
    → 9 ≤ max_value
    → n ≤ max_value
    → to_integral_unsigned max_value (to_string n) ≡ value n
to_integral-to_string max_value n h fits =
    rw
      (
        no_plus (to_string n) (to_string-Digits n) (to_string-ne-nil n) max_value,
        core_lem max_value (to_string n) h,
        spelled-to_string n,
      )
      (ground arith)
