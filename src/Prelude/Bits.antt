-- ===== src/Prelude/Bits.antt =====
-- `&` with a mask of low bits and `|` of disjoint fields, as arithmetic.
use Prim.Native.Nat.{
  ℕ, zero, suc, ◌+◌, ◌-◌, ◌*◌, ◌/◌, ◌%◌, ◌^◌, ◌≤◌, ◌<◌, min, max, bit_and, bit_or, digits,
  bit_and-bitwise, bit_or-bitwise,
}
use mathlib.Core.Path.{◌≡◌, refl, ap}
use native.Mathlib.Nat.{pow-suc, one-le-pow}
use native.Mathlib.Omega.{arith}

-- Enough fuel is enough: the digits do not depend on it.
module _ (rest : ℕ → ℕ) (op : ℕ → ℕ → ℕ) where
  digits-fuel_irrel : (m n a b : ℕ) → a ≤ m → a ≤ n → digits rest op m a b ≡ digits rest op n a b
  digits-fuel_irrel zero zero a b hm hn = refl
  digits-fuel_irrel zero (suc n) zero b hm hn = refl
  digits-fuel_irrel zero (suc n) (suc a) b hm hn = absurd (omega arith)
  digits-fuel_irrel (suc m) zero zero b hm hn = refl
  digits-fuel_irrel (suc m) zero (suc a) b hm hn = absurd (omega arith)
  digits-fuel_irrel (suc m) (suc n) zero b hm hn = refl
  digits-fuel_irrel (suc m) (suc n) (suc a) b hm hn =
      omega (arith, digits-fuel_irrel m n (suc a / 2) (b / 2) (omega arith) (omega arith))

-- The lowest bit of `a & b` and of `a | b`, and the rest.
bit_and-halves : (a b : ℕ) → bit_and a b ≡ bit_and (a / 2) (b / 2) * 2 + min (a % 2) (b % 2)
bit_and-halves zero b = omega (arith, bit_and-bitwise 0 b, bit_and-bitwise 0 (b / 2))
bit_and-halves (suc a) b = omega (
  arith,
  bit_and-bitwise (suc a) b,
  bit_and-bitwise (suc a / 2) (b / 2),
  digits-fuel_irrel (λ _. 0) min a (suc a / 2) (suc a / 2) (b / 2) (omega arith) (omega arith),
)

bit_or-halves : (a b : ℕ) → bit_or a b ≡ bit_or (a / 2) (b / 2) * 2 + max (a % 2) (b % 2)
bit_or-halves zero b = omega (arith, bit_or-bitwise 0 b, bit_or-bitwise 0 (b / 2))
bit_or-halves (suc a) b = omega (
  arith,
  bit_or-bitwise (suc a) b,
  bit_or-bitwise (suc a / 2) (b / 2),
  digits-fuel_irrel (λ y. y) max a (suc a / 2) (suc a / 2) (b / 2) (omega arith) (omega arith),
)

bit_and-zero_below : (bound a : ℕ) → a ≤ bound → bit_and a 0 ≡ 0
bit_and-zero_below bound zero h = refl
bit_and-zero_below zero (suc a) h = absurd (omega arith)
bit_and-zero_below (suc bound) (suc a) h =
    omega (arith, bit_and-halves (suc a) 0, bit_and-zero_below bound (suc a / 2) (omega arith))

bit_or-zero_below : (bound a : ℕ) → a ≤ bound → bit_or a 0 ≡ a
bit_or-zero_below bound zero h = refl
bit_or-zero_below zero (suc a) h = absurd (omega arith)
bit_or-zero_below (suc bound) (suc a) h =
    omega (arith, bit_or-halves (suc a) 0, bit_or-zero_below bound (suc a / 2) (omega arith))

times-two_pow : (a k : ℕ) → a * 2 ^ suc k ≡ 2 * (a * 2 ^ k)
times-two_pow a k = omega (arith, ap (λ (t : ℕ). a * t) (pow-suc 2 k))

-- `x << k`, with no bound on the width.
abbrev pub shl : ℕ → ℕ → ℕ
shl x k = x * 2 ^ k

-- `x >> k`.
abbrev pub shr : ℕ → ℕ → ℕ
shr x k = x / 2 ^ k

-- A field placed above `k` free bits, joined with what fits them.
pub bit_or-shl : (k hi lo : ℕ) → lo < 2 ^ k → bit_or (shl hi k) lo ≡ shl hi k + lo
bit_or-shl zero hi lo h = ground (arith, bit_or-zero_below hi hi (omega arith))
bit_or-shl (suc k) hi lo h = ground (
  arith,
  times-two_pow hi k,
  pow-suc 2 k,
  bit_or-halves (hi * 2 ^ suc k) lo,
  bit_or-shl k hi (lo / 2) (omega (arith, pow-suc 2 k)),
)

bit_and-ones_split : (k hi lo : ℕ) → lo < 2 ^ k → bit_and (hi * 2 ^ k + lo) (2 ^ k - 1) ≡ lo
bit_and-ones_split zero hi lo h =
    omega (arith, bit_and-zero_below (hi * 1 + lo) (hi * 1 + lo) (omega arith))
bit_and-ones_split (suc k) hi lo h = ground (
  arith,
  times-two_pow hi k,
  pow-suc 2 k,
  bit_and-halves (hi * 2 ^ suc k + lo) (2 ^ suc k - 1),
  bit_and-ones_split k hi (lo / 2) (omega (arith, pow-suc 2 k)),
)

-- The mask with the `k` low bits set takes the remainder.
pub bit_and-ones : (k a : ℕ) → bit_and a (2 ^ k - 1) ≡ a % 2 ^ k
bit_and-ones k a = ground (arith, one-le-pow k 2, bit_and-ones_split k (a / 2 ^ k) (a % 2 ^ k))

-- The same with the fields in the other order.
pub bit_or_low-shl : (k hi lo : ℕ) → lo < 2 ^ k → bit_or lo (shl hi k) ≡ lo + shl hi k
bit_or_low-shl zero hi lo h =
    let e : lo ≡ 0 = omega arith in
    omega (arith, ap (λ (t : ℕ). bit_or t (shl hi 0)) e, bit_or-bitwise 0 (hi * 1))
bit_or_low-shl (suc k) hi lo h = ground (
  arith,
  times-two_pow hi k,
  pow-suc 2 k,
  bit_or-halves lo (hi * 2 ^ suc k),
  bit_or_low-shl k hi (lo / 2) (omega (arith, pow-suc 2 k)),
)

-- `&` of two shifted words is the shifted `&`.
pub bit_and-shl : (k a b : ℕ) → bit_and (shl a k) (shl b k) ≡ shl (bit_and a b) k
bit_and-shl zero a b =
    let ea : a * 1 ≡ a = omega arith in
    let eb : b * 1 ≡ b = omega arith in rw (ea, eb) (omega arith)
bit_and-shl (suc k) a b = ground (
  arith,
  times-two_pow a k,
  times-two_pow b k,
  times-two_pow (bit_and a b) k,
  bit_and-halves (a * 2 ^ suc k) (b * 2 ^ suc k),
  bit_and-shl k a b,
)
