-- ===== src/Utils/Narrow.antt =====
-- When `narrow` succeeds, and what `clamp` returns.
use mart_common.Prelude.{
  ℕ, ◌*◌, ◌%◌, ◌<◌, ◌≡◌, ◌∙◌, ap, sym, refl, Bool, true, false, not, Option, none, some,
  if◌then◌else◌, ltb→lt, Bool-cases, inl, inr, ◌⊎◌, arith,
}
use mart_common.Prelude.Int.{ℤ, pos, negsuc, ◌≤ℤ◌, ◌==ℤ◌, eq_of_parts}
use native.Mathlib.Nat.{mod-lt, mod-eq_of_lt}
use mart_common.Utils.{
  IntType, in_range, modulo, narrow_cast, is_negative, sign_check, narrow, clamp,
}

modulo-lt : (m : ℕ) (u : ℤ) → 0 < m → modulo m u < m
modulo-lt m (pos n) h = mod-lt n h
modulo-lt m (negsuc n) h = omega (arith, h)

narrow_cast-in_range : (T : IntType) (u : ℤ) → 0 < T.half → in_range T (narrow_cast T u) ≡ true
unfolding narrow_cast
narrow_cast-in_range T u h = ground (arith, modulo-lt (2 * T.half) u (omega (arith, h)))

modulo-same : (m n : ℕ) → n < m → n % m ≡ n
modulo-same m n h = mod-eq_of_lt h

narrow_cast-same : (T : IntType) (u : ℤ) → in_range T u ≡ true → narrow_cast T u ≡ u
unfolding narrow_cast
narrow_cast-same T (pos n) h =
    let lt = ltb→lt n (if T.is_signed then T.half else 2 * T.half) h in
    rw (modulo-same (2 * T.half) n (ground arith)) (ground arith)
narrow_cast-same T (negsuc n) h = rw (modulo-same (2 * T.half) n (ground arith)) (ground arith)

eq_ℤ : (a b : ℤ) → (a ==ℤ b) ≡ true → a ≡ b
eq_ℤ (pos a) (pos b) h = ground arith
eq_ℤ (pos a) (negsuc b) h = absurd (ground arith)
eq_ℤ (negsuc a) (pos b) h = absurd (ground arith)
eq_ℤ (negsuc a) (negsuc b) h = ground arith

refl_ℤ : (a : ℤ) → (a ==ℤ a) ≡ true
refl_ℤ (pos a) = ground arith
refl_ℤ (negsuc a) = ground arith

-- Values of two types, on the same side of 0 if one type is signed and the other is not: the first
-- fits the second type, or the second fits the first.
comparable :
    (T U : IntType) (t u : ℤ)
    → in_range T t ≡ true
    → in_range U u ≡ true
    → sign_check T U t u ≡ false
    → (in_range U t ≡ true) ⊎ (in_range T u ≡ true)
unfolding sign_check
comparable T U (pos t) (pos u) ht hu s = ground arith
comparable T U (pos t) (negsuc u) ht hu s = ground arith
comparable T U (negsuc t) (pos u) ht hu s = ground arith
comparable T U (negsuc t) (negsuc u) ht hu s = ground arith

same_sign : (T U : IntType) (u : ℤ) → sign_check T U u u ≡ false
unfolding sign_check
same_sign T U u = elim (Bool-cases (is_negative u)) [
  | inl e ↦ ground (arith, e)
  | inr e ↦ ground (arith, e)
]

abbrev checked : Bool → Bool → ℤ → Option ℤ
checked a b t = if a then none else (if not b then none else some t)

refused : (a b : Bool) (t : ℤ) → (a ≡ false → b ≡ true → ⊥) → checked a b t ≡ none
refused true b t h = refl
refused false true t h = absurd (h refl refl)
refused false false t h = refl

-- For a value of its own type, `narrow` succeeds exactly if the value is one of the other type, and
-- then returns it as it is, whatever the signs and the sizes of the two types.
pub narrow_iff :
    (T U : IntType) (u : ℤ)
    → 0 < T.half
    → 0 < U.half
    → in_range U u ≡ true
    → narrow T U u ≡ (if in_range T u then some u else none)
unfolding narrow
narrow_iff T U u hT hU own = elim (Bool-cases (in_range T u)) [
  | inl e ↦ rw (e, narrow_cast-same T u e, narrow_cast-same U u own, same_sign T U u, refl_ℤ u) refl
  | inr e ↦ rw e (refused _ _ (narrow_cast T u) (λ s r. not_comparable e s r))
]
  where
    t : ℤ
    t = narrow_cast T u

    not_comparable :
        in_range T u ≡ false → sign_check T U t u ≡ false → (narrow_cast U t ==ℤ u) ≡ true → ⊥
    not_comparable e s r = elim (comparable T U t u (narrow_cast-in_range T u hT) own s) [
      | inl fits ↦ absurd (
          ground (
            arith,
            e,
            ap (in_range T) (sym (narrow_cast-same U t fits) ∙ eq_ℤ (narrow_cast U t) u r),
            narrow_cast-in_range T u hT,
          ))
      | inr fits ↦ absurd (ground (arith, e, fits))
    ]

-- The result of `clamp` lies within the limits, and is the value if that does.
pub clamp_lem :
    (val min_val max_val : ℤ)
    → min_val ≤ℤ max_val
    → (min_val ≤ℤ clamp val min_val max_val)
      × (clamp val min_val max_val ≤ℤ max_val)
      × (min_val ≤ℤ val → val ≤ℤ max_val → clamp val min_val max_val ≡ val)
unfolding clamp
clamp_lem val min_val max_val h = ground (arith, eq_of_parts val min_val, eq_of_parts val max_val)
