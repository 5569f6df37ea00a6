-- ===== src/Utils.antt =====
-- include/mart-common/utils.h: `narrow` and `clamp`. An integer type is given by its signedness and
-- half of its number of values; a value is an integer.
pub mod Narrow
mod Tests
use mart_common.Prelude.{
  ℕ, suc, ◌+◌, ◌-◌, ◌*◌, ◌%◌, ◌≤◌, ◌<◌, Bool, true, false, not, ◌&&◌, ◌||◌, Option, none, some, ltb,
  leb, if◌then◌else◌,
}
use mart_common.Prelude.Int.{ℤ, pos, negsuc, pos_part, neg_part, ◌-ℤ◌, ltb_ℤ, ◌==ℤ◌}

pub record IntType : Type 0 where
  pub is_signed : Bool
  pub half : ℕ

-- The values from the least to the greatest.
abbrev pub in_range : IntType → ℤ → Bool
in_range T (pos n) = ltb n (if T.is_signed then T.half else 2 * T.half)
in_range T (negsuc n) = T.is_signed && ltb n T.half

abbrev pub modulo : ℕ → ℤ → ℕ
modulo m (pos n) = n % m
modulo m (negsuc n) = m - 1 - n % m

-- `narrow_cast`: the value modulo the number of values.
unfoldable pub narrow_cast : IntType → ℤ → ℤ
narrow_cast T u =
    let r = modulo (2 * T.half) u in
    if T.is_signed && leb T.half r then negsuc (2 * T.half - r - 1) else pos r

abbrev pub is_negative : ℤ → Bool
is_negative z = ltb_ℤ z (pos 0)

abbrev pub differ : Bool → Bool → Bool
differ a b = if a then not b else b

-- `sign_check`: whether it throws.
unfoldable pub sign_check : IntType → IntType → ℤ → ℤ → Bool
sign_check T U t u = differ T.is_signed U.is_signed && differ (is_negative t) (is_negative u)

-- `narrow<T>( U )`; none is the exception `narrowing_error`.
unfoldable pub narrow : IntType → IntType → ℤ → Option ℤ
unfolding narrow_cast sign_check
narrow T U u =
    let t = narrow_cast T u in
    if sign_check T U t u then none else (if not (narrow_cast U t ==ℤ u) then none else some t)

abbrev pub min_ℤ : ℤ → ℤ → ℤ
min_ℤ a b = if ltb_ℤ b a then b else a

abbrev pub max_ℤ : ℤ → ℤ → ℤ
max_ℤ a b = if ltb_ℤ a b then b else a

pub record Limits1D : Type 0 where
  pub min : ℤ
  pub max : ℤ

-- `Limits1D( T v )`.
unfoldable pub symmetric : ℤ → Limits1D
symmetric v = record { min = pos 0 -ℤ v; max = v }

unfoldable pub clamp : ℤ → ℤ → ℤ → ℤ
clamp val min_val max_val = min_ℤ max_val (max_ℤ min_val val)

unfoldable pub clamp_limits : ℤ → Limits1D → ℤ
clamp_limits val lim = min_ℤ lim.max (max_ℤ val lim.min)
