-- ===== src/Text/Tests.antt =====
-- The parsers of include/mart-common/StringView.h at concrete texts.
use mart_common.Prelude.{◌-◌, ◌^◌, ◌≡◌, refl, ◌∷◌, ◌++◌, some, leb, if◌then◌else◌, arith}
use mart_common.Text.{Bytes, codes}
use mart_common.Text.Split.{split, split_at, Splits, split-Splits, split-append}
use mart_common.Text.Integral.{
  value, out_of_range, plain, negated, core, to_integral_unsigned, to_integral_signed,
}
use mart_common.Text.Integral.Bounds.{spelled, checked, core_lem, to_integral_signed_lem}

abbrev pair_text : Bytes
pair_text = codes "ab:cd:e"

split_first : split pair_text b':' ≡ some (codes "ab", codes "cd:e")
unfolding split
split_first = refl

-- The byte at the position of a split is dropped.
split_at_drops : split_at pair_text 1 ≡ some (codes "a", codes ":cd:e")
unfolding split_at
split_at_drops = refl

overflow_u8 : to_integral_unsigned 255 (codes "256") ≡ out_of_range
unfolding to_integral_unsigned
overflow_u8 = refl

-- The least `int` cannot be read: its magnitude does not fit.
least_int : to_integral_signed (2 ^ 31 - 1) (codes "-2147483648") ≡ out_of_range
unfolding to_integral_signed
least_int = refl

split-Splits_example :
    (p : Bytes × Bytes) × (split pair_text b':' ≡ some p) × Splits pair_text b':' p
split-Splits_example = split-Splits pair_text b':'

split-append_example : split (codes "ab" ++ b':' ∷ codes "c") b':' ≡ some (codes "ab", codes "c")
split-append_example = split-append (codes "ab") (codes "c") b':' (omega arith)

core_lem_example : core 255 (codes "256x") ≡ checked 255 (spelled (codes "256x"))
core_lem_example = core_lem 255 (codes "256x") (omega arith)

to_integral_signed_lem_example :
    (to_integral_signed 127 (b'-' ∷ codes "128") ≡ (
      if leb (spelled (codes "128")) 127
      then value (negated (spelled (codes "128")))
      else out_of_range))
    × (to_integral_signed 127 (b'+' ∷ codes "128") ≡ (
        if leb (spelled (codes "128")) 127
        then value (plain (spelled (codes "128")))
        else out_of_range))
    × (to_integral_unsigned 127 (b'+' ∷ codes "128") ≡ checked 127 (spelled (codes "128")))
to_integral_signed_lem_example = to_integral_signed_lem 127 (codes "128") (omega arith)
