-- ===== src/Utils/Tests.antt =====
-- Examples for utils.h.
use mart_common.Prelude.{◌≡◌, refl, false, none, some, true, if◌then◌else◌, arith}
use mart_common.Prelude.Int.{pos, negsuc}
use mart_common.Utils.{IntType, in_range, narrow, narrow_cast, sign_check}
use mart_common.Utils.Narrow.{narrow_iff}

abbrev uint8 : IntType
uint8 = record { is_signed = false; half = 128 }

abbrev int32 : IntType
int32 = record { is_signed = true; half = 2_147_483_648 }

too_large : narrow uint8 int32 (pos 256) ≡ none
unfolding narrow narrow_cast sign_check
too_large = refl

negative : narrow uint8 int32 (negsuc 0) ≡ none
unfolding narrow narrow_cast sign_check
negative = refl

narrow_iff_example :
    narrow uint8 int32 (pos 200) ≡ (if in_range uint8 (pos 200) then some (pos 200) else none)
narrow_iff_example = narrow_iff uint8 int32 (pos 200) (omega arith) (omega arith) refl
