-- ===== src/Math/LinAlg/Tests.antt =====
-- Examples for cofactors and determinants, on integers.
use mart_common.Prelude.{◌+◌, ◌*◌, ◌≡◌, ◌==◌, if◌then◌else◌, ℕ_discrete, refl, arith}
use mart_common.Prelude.Int.{ℤ, pos, ◌+ℤ◌, ◌-ℤ◌, ◌*ℤ◌, ltb_ℤ, ◌==ℤ◌}
use mart_common.Math.Loop.{loop}
use mart_common.Math.Scalar.{Scalar}
use mart_common.Math.Matrix.{Matrix}
use mart_common.Math.LinAlg.{copy_row, get_cfactor, calc_det}
use mart_common.Math.LinAlg.Cofactors.{skip, get_cfactor_lem}

-- The division is not used here.
abbrev integers : Scalar ℤ
integers = record {
  zero_ = pos 0;
  add = λ a b. a +ℤ b;
  sub = λ a b. a -ℤ b;
  mul = λ a b. a *ℤ b;
  div = λ a b. a;
  neg = λ a. pos 0 -ℤ a;
  lt = ltb_ℤ;
  eq = λ a b. a ==ℤ b;
}

-- 0 1 2 / 3 4 5 / 6 7 8 with 9 in place of 0.
abbrev nine : Matrix ℤ
nine r c = if r + c == 0 then pos 9 else pos (3 * r + c)

-- The two rows and columns at the front.
determinant : calc_det integers (pos 1) 1 nine ≡ pos 33
unfolding calc_det get_cfactor copy_row loop ◌+ℤ◌ ◌-ℤ◌ ◌*ℤ◌ ℕ_discrete
determinant = refl

get_cfactor_lem_example : get_cfactor 3 nine 1 0 (λ r c. pos 0) 1 1 ≡ nine (skip 1 1) (skip 0 1)
get_cfactor_lem_example =
    get_cfactor_lem 3 nine 1 0 (λ r c. pos 0) 1 1 (omega arith) (omega arith) (omega arith)
      (omega arith)
