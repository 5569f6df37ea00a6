-- ===== src/Math/Tests.antt =====
-- Vectors and matrices of natural numbers.
use mart_common.Prelude.{
  ℕ, ◌+◌, ◌-◌, ◌*◌, ◌/◌, ◌<◌, ◌≡◌, ◌↔◌, true, ltb, ◌==◌, if◌then◌else◌, arith,
}
use native.Mathlib.Nat.{mul-add, add-mul, mul_assoc}
use mart_common.Math.Scalar.{Scalar, IsSemiring, IsOrdered}
use mart_common.Math.Vec.{Vec, lexicographical_compare}
use mart_common.Math.Vec.Compare.{lexicographical_compare_iff}
use mart_common.Math.Matrix.{Matrix}

abbrev numbers : Scalar ℕ
numbers = record {
  zero_ = 0;
  add = λ a b. a + b;
  sub = λ a b. a - b;
  mul = λ a b. a * b;
  div = λ a b. a / b;
  neg = λ a. a;
  lt = ltb;
  eq = λ a b. a == b;
}

numbers-IsSemiring : IsSemiring numbers 1
numbers-IsSemiring = record {
  add_assoc = λ a b c. omega arith;
  add_comm = λ a b. omega arith;
  zero_add = λ a. omega arith;
  mul_assoc = mul_assoc;
  mul_add = mul-add;
  add_mul = add-mul;
  zero_mul = λ a. omega arith;
  mul_zero = λ a. omega arith;
  one_mul = λ a. omega arith;
}

numbers-IsOrdered : IsOrdered numbers
numbers-IsOrdered = record {
  lt_irrefl = λ a h. ground arith;
  lt_trans = λ a b c h k. ground arith;
  lt_total = λ a b. ground arith;
  eq_iff = λ a b. ground arith;
}

abbrev two_of : ℕ → ℕ → Vec ℕ
two_of a b i = if i == 0 then a else b

-- The rows (1 2) and (3 4).
abbrev square : Matrix ℕ
square i = if i == 0 then two_of 1 2 else two_of 3 4

abbrev nothing : Matrix ℕ
nothing i j = 0

lexicographical_compare_iff_example :
    (lexicographical_compare numbers 2 (two_of 5 1) (two_of 5 2) ≡ true) ↔ (
      (k : ℕ) × (k < 2)
      × ((j : ℕ) → j < k → two_of 5 1 j ≡ two_of 5 2 j)
      × (ltb (two_of 5 1 k) (two_of 5 2 k) ≡ true))
lexicographical_compare_iff_example =
    lexicographical_compare_iff numbers 2 (two_of 5 1) (two_of 5 2) numbers-IsOrdered
