-- ===== src/Math/Scalar.antt =====
-- The element type of vectors: the operators that MartVec.h uses on it, and the laws that a
-- theorem may ask of them. Integers modulo a power of two have them, floating-point numbers do not.
use mart_common.Prelude.{◌≡◌, ◌↔◌, ◌⊎◌, Bool, true}

pub record Scalar {ℓ} (A : Type ℓ) : Type ℓ where
  pub zero_ : A
  pub add : A → A → A
  pub sub : A → A → A
  pub mul : A → A → A
  pub div : A → A → A
  pub neg : A → A
  pub lt : A → A → Bool
  pub eq : A → A → Bool

-- A semiring with the unit `u`.
pub record IsSemiring {ℓ} {A : Type ℓ} (S : Scalar A) (u : A) : Type ℓ where
  pub add_assoc : (a b c : A) → S.add (S.add a b) c ≡ S.add a (S.add b c)
  pub add_comm : (a b : A) → S.add a b ≡ S.add b a
  pub zero_add : (a : A) → S.add S.zero_ a ≡ a
  pub mul_assoc : (a b c : A) → S.mul (S.mul a b) c ≡ S.mul a (S.mul b c)
  pub mul_add : (a b c : A) → S.mul a (S.add b c) ≡ S.add (S.mul a b) (S.mul a c)
  pub add_mul : (a b c : A) → S.mul (S.add a b) c ≡ S.add (S.mul a c) (S.mul b c)
  pub zero_mul : (a : A) → S.mul S.zero_ a ≡ S.zero_
  pub mul_zero : (a : A) → S.mul a S.zero_ ≡ S.zero_
  pub one_mul : (a : A) → S.mul u a ≡ a

-- `<` and `==` of a total order.
pub record IsOrdered {ℓ} {A : Type ℓ} (S : Scalar A) : Type ℓ where
  pub lt_irrefl : (a : A) → S.lt a a ≡ true → ⊥
  pub lt_trans : (a b c : A) → S.lt a b ≡ true → S.lt b c ≡ true → S.lt a c ≡ true
  pub lt_total : (a b : A) → (S.lt a b ≡ true) ⊎ (a ≡ b) ⊎ (S.lt b a ≡ true)
  pub eq_iff : (a b : A) → (S.eq a b ≡ true) ↔ (a ≡ b)
