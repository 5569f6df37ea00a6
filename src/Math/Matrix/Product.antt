-- ===== src/Math/Matrix/Product.antt =====
-- The product of a matrix and a vector, for elements that form a semiring.
use mart_common.Prelude.{
  ℕ, zero, suc, ◌<◌, ◌≡◌, ◌≢◌, ◌⊎◌, inl, inr, refl, sym, ap, ◌∙◌, ℕ_discrete, arith,
}
use mathlib.Core.Path.{ap₂}
use mart_common.Math.Loop.{loop, fill_inside}
use mart_common.Math.Scalar.{Scalar, IsSemiring}
use mart_common.Math.Vec.{Vec, inner_product, plus, scale, multiplies}
use mart_common.Math.Matrix.{Matrix, mx_multiply, mx_multiply_matrix, zeros, diagonal, eye, diag}
use mart_common.Math.Matrix.Elements.{writes_miss, writes_hit}

module _ {A : Type 0} (S : Scalar A) (u : A) (R : IsSemiring S u) where
  add_zero : (a : A) → S.add a S.zero_ ≡ a
  add_zero a = R.add_comm a S.zero_ ∙ R.zero_add a

  -- Sums in the order of the loops.
  sum : ℕ → (ℕ → A) → A
  sum zero f = S.zero_
  sum (suc n) f = S.add (sum n f) (f n)

  inner_product-sum : (N : ℕ) (l r : Vec A) → inner_product S N l r ≡ sum N (λ i. S.mul (l i) (r i))
  unfolding inner_product sum loop
  inner_product-sum zero l r = refl
  inner_product-sum (suc n) l r = ap (λ a. S.add a (S.mul (l n) (r n))) (inner_product-sum n l r)

  sum-cong : (n : ℕ) (f g : ℕ → A) → ((i : ℕ) → i < n → f i ≡ g i) → sum n f ≡ sum n g
  unfolding sum
  sum-cong zero f g h = refl
  sum-cong (suc n) f g h = ap₂ S.add (sum-cong n f g (λ i l. h i (omega arith))) (h n (omega arith))

  interchange : (a b c d : A) → S.add (S.add a b) (S.add c d) ≡ S.add (S.add a c) (S.add b d)
  interchange a b c d =
      R.add_assoc a b (S.add c d)
      ∙ ap (S.add a)
          (sym (R.add_assoc b c d) ∙ ap (λ x. S.add x d) (R.add_comm b c) ∙ R.add_assoc c b d)
      ∙ sym (R.add_assoc a c (S.add b d))

  sum-add : (n : ℕ) (f g : ℕ → A) → sum n (λ i. S.add (f i) (g i)) ≡ S.add (sum n f) (sum n g)
  unfolding sum
  sum-add zero f g = sym (R.zero_add S.zero_)
  sum-add (suc n) f g =
      ap (λ x. S.add x (S.add (f n) (g n))) (sum-add n f g)
      ∙ interchange (sum n f) (sum n g) (f n) (g n)

  sum-zero : (n : ℕ) → sum n (λ _. S.zero_) ≡ S.zero_
  unfolding sum
  sum-zero zero = refl
  sum-zero (suc n) = ap (λ x. S.add x S.zero_) (sum-zero n) ∙ R.zero_add S.zero_

  mul-sum : (n : ℕ) (a : A) (f : ℕ → A) → S.mul a (sum n f) ≡ sum n (λ i. S.mul a (f i))
  unfolding sum
  mul-sum zero a f = R.mul_zero a
  mul-sum (suc n) a f =
      R.mul_add a (sum n f) (f n) ∙ ap (λ x. S.add x (S.mul a (f n))) (mul-sum n a f)

  sum-mul : (n : ℕ) (f : ℕ → A) (a : A) → S.mul (sum n f) a ≡ sum n (λ i. S.mul (f i) a)
  unfolding sum
  sum-mul zero f a = R.zero_mul a
  sum-mul (suc n) f a =
      R.add_mul (sum n f) (f n) a ∙ ap (λ x. S.add x (S.mul (f n) a)) (sum-mul n f a)

  sum-swap :
      (n k : ℕ) (f : ℕ → ℕ → A) → sum n (λ i. sum k (λ j. f i j)) ≡ sum k (λ j. sum n (λ i. f i j))
  unfolding sum
  sum-swap zero k f = sym (sum-zero k)
  sum-swap (suc n) k f =
      ap (λ x. S.add x (sum k (f n))) (sum-swap n k f)
      ∙ sym (sum-add k (λ j. sum n (λ i. f i j)) (f n))

  -- One term only.
  sum-single :
      (n k : ℕ) (f : ℕ → A) → k < n → ((i : ℕ) → i < n → i ≢ k → f i ≡ S.zero_) → sum n f ≡ f k
  unfolding sum
  sum-single zero k f l h = absurd (omega arith)
  sum-single (suc n) k f l h = elim (ℕ_discrete n k) [
    | yes same ↦
        ap₂ S.add
          (sum-cong n f (λ _. S.zero_) (λ i li. h i (omega arith) (omega arith)) ∙ sum-zero n)
          (ap f same)
        ∙ R.zero_add (f k)
    | no ne ↦
        ap₂ S.add (sum-single n k f (omega arith) (λ i li. h i (omega arith)))
          (h n (omega arith) ne)
        ∙ add_zero (f k)
  ]

  mx_multiply-sum :
      (N1 N2 : ℕ) (m : Matrix A) (v : Vec A) (i : ℕ)
      → i < N1
      → mx_multiply S N1 N2 m v i ≡ sum N2 (λ k. S.mul (m i k) (v k))
  unfolding mx_multiply
  mx_multiply-sum N1 N2 m v i h =
      fill_inside N1 (λ i. inner_product S N2 (m i) v) (λ _. S.zero_) i h
      ∙ inner_product-sum N2 (m i) v

  row-sum :
      (n : ℕ) (a : Vec A) (rows : Matrix A) (j : ℕ)
      → loop n (λ k ret. plus S ret (scale S (a k) (rows k))) (λ _. S.zero_) j
        ≡ sum n (λ k. S.mul (a k) (rows k j))
  unfolding loop sum plus scale
  row-sum zero a rows j = refl
  row-sum (suc n) a rows j = ap (λ x. S.add x (S.mul (a n) (rows n j))) (row-sum n a rows j)

  mx_multiply_matrix-sum :
      (N1 N2 : ℕ) (m b : Matrix A) (i j : ℕ)
      → i < N1
      → mx_multiply_matrix S N1 N2 m b i j ≡ sum N2 (λ k. S.mul (m i k) (b k j))
  unfolding mx_multiply_matrix
  mx_multiply_matrix-sum N1 N2 m b i j h =
      ap (λ row. row j)
        (fill_inside N1 (λ i. loop N2 (λ k ret. plus S ret (scale S (m i k) (b k))) (λ _. S.zero_))
          (zeros S) i h)
      ∙ row-sum N2 (m i) b j

  -- The product with a product of matrices is the product with one after the other, and the
  -- product with a sum of vectors is the sum of the products.
  pub mx_multiply_linear :
      (N1 N2 N3 : ℕ) (a b : Matrix A) (v w : Vec A) (i : ℕ)
      → i < N1
      → (mx_multiply S N1 N3 (mx_multiply_matrix S N1 N2 a b) v i
          ≡ mx_multiply S N1 N2 a (mx_multiply S N2 N3 b v) i)
        × (mx_multiply S N1 N3 a (plus S v w) i
            ≡ plus S (mx_multiply S N1 N3 a v) (mx_multiply S N1 N3 a w) i)
  unfolding plus
  mx_multiply_linear N1 N2 N3 a b v w i h = (
    mx_multiply-sum N1 N3 (mx_multiply_matrix S N1 N2 a b) v i h
        ∙ sum-cong N3 _ _ (λ j _.
          ap (λ x. S.mul x (v j)) (mx_multiply_matrix-sum N1 N2 a b i j h)
          ∙ sum-mul N2 (λ k. S.mul (a i k) (b k j)) (v j))
        ∙ sum-swap N3 N2 (λ j k. S.mul (S.mul (a i k) (b k j)) (v j))
        ∙ sum-cong N2 _ _ (λ k _.
          sum-cong N3 _ _ (λ j _. R.mul_assoc (a i k) (b k j) (v j))
          ∙ sym (mul-sum N3 (a i k) (λ j. S.mul (b k j) (v j))))
        ∙ sum-cong N2 _ _ (λ k l. ap (S.mul (a i k)) (sym (mx_multiply-sum N2 N3 b v k l)))
        ∙ sym (mx_multiply-sum N1 N2 a (mx_multiply S N2 N3 b v) i h),
    mx_multiply-sum N1 N3 a (plus S v w) i h
        ∙ sum-cong N3 _ _ (λ k _. R.mul_add (a i k) (v k) (w k))
        ∙ sum-add N3 (λ k. S.mul (a i k) (v k)) (λ k. S.mul (a i k) (w k))
        ∙ ap₂ S.add (sym (mx_multiply-sum N1 N3 a v i h)) (sym (mx_multiply-sum N1 N3 a w i h)),
  )

  diagonal-at : (n : ℕ) (f : ℕ → A) (i : ℕ) → i < n → diagonal S n f i i ≡ f i
  unfolding diagonal
  diagonal-at n f i h =
      writes_hit n (λ k. k) (λ k. k) f (zeros S) i i i h refl refl (λ p _ ne. inl (λ e. ne (sym e)))

  diagonal-off : (n : ℕ) (f : ℕ → A) (i j : ℕ) → i ≢ j → diagonal S n f i j ≡ S.zero_
  unfolding diagonal
  diagonal-off n f i j ne = writes_miss n (λ k. k) (λ k. k) f (zeros S) i j (λ k _. missed k)
    where
      missed : (k : ℕ) → (i ≢ k) ⊎ (j ≢ k)
      missed k = elim (ℕ_discrete i k) [ yes e ↦ inr (λ z. ne (e ∙ sym z)) | no e ↦ inl e ]

  -- The product with a diagonal matrix multiplies element by element, and the product with `eye`
  -- gives the vector back.
  pub mx_multiply-diag :
      (N : ℕ) (d v : Vec A) (i : ℕ)
      → i < N
      → (mx_multiply S N N (diag S N d) v i ≡ multiplies S d v i)
        × (mx_multiply S N N (eye S N u) v i ≡ v i)
  unfolding diag eye multiplies
  mx_multiply-diag N d v i h = (with_diagonal d, with_diagonal (λ _. u) ∙ R.one_mul (v i))
    where
      with_diagonal : (f : ℕ → A) → mx_multiply S N N (diagonal S N f) v i ≡ S.mul (f i) (v i)
      with_diagonal f =
          mx_multiply-sum N N (diagonal S N f) v i h
          ∙ sum-single N i (λ k. S.mul (diagonal S N f i k) (v k)) h
              (λ k _ ne.
                ap (λ x. S.mul x (v k)) (diagonal-off N f i k (λ e. ne (sym e))) ∙ R.zero_mul (v k))
          ∙ ap (λ x. S.mul x (v i)) (diagonal-at N f i h)
