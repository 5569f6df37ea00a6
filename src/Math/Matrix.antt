-- ===== src/Math/Matrix.antt =====
-- `Matrix<T, N1, N2>` of include/mart-common/MartVec.h: a vector of rows.
pub mod Elements
pub mod Product
use mart_common.Prelude.{
  ℕ, zero, suc, ◌+◌, ◌-◌, ◌≤◌, Bool, ◌&&◌, Option, none, some, ltb, leb, if◌then◌else◌,
}
use mart_common.Prelude.Threads.{update}
use mart_common.Math.Loop.{loop, fill}
use mart_common.Math.Scalar.{Scalar}
use mart_common.Math.Vec.{Vec, inner_product, plus, scale, concat}

abbrev pub Matrix : Type 0 → Type 0
Matrix A = Vec (Vec A)

-- `ret[r][c] = a`.
abbrev pub write : {A : Type 0} → Matrix A → ℕ → ℕ → A → Matrix A
write ret r c a = update ret r (update (ret r) c a)

module _ {A : Type 0} where
  -- The nested loops: `ret[r][c] = f(r, c)` for each row and column.
  unfoldable pub fill_matrix : ℕ → ℕ → (ℕ → ℕ → A) → Matrix A → Matrix A
  unfolding loop
  fill_matrix rows cols f ret = loop rows (λ r m. loop cols (λ c k. write k r c (f r c)) m) ret

  -- `transpose`, which writes by columns; `ret` is the fresh matrix.
  unfoldable pub transpose : ℕ → ℕ → Matrix A → Matrix A → Matrix A
  unfolding loop
  transpose rows cols m ret = loop rows (λ r k. loop cols (λ c q. write q c r (m r c)) k) ret

  -- `submatrix`; `none` is a failed assertion.
  unfoldable pub submatrix : ℕ → ℕ → ℕ → ℕ → Matrix A → ℕ → ℕ → Matrix A → Option (Matrix A)
  unfolding fill_matrix
  submatrix M_R N_R M N mat m n ret =
      if leb (M_R + m) M && leb (N_R + n) N
      then some (fill_matrix M_R N_R (λ i j. mat (i + m) (j + n)) ret)
      else none

  -- `mx::horzcat`, and `mx::vertcat`.
  unfoldable pub horzcat : ℕ → ℕ → ℕ → Matrix A → Matrix A → Matrix A → Matrix A
  unfolding fill_matrix loop
  horzcat M N1 N2 m1 m2 ret =
      loop M (λ m k. loop N2 (λ n q. write q m (n + N1) (m2 m n)) k) (fill_matrix M N1 m1 ret)

  unfoldable pub vertcat : ℕ → Matrix A → Matrix A → Matrix A
  unfolding concat
  vertcat M1 m1 m2 = concat M1 m1 m2

  -- `mx::ones`, `mx::v_2_m` and the two kinds of `mx::m_2_v`.
  unfoldable pub ones : ℕ → ℕ → A → Matrix A → Matrix A
  unfolding fill_matrix
  ones M N val ret = fill_matrix M N (λ r c. val) ret

  unfoldable pub v_2_m : ℕ → Vec A → Matrix A → Matrix A
  unfolding loop
  v_2_m M v ret = loop M (λ i k. write k i 0 (v i)) ret

  unfoldable pub m_2_v_row : Matrix A → Vec A
  m_2_v_row m = m 0

  unfoldable pub m_2_v_column : ℕ → Matrix A → Vec A → Vec A
  unfolding fill
  m_2_v_column M m ret = fill M (λ i. m i 0) ret

module _ {A : Type 0} (S : Scalar A) where
  -- `Matrix<T, M, N> ret{}` and `mx::zeros`.
  abbrev pub zeros : Matrix A
  zeros r c = S.zero_

  -- `outer_product` and `outer_division`.
  unfoldable pub outer_product : ℕ → ℕ → Vec A → Vec A → Matrix A
  unfolding fill_matrix
  outer_product M N lv rv = fill_matrix M N (λ r c. S.mul (lv r) (rv c)) zeros

  unfoldable pub outer_division : ℕ → ℕ → Vec A → Vec A → Matrix A
  unfolding fill_matrix
  outer_division M N lv rv = fill_matrix M N (λ r c. S.div (lv r) (rv c)) zeros

  -- `mx_multiply` of a matrix and a vector.
  unfoldable pub mx_multiply : ℕ → ℕ → Matrix A → Vec A → Vec A
  unfolding fill inner_product
  mx_multiply N1 N2 mx vec = fill N1 (λ i. inner_product S N2 (mx i) vec) (λ _. S.zero_)

  -- The same for a matrix in place of the vector: its rows are the elements.
  unfoldable pub mx_multiply_matrix : ℕ → ℕ → Matrix A → Matrix A → Matrix A
  unfolding fill loop plus scale
  mx_multiply_matrix N1 N2 mx rows =
      fill N1 (λ i. loop N2 (λ k ret. plus S ret (scale S (mx i k) (rows k))) (λ _. S.zero_)) zeros

  -- `mx::eye<N>`, `mx::eye<N, M>` and `mx::diag`, which write the diagonal of a matrix of zeros.
  unfoldable pub diagonal : ℕ → (ℕ → A) → Matrix A
  unfolding loop
  diagonal M f = loop M (λ i k. write k i i (f i)) zeros

  unfoldable pub eye : ℕ → A → Matrix A
  unfolding diagonal
  eye N v = diagonal N (λ _. v)

  unfoldable pub eye_rectangular : ℕ → ℕ → A → Matrix A
  unfolding diagonal
  eye_rectangular N M v = diagonal (if ltb N M then N else M) (λ _. v)

  unfoldable pub diag : ℕ → Vec A → Matrix A
  unfolding diagonal
  diag M v = diagonal M v

  unfoldable pub diag_column : ℕ → Matrix A → Matrix A
  unfolding diagonal
  diag_column M v = diagonal M (λ i. v i 0)
