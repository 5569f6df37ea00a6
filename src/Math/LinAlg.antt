-- ===== src/Math/LinAlg.antt =====
-- include/mart-common/experimental/lin_alg/matrix.h: cofactors, determinant and inverse.
pub mod Cofactors
mod Tests
use mart_common.Prelude.{ℕ, zero, suc, ◌+◌, ◌-◌, ◌%◌, ◌==◌, Bool, Option, none, some, if◌then◌else◌}
use mart_common.Math.Loop.{loop}
use mart_common.Math.Scalar.{Scalar}
use mart_common.Math.Matrix.{Matrix, write, fill_matrix, zeros}

module _ {A : Type 0} where
  -- One turn of the loop over the columns: row `r` of `m` goes to row `to` of `t`, but for column
  -- `q`; the other part of the state is `j`.
  abbrev pub copy_element : Matrix A → ℕ → ℕ → ℕ → ℕ → Matrix A × ℕ → Matrix A × ℕ
  copy_element m q r to c s = if c == q then s else (write s.0 to s.1 (m r c), s.1 + 1)

  unfoldable pub copy_row : ℕ → Matrix A → ℕ → ℕ → ℕ → Matrix A → Matrix A
  unfolding loop
  copy_row n m q r to t = (loop n (copy_element m q r to) (t, 0)).0

  -- `getCfactor`, without row `p` and column `q`; `t` is the fresh matrix.
  unfoldable pub get_cfactor : ℕ → Matrix A → ℕ → ℕ → Matrix A → Matrix A
  unfolding loop copy_row
  get_cfactor n m p q t =
      let t = loop p (λ r t. copy_row n m q r r t) t in
      loop (n - (p + 1)) (λ k t. copy_row n m q (p + 1 + k) (p + 1 + k - 1) t) t

module _ {A : Type 0} (S : Scalar A) (one : A) where
  -- `detail::abs`, and `detail::inf_norm`.
  unfoldable pub abs : A → A
  abs v = if S.lt v S.zero_ then S.neg v else v

  unfoldable pub inf_norm : ℕ → Matrix A → A
  unfolding loop abs
  inf_norm n m =
      loop n
        (λ r max.
          let acc = loop n (λ c acc. S.add acc (abs (m r c))) S.zero_ in
          if S.lt max acc then acc else max)
        S.zero_

  -- `calc_det` of a matrix with `k + 1` rows; the state of the loop is `D` and `s`.
  unfoldable pub calc_det : ℕ → Matrix A → A
  unfolding loop get_cfactor
  calc_det zero m = m 0 0
  calc_det (suc k) m =
      (loop {S = A × A} (k + 2)
        (λ f s. (
          S.add s.0 (S.mul (S.mul s.1 (m 0 f)) (calc_det k (get_cfactor (k + 2) m 0 f (zeros S)))),
          S.neg s.1,
        ))
        (S.zero_, one)).0

  -- 1 or -1.
  abbrev pub sign : ℕ → ℕ → A
  sign i j = if (i + j) % 2 == 0 then one else S.neg one

  -- `calc_adj` of a matrix with `k + 1` rows; the loops write by columns.
  unfoldable pub calc_adj : ℕ → Matrix A → Matrix A
  unfolding loop calc_det get_cfactor
  calc_adj zero m = λ r c. one
  calc_adj (suc k) m =
      loop (k + 2)
        (λ i t.
          loop (k + 2)
            (λ j q.
              write q j i (S.mul (sign i j) (calc_det k (get_cfactor (k + 2) m i j (zeros S)))))
            t)
        (zeros S)

  unfoldable pub calc_inv : ℕ → Matrix A → Option (Matrix A)
  unfolding calc_det calc_adj
  calc_inv k m =
      let d = calc_det k m in
      if S.eq d S.zero_ then none else some (λ r c. S.div (calc_adj k m r c) d)
