-- ===== src/Math/Matrix/Elements.antt =====
-- Which element the loops leave where.
use mart_common.Prelude.{
  ℕ, zero, suc, ◌+◌, ◌≤◌, ◌<◌, ◌≡◌, ◌≢◌, ◌⊎◌, inl, inr, refl, sym, ap, ◌∙◌, some, ℕ_discrete, arith,
}
use mart_common.Prelude.Threads.{update, update_self, update_ne}
use mart_common.Math.Loop.{loop}
use mart_common.Math.Matrix.{Matrix, write, fill_matrix, transpose, submatrix, horzcat}

module _ {A : Type 0} where
  pub write_here : (m : Matrix A) (r c i j : ℕ) (a : A) → i ≡ r → j ≡ c → write m r c a i j ≡ a
  write_here m r c i j a ei ej =
      ap (λ row. row j) (ap (write m r c a) ei ∙ update_self m r (update (m r) c a))
      ∙ ap (update (m r) c a) ej
      ∙ update_self (m r) c a

  pub write_other :
      (m : Matrix A) (r c i j : ℕ) (a : A) → (i ≢ r) ⊎ (j ≢ c) → write m r c a i j ≡ m i j
  write_other m r c i j a h = elim (ℕ_discrete r i) [
    | yes same ↦ elim h [
      | inl ne ↦ absurd (ne (sym same))
      | inr ne ↦ rw (sym same) (
          ap (λ row. row j) (update_self m r (update (m r) c a))
          ∙ update_ne (m r) c j a (λ e. ne (sym e)))
    ]
    | no ne ↦ ap (λ row. row j) (update_ne m r i (update (m r) c a) ne)
  ]

  -- A loop whose writes go to one place each: `row n` and `col n` in the step `n`.
  pub writes_miss :
      (n : ℕ) (row col : ℕ → ℕ) (f : ℕ → A) (m : Matrix A) (i j : ℕ)
      → ((k : ℕ) → k < n → (i ≢ row k) ⊎ (j ≢ col k))
      → loop n (λ k q. write q (row k) (col k) (f k)) m i j ≡ m i j
  unfolding loop
  writes_miss zero row col f m i j h = refl
  writes_miss (suc n) row col f m i j h =
      write_other (loop n (λ k q. write q (row k) (col k) (f k)) m) (row n) (col n) i j (f n)
        (h n (omega arith))
      ∙ writes_miss n row col f m i j (λ k l. h k (omega arith))

  pub writes_hit :
      (n : ℕ) (row col : ℕ → ℕ) (f : ℕ → A) (m : Matrix A) (k i j : ℕ)
      → k < n
      → i ≡ row k
      → j ≡ col k
      → ((p : ℕ) → p < n → p ≢ k → (i ≢ row p) ⊎ (j ≢ col p))
      → loop n (λ k q. write q (row k) (col k) (f k)) m i j ≡ f k
  unfolding loop
  writes_hit zero row col f m k i j l ei ej h = absurd (omega arith)
  writes_hit (suc n) row col f m k i j l ei ej h = elim (ℕ_discrete n k) [
    | yes same ↦
        write_here (loop n (λ k q. write q (row k) (col k) (f k)) m) (row n) (col n) i j (f n)
          (ei ∙ ap row (sym same)) (ej ∙ ap col (sym same))
        ∙ ap f same
    | no ne ↦
        write_other (loop n (λ k q. write q (row k) (col k) (f k)) m) (row n) (col n) i j (f n)
          (h n (omega arith) ne)
        ∙ writes_hit n row col f m k i j (omega arith) ei ej (λ p lt np. h p (omega arith) np)
  ]

  outer_miss :
      (n : ℕ) (g : ℕ → Matrix A → Matrix A) (m : Matrix A) (i j : ℕ)
      → ((r : ℕ) → r < n → (q : Matrix A) → g r q i j ≡ q i j)
      → loop n g m i j ≡ m i j
  unfolding loop
  outer_miss zero g m i j h = refl
  outer_miss (suc n) g m i j h =
      h n (omega arith) (loop n g m) ∙ outer_miss n g m i j (λ r l. h r (omega arith))

  outer_hit :
      (n : ℕ) (g : ℕ → Matrix A → Matrix A) (m : Matrix A) (k i j : ℕ) (a : A)
      → k < n
      → ((q : Matrix A) → g k q i j ≡ a)
      → ((r : ℕ) → r < n → r ≢ k → (q : Matrix A) → g r q i j ≡ q i j)
      → loop n g m i j ≡ a
  unfolding loop
  outer_hit zero g m k i j a l hit miss = absurd (omega arith)
  outer_hit (suc n) g m k i j a l hit miss = elim (ℕ_discrete n k) [
    | yes same ↦ ap (λ p. g p (loop n g m) i j) same ∙ hit (loop n g m)
    | no ne ↦
        miss n (omega arith) ne (loop n g m)
        ∙ outer_hit n g m k i j a (omega arith) hit (λ r lr. miss r (omega arith))
  ]

  pub fill_matrix_element :
      (rows cols : ℕ) (f : ℕ → ℕ → A) (ret : Matrix A) (i j : ℕ)
      → i < rows
      → j < cols
      → fill_matrix rows cols f ret i j ≡ f i j
  unfolding fill_matrix
  fill_matrix_element rows cols f ret i j hi hj =
      outer_hit rows (λ r m. loop cols (λ c k. write k r c (f r c)) m) ret i i j (f i j) hi
        (λ q.
          writes_hit cols (λ _. i) (λ c. c) (f i) q j i j hj refl refl
            (λ p _ ne. inr (λ e. ne (sym e))))
        (λ r _ ne q. writes_miss cols (λ _. r) (λ c. c) (f r) q i j (λ _ _. inl (λ e. ne (sym e))))

  pub transpose_element :
      (rows cols : ℕ) (m ret : Matrix A) (i j : ℕ)
      → i < cols
      → j < rows
      → transpose rows cols m ret i j ≡ m j i
  unfolding transpose
  transpose_element rows cols m ret i j hi hj =
      outer_hit rows (λ r k. loop cols (λ c q. write q c r (m r c)) k) ret j i j (m j i) hj
        (λ q.
          writes_hit cols (λ c. c) (λ _. j) (m j) q i i j hi refl refl
            (λ p _ ne. inl (λ e. ne (sym e))))
        (λ r _ ne q. writes_miss cols (λ c. c) (λ _. r) (m r) q i j (λ _ _. inr (λ e. ne (sym e))))

  horzcat_left :
      (M N1 N2 : ℕ) (m1 m2 ret : Matrix A) (i j : ℕ)
      → i < M
      → j < N1
      → horzcat M N1 N2 m1 m2 ret i j ≡ m1 i j
  unfolding horzcat
  horzcat_left M N1 N2 m1 m2 ret i j hi hj =
      outer_miss M (λ m k. loop N2 (λ n q. write q m (n + N1) (m2 m n)) k) (fill_matrix M N1 m1 ret)
        i j (λ r _ q. writes_miss N2 (λ _. r) (λ n. n + N1) (m2 r) q i j (λ k _. inr (omega arith)))
      ∙ fill_matrix_element M N1 m1 ret i j hi hj

  horzcat_right :
      (M N1 N2 : ℕ) (m1 m2 ret : Matrix A) (i j : ℕ)
      → i < M
      → j < N2
      → horzcat M N1 N2 m1 m2 ret i (j + N1) ≡ m2 i j
  unfolding horzcat
  horzcat_right M N1 N2 m1 m2 ret i j hi hj =
      outer_hit M (λ m k. loop N2 (λ n q. write q m (n + N1) (m2 m n)) k) (fill_matrix M N1 m1 ret)
        i i (j + N1) (m2 i j) hi
        (λ q.
          writes_hit N2 (λ _. i) (λ n. n + N1) (m2 i) q j i (j + N1) hj refl refl
            (λ p _ ne. inr (omega arith)))
        (λ r _ ne q.
          writes_miss N2 (λ _. r) (λ n. n + N1) (m2 r) q i (j + N1) (λ _ _. inl (λ e. ne (sym e))))

  submatrix-some :
      (M_R N_R M N : ℕ) (mat : Matrix A) (m n : ℕ) (ret : Matrix A)
      → M_R + m ≤ M
      → N_R + n ≤ N
      → submatrix M_R N_R M N mat m n ret
        ≡ some (fill_matrix M_R N_R (λ i j. mat (i + m) (j + n)) ret)
  unfolding submatrix
  submatrix-some M_R N_R M N mat m n ret hm hn = ground arith

  -- The matrices agree on the elements that they have.
  abbrev pub Agree : ℕ → ℕ → Matrix A → Matrix A → Type 0
  Agree rows cols a b = (i j : ℕ) → i < rows → j < cols → a i j ≡ b i j

  -- Cutting two matrices put side by side where they meet gives them back.
  pub submatrix-horzcat :
      (M N1 N2 : ℕ) (m1 m2 ret r1 r2 : Matrix A)
      → ((a : Matrix A) × (submatrix M N1 M (N1 + N2) (horzcat M N1 N2 m1 m2 ret) 0 0 r1 ≡ some a)
          × Agree M N1 a m1)
        × ((b : Matrix A) × (submatrix M N2 M (N1 + N2) (horzcat M N1 N2 m1 m2 ret) 0 N1 r2
              ≡ some b)
            × Agree M N2 b m2)
  submatrix-horzcat M N1 N2 m1 m2 ret r1 r2 = (
    (
      _,
      submatrix-some M N1 M (N1 + N2) (horzcat M N1 N2 m1 m2 ret) 0 0 r1 (omega arith)
          (omega arith),
      λ i j hi hj.
          fill_matrix_element M N1 (λ i j. horzcat M N1 N2 m1 m2 ret (i + 0) (j + 0)) r1 i j hi hj
          ∙ ap (λ k. horzcat M N1 N2 m1 m2 ret k (j + 0)) {x = i + 0} {y = i} (omega arith)
          ∙ ap (horzcat M N1 N2 m1 m2 ret i) {x = j + 0} {y = j} (omega arith)
          ∙ horzcat_left M N1 N2 m1 m2 ret i j hi hj,
    ),
    (
      _,
      submatrix-some M N2 M (N1 + N2) (horzcat M N1 N2 m1 m2 ret) 0 N1 r2 (omega arith)
          (omega arith),
      λ i j hi hj.
          fill_matrix_element M N2 (λ i j. horzcat M N1 N2 m1 m2 ret (i + 0) (j + N1)) r2 i j hi hj
          ∙ ap (λ k. horzcat M N1 N2 m1 m2 ret k (j + N1)) {x = i + 0} {y = i} (omega arith)
          ∙ horzcat_right M N1 N2 m1 m2 ret i j hi hj,
    ),
  )

  -- Transposing twice gives the matrix back, and a row of the transposed matrix is a column.
  pub transpose-transpose :
      (rows cols : ℕ) (m r1 r2 : Matrix A)
      → Agree rows cols (transpose cols rows (transpose rows cols m r1) r2) m
        × ((i j : ℕ) → i < cols → j < rows → transpose rows cols m r1 i j ≡ m j i)
  transpose-transpose rows cols m r1 r2 = (
    λ i j hi hj.
        transpose_element cols rows (transpose rows cols m r1) r2 i j hi hj
        ∙ transpose_element rows cols m r1 j i hj hi,
    transpose_element rows cols m r1,
  )
