-- ===== src/Math/LinAlg/Cofactors.antt =====
-- What `getCfactor` leaves where.
use mart_common.Prelude.{
  ℕ, zero, suc, ◌+◌, ◌-◌, ◌≤◌, ◌<◌, ◌==◌, ◌≡◌, ◌≢◌, ◌∙◌, ap, sym, refl, ◌⊎◌, inl, inr, ltb,
  if◌then◌else◌, Bool-cases, ltb→lt, ltb-false→le, arith, ℕ_discrete,
}
use mart_common.Math.Loop.{loop}
use mart_common.Math.Matrix.{Matrix}
use mart_common.Math.Matrix.Elements.{write_here, write_other}
use mart_common.Math.LinAlg.{copy_element, copy_row, get_cfactor}

-- The index `k` where `p` is passed over.
abbrev pub skip : ℕ → ℕ → ℕ
skip p k = if ltb k p then k else k + 1

module _ {A : Type 0} (m : Matrix A) (q : ℕ) where
  -- After `n` columns.
  abbrev Copied : ℕ → ℕ → ℕ → Matrix A → Matrix A × ℕ → Type 0
  Copied n r to t s =
      (s.1 ≡ (if ltb q n then n - 1 else n))
      × ((i k : ℕ) → i ≡ to → k < s.1 → s.0 i k ≡ m r (skip q k))
      × ((i k : ℕ) → i ≢ to → s.0 i k ≡ t i k)

  copy_element-Copied :
      (n r to : ℕ) (t : Matrix A) (s : Matrix A × ℕ)
      → Copied n r to t s
      → Copied (suc n) r to t (copy_element m q r to n s)
  copy_element-Copied n r to t s (count, here, other) = elim (Bool-cases (n == q)) [
    | inl e ↦ rw e (ground arith, here, other)
    | inr e ↦ rw e (
      ground arith,
      λ i k same lt. elim (ℕ_discrete k s.1) [
        | yes last ↦
            write_here s.0 to s.1 i k (m r n) same last ∙ ap (m r) (ground (arith, e, last, count))
        | no ne ↦
            write_other s.0 to s.1 i k (m r n) (inr ne) ∙ here i k same (ground (arith, ne, lt))
      ],
      λ i k ne. write_other s.0 to s.1 i k (m r n) (inl ne) ∙ other i k ne,
    )
  ]

  copy_row-Copied :
      (n r to : ℕ) (t : Matrix A) → Copied n r to t (loop n (copy_element m q r to) (t, 0))
  unfolding loop
  copy_row-Copied zero r to t = (ground arith, λ i k same lt. absurd (ground arith), λ i k ne. refl)
  copy_row-Copied (suc n) r to t = copy_element-Copied n r to t _ (copy_row-Copied n r to t)

  -- Rows `src 0`, `src 1` and so on, to the rows from `d` on.
  copy_rows :
      (n cols d : ℕ) (src to : ℕ → ℕ) (t : Matrix A)
      → q < cols
      → ((k : ℕ) → to k ≡ d + k)
      → let t' = loop n (λ k t. copy_row cols m q (src k) (to k) t) t in
        ((r i k : ℕ) → r ≡ d + i → i < n → k < cols - 1 → t' r k ≡ m (src i) (skip q k))
        × ((r k : ℕ) → (r < d) ⊎ (d + n ≤ r) → t' r k ≡ t r k)
  unfolding loop copy_row
  copy_rows zero cols d src to t h e =
      (λ r i k er lt _. absurd (ground (arith, lt)), λ r k out. refl)
  copy_rows (suc n) cols d src to t h e =
      let t' = loop n (λ k t. copy_row cols m q (src k) (to k) t) t in
      let (inside, outside) = copy_rows n cols d src to t h e in
      let (count, here, other) = copy_row-Copied cols (src n) (to n) t' in
      (
        λ r i k er lt lt'. elim (ℕ_discrete i n) [
          | yes last ↦
              here r k (omega (arith, last, er, e n)) (ground (arith, lt', count, h))
              ∙ sym (ap (λ x. m (src x) (skip q k)) last)
          | no ne ↦
              other r k (λ same. ne (omega (arith, same, er, e n)))
              ∙ inside r i k er (omega (arith, ne, lt)) lt'
        ],
        λ r k out.
            other r k (λ same. absurd (ground (arith, out, same, e n)))
            ∙ outside r k (ground (arith, out)),
      )

-- For each row and column but the last, the cofactor of row `p` and column `q` has the element that
-- is left there when row `p` and column `q` are struck out of the matrix.
pub get_cfactor_lem :
    {A : Type 0} (n : ℕ) (m : Matrix A) (p q : ℕ) (t : Matrix A) (i k : ℕ)
    → p < n
    → q < n
    → i < n - 1
    → k < n - 1
    → get_cfactor n m p q t i k ≡ m (skip p i) (skip q k)
unfolding get_cfactor
get_cfactor_lem n m p q t i k hp hq hi hk =
    let above = copy_rows m q p n 0 (λ r. r) (λ r. r) t hq (λ r. omega arith) in
    let t' = loop p (λ r t. copy_row n m q r r t) t in
    let below =
      copy_rows m q (n - (p + 1)) n p (λ r. p + 1 + r) (λ r. p + 1 + r - 1) t' hq
        (λ r. omega arith) in
    elim (Bool-cases (ltb i p)) [
      | inl e ↦
          rw e (below.1 i k (inl (ltb→lt i p e)) ∙ above.0 i i k (omega arith) (ltb→lt i p e) hk)
      | inr e ↦ rw e (
          below.0 i (i - p) k (omega (arith, ltb-false→le i p e))
            (omega (arith, ltb-false→le i p e, hi, hp)) hk
          ∙ ap (λ x. m x (skip q k)) (omega (arith, ltb-false→le i p e)))
    ]
