-- ===== src/Math/Vec/Compare.antt =====
-- The comparisons of vectors, for elements with a total order.
use mart_common.Prelude.{
  ℕ, zero, suc, ◌+◌, ◌≤◌, ◌<◌, ◌≡◌, ◌↔◌, inl, inr, refl, sym, ◌∙◌, true, false, ◌&&◌, Bool-cases,
  ℕ_discrete, arith,
}
use mart_common.Math.Loop.{loop}
use mart_common.Math.Scalar.{Scalar, IsOrdered}
use mart_common.Math.Vec.{Vec, eq, lexicographical_loop, lexicographical_compare}

true-false : true ≡ false → ⊥
true-false e = ground arith

module _ {A : Type 0} (S : Scalar A) where
  eq-suc : (n : ℕ) (l r : Vec A) → eq S (suc n) l r ≡ (eq S n l r && S.eq (l n) (r n))
  unfolding eq loop
  eq-suc n l r = refl

  eq-true :
      (n : ℕ) (l r : Vec A)
      → eq S (suc n) l r ≡ true
      → (eq S n l r ≡ true) × (S.eq (l n) (r n) ≡ true)
  eq-true n l r h = ground (arith, eq-suc n l r)

  eq-elements :
      (n : ℕ) (l r : Vec A) → IsOrdered S → eq S n l r ≡ true → (i : ℕ) → i < n → l i ≡ r i
  eq-elements zero l r o h i lt = absurd (omega arith)
  eq-elements (suc n) l r o h i lt =
      let (before, here) = eq-true n l r h in
      elim (ℕ_discrete n i) [
        | yes same ↦ rw (sym same) ((o.eq_iff (l n) (r n)).0 here)
        | no later ↦ eq-elements n l r o before i (omega arith)
      ]

  elements-eq :
      (n : ℕ) (l r : Vec A) → IsOrdered S → ((i : ℕ) → i < n → l i ≡ r i) → eq S n l r ≡ true
  unfolding eq loop
  elements-eq zero l r o h = refl
  elements-eq (suc n) l r o h =
      rw
        (
          eq-suc n l r,
          elements-eq n l r o (λ i lt. h i (omega arith)),
          (o.eq_iff (l n) (r n)).1 (h n (omega arith)),
        )
        refl

  -- `==` holds exactly if all elements are equal.
  pub eq_iff :
      (N : ℕ) (l r : Vec A) → IsOrdered S → (eq S N l r ≡ true) ↔ ((i : ℕ) → i < N → l i ≡ r i)
  eq_iff N l r o = (eq-elements N l r o, elements-eq N l r o)

  -- The first difference at or after the index `i`, less in `l`.
  abbrev pub LessFrom : Vec A → Vec A → ℕ → ℕ → Type 0
  LessFrom l r i n =
      (k : ℕ) × (i ≤ k)
      × (k < i + n)
      × ((j : ℕ) → i ≤ j → j < k → l j ≡ r j)
      × (S.lt (l k) (r k) ≡ true)

  not_less : (a b : A) → IsOrdered S → S.lt b a ≡ true → S.lt a b ≡ false
  not_less a b o more = elim (Bool-cases (S.lt a b)) [
    | inl less ↦ absurd (o.lt_irrefl a (o.lt_trans a b a less more))
    | inr same ↦ same
  ]

  not_less_self : (a : A) → IsOrdered S → S.lt a a ≡ false
  not_less_self a o = elim (Bool-cases (S.lt a a)) [
    | inl less ↦ absurd (o.lt_irrefl a less)
    | inr same ↦ same
  ]

  loop-less :
      (l r : Vec A) (i n : ℕ)
      → S.lt (l i) (r i) ≡ true
      → lexicographical_loop S l r i (suc n) ≡ true
  unfolding lexicographical_loop
  loop-less l r i n e = rw (e, lexicographical_loop) refl

  loop-more :
      (l r : Vec A) (i n : ℕ)
      → IsOrdered S
      → S.lt (r i) (l i) ≡ true
      → lexicographical_loop S l r i (suc n) ≡ false
  unfolding lexicographical_loop
  loop-more l r i n o e = rw (not_less (l i) (r i) o e, e, lexicographical_loop) refl

  loop-same :
      (l r : Vec A) (i n : ℕ)
      → IsOrdered S
      → l i ≡ r i
      → lexicographical_loop S l r i (suc n) ≡ lexicographical_loop S l r (i + 1) n
  unfolding lexicographical_loop
  loop-same l r i n o e = rw (e, not_less_self (r i) o, lexicographical_loop) refl

  later : (l r : Vec A) (i n : ℕ) → l i ≡ r i → LessFrom l r (i + 1) n → LessFrom l r i (suc n)
  later l r i n same (k, lo, hi, equal, less) = (
    k,
    omega arith,
    omega arith,
    λ j jlo jhi. elim (ℕ_discrete i j) [
      | yes here ↦ rw (sym here) same
      | no after ↦ equal j (omega arith) jhi
    ],
    less,
  )

  loop-nothing : (l r : Vec A) (i : ℕ) → lexicographical_loop S l r i zero ≡ true → ⊥
  unfolding lexicographical_loop
  loop-nothing l r i h = true-false (sym h)

  loop-LessFrom :
      (l r : Vec A) (i n : ℕ)
      → IsOrdered S
      → lexicographical_loop S l r i n ≡ true
      → LessFrom l r i n
  loop-LessFrom l r i zero o h = absurd (loop-nothing l r i h)
  loop-LessFrom l r i (suc n) o h = elim (o.lt_total (l i) (r i)) [
    | inl less ↦ (i, omega arith, omega arith, λ j lo hi. absurd (omega arith), less)
    | inr (inl same) ↦
        later l r i n same (loop-LessFrom l r (i + 1) n o (sym (loop-same l r i n o same) ∙ h))
    | inr (inr more) ↦ absurd (true-false (sym h ∙ loop-more l r i n o more))
  ]

  LessFrom-loop :
      (l r : Vec A) (i n : ℕ)
      → IsOrdered S
      → LessFrom l r i n
      → lexicographical_loop S l r i n ≡ true
  LessFrom-loop l r i zero o (k, lo, hi, equal, less) = absurd (omega arith)
  LessFrom-loop l r i (suc n) o (k, lo, hi, equal, less) = elim (ℕ_discrete i k) [
    | yes here ↦ loop-less l r i n (rw here less)
    | no after ↦
        loop-same l r i n o (equal i (omega arith) (omega arith))
        ∙ LessFrom-loop l r (i + 1) n o
            (k, omega arith, omega arith, λ j jlo jhi. equal j (omega arith) jhi, less)
  ]

  -- `lexicographical_compare` returns true exactly if, at the first index where the vectors differ,
  -- the element of the first is less.
  pub lexicographical_compare_iff :
      (N : ℕ) (l r : Vec A)
      → IsOrdered S
      → (lexicographical_compare S N l r ≡ true)
        ↔ ((k : ℕ) × (k < N) × ((j : ℕ) → j < k → l j ≡ r j) × (S.lt (l k) (r k) ≡ true))
  unfolding lexicographical_compare
  lexicographical_compare_iff N l r o = (
    λ h.
        let (k, lo, hi, equal, less) = loop-LessFrom l r 0 N o h in
        (k, omega arith, λ j. equal j (omega arith), less),
    λ (k, hi, equal, less).
        LessFrom-loop l r 0 N o (k, omega arith, omega arith, λ j _. equal j, less),
  )
