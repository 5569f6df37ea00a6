-- ===== src/Math/Loop.antt =====
-- `for( int i = 0; i < n; ++i ) body`, and what such loops leave in an array that they fill.
use mart_common.Prelude.{ℕ, zero, suc, ◌≤◌, ◌<◌, ◌≡◌, refl, sym, ap, ◌∙◌, ℕ_discrete, arith}
use mart_common.Prelude.Threads.{update, update_self, update_ne}

unfoldable pub loop {ℓ} : {S : Type ℓ} → ℕ → (ℕ → S → S) → S → S
loop zero body s = s
loop (suc n) body s = body n (loop n body s)

module _ {A : Type 0} where
  -- `a[i] = f(i)` for each index.
  unfoldable pub fill : ℕ → (ℕ → A) → (ℕ → A) → ℕ → A
  unfolding loop
  fill n f a = loop n (λ i r. update r i (f i)) a

  pub fill_inside : (n : ℕ) (f a : ℕ → A) (i : ℕ) → i < n → fill n f a i ≡ f i
  unfolding fill loop
  fill_inside zero f a i h = absurd (omega arith)
  fill_inside (suc n) f a i h = elim (ℕ_discrete n i) [
    | yes same ↦ rw (sym same) (update_self (fill n f a) n (f n))
    | no ne ↦ update_ne (fill n f a) n i (f n) ne ∙ fill_inside n f a i (omega arith)
  ]

  pub fill_outside : (n : ℕ) (f a : ℕ → A) (i : ℕ) → n ≤ i → fill n f a i ≡ a i
  unfolding fill loop
  fill_outside zero f a i h = refl
  fill_outside (suc n) f a i h =
      update_ne (fill n f a) n i (f n) (omega arith) ∙ fill_outside n f a i (omega arith)

-- A loop whose bodies agree.
pub loop-cong {ℓ} :
    {S : Type ℓ} (n : ℕ) (f g : ℕ → S → S) (s : S)
    → ((i : ℕ) → i < n → (t : S) → f i t ≡ g i t)
    → loop n f s ≡ loop n g s
unfolding loop
loop-cong zero f g s h = refl
loop-cong (suc n) f g s h =
    h n (omega arith) (loop n f s) ∙ ap (g n) (loop-cong n f g s (λ i l. h i (omega arith)))
