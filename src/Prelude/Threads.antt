-- ===== src/Prelude/Threads.antt =====
-- Families indexed by threads: the family after one thread has moved.
use Prim.Native.Nat.{ℕ}
use mathlib.Core.Path.{◌≡◌, sym, ◌∙◌, fun_ext}
use mathlib.Core.Logic.{ite, ◌≢◌}
use native.Mathlib.Decide.{ℕ_discrete}
use native.Mathlib.Omega.{arith}

abbrev pub update {ℓ} : {A : Type ℓ} → (ℕ → A) → ℕ → A → ℕ → A
update f i a j = ite (ℕ_discrete i j) a (f j)

pub update_self {ℓ} : {A : Type ℓ} (f : ℕ → A) (i : ℕ) (a : A) → update f i a i ≡ a
update_self f i a = ground arith

pub update_ne {ℓ} : {A : Type ℓ} (f : ℕ → A) (i j : ℕ) (a : A) → i ≢ j → update f i a j ≡ f j
update_ne f i j a h = ground arith

pub update_same {ℓ} : {A : Type ℓ} (f : ℕ → A) (i : ℕ) (a : A) → f i ≡ a → update f i a ≡ f
update_same f i a e = fun_ext (λ j. elim (ℕ_discrete i j) [
  | yes same ↦ rw (sym same) (update_self f i a ∙ sym e)
  | no ne ↦ update_ne f i j a ne
])

pub update_twice {ℓ} :
    {A : Type ℓ} (f : ℕ → A) (i : ℕ) (a b : A) → update (update f i a) i b ≡ update f i b
update_twice f i a b = fun_ext (λ j. elim (ℕ_discrete i j) [
  | yes same ↦ rw (sym same) (update_self (update f i a) i b ∙ sym (update_self f i b))
  | no ne ↦ update_ne (update f i a) i j b ne ∙ update_ne f i j a ne ∙ sym (update_ne f i j b ne)
])

pub update_swap {ℓ} :
    {A : Type ℓ} (f : ℕ → A) (i j : ℕ) (a b : A)
    → i ≢ j
    → update (update f i a) j b ≡ update (update f j b) i a
update_swap f i j a b ne = fun_ext (λ k. elim (ℕ_discrete i k) [
  | yes same ↦ rw (sym same) (
      update_ne (update f i a) j i b (λ e. ne (sym e))
      ∙ update_self f i a
      ∙ sym (update_self (update f j b) i a))
  | no other ↦ elim (ℕ_discrete j k) [
    | yes same ↦ rw (sym same) (
        update_self (update f i a) j b
        ∙ sym (update_ne (update f j b) i j a ne ∙ update_self f j b))
    | no third ↦
        update_ne (update f i a) j k b third
        ∙ update_ne f i k a other
        ∙ sym (update_ne (update f j b) i k a other ∙ update_ne f j k b third)
  ]
])
