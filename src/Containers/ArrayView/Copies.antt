-- ===== src/Containers/ArrayView/Copies.antt =====
-- What a copy between views leaves in the memory.
use mart_common.Prelude.{
  ℕ, zero, suc, ◌+◌, ◌-◌, ◌≤◌, ◌<◌, min, ◌≡◌, ◌⊎◌, inl, inr, refl, ap, sym, ◌∙◌, ◌∷◌, some, take,
  drop, le→ltb, arith,
}
use mathlib.Core.Path.{ap₂}
use mart_common.Prelude.Threads.{update, update_self, update_ne}
use mart_common.Containers.ArrayView.{
  ArrayView, null, sub_64, CopyRetType, copy_result, copy_n, copy_some, copy, read, elements,
}
use mart_common.Containers.ArrayView.Subviews.{
  IsValid, subview-some, subview_from-some, read-cong, read-drop, read-part,
}

-- The precondition of `std::copy_n`: the destination does not begin within the source, unless
-- both begin together.
abbrev pub MayCopy : ℕ → ℕ → ℕ → Type 0
MayCopy source n dest = (dest ≤ source) ⊎ (source + n ≤ dest)

module _ {A : Type 0} where
  copy_n-outside : (m : ℕ → A) (s n d j : ℕ) → (j < d) ⊎ (d + n ≤ j) → copy_n m s n d j ≡ m j
  unfolding copy_n
  copy_n-outside m s zero d j h = refl
  copy_n-outside m s (suc n) d j h =
      copy_n-outside (update m d (m s)) (s + 1) n (d + 1) j (ground arith)
      ∙ update_ne m d j (m s) (ground arith)

  copy_n-inside :
      (m : ℕ → A) (s n d i : ℕ) → MayCopy s n d → i < n → copy_n m s n d (d + i) ≡ m (s + i)
  unfolding copy_n
  copy_n-inside m s zero d i h l = absurd (omega arith)
  copy_n-inside m s (suc n) d zero h l =
      copy_n-outside (update m d (m s)) (s + 1) n (d + 1) (d + 0) (inl (omega arith))
      ∙ ap (update m d (m s)) {x = d + 0} {y = d} (omega arith)
      ∙ update_self m d (m s)
      ∙ ap m {x = s} {y = s + 0} (omega arith)
  copy_n-inside m s (suc n) d (suc i) h l =
      ap (copy_n (update m d (m s)) (s + 1) n (d + 1)) {x = d + suc i} {y = d + 1 + i} (omega arith)
      ∙ copy_n-inside (update m d (m s)) (s + 1) n (d + 1) i (ground arith) (omega arith)
      ∙ update_ne m d (s + 1 + i) (m s) (ground arith)
      ∙ ap m {x = s + 1 + i} {y = s + suc i} (omega arith)

  read-ext :
      (f g : ℕ → A) (a b n : ℕ)
      → ((i : ℕ) → i < n → f (a + i) ≡ g (b + i))
      → read f a n ≡ read g b n
  read-ext f g a b zero h = refl
  read-ext f g a b (suc n) h =
      ap₂ ◌∷◌
        (ap f {x = a} {y = a + 0} (omega arith)
          ∙ h 0 (omega arith)
          ∙ ap g {x = b + 0} {y = b} (omega arith))
        (read-ext f g (a + 1) (b + 1) n (λ i l.
          ap f {x = a + 1 + i} {y = a + suc i} (omega arith)
          ∙ h (suc i) (omega arith)
          ∙ ap g {x = b + suc i} {y = b + 1 + i} (omega arith)))

copy_result-some :
    (dest : ArrayView) (n : ℕ)
    → IsValid dest
    → n ≤ dest.size
    → copy_result dest n
      ≡ some (record {
        copied = record { data_ = dest.data_ + 0; size = n };
        free_space = record { data_ = dest.data_ + n; size = sub_64 dest.size n };
      })
unfolding copy_result
copy_result-some dest n h l =
    rw (subview-some dest 0 n (omega arith), subview_from-some dest n h (omega arith)) refl

module _ {A : Type 0} (m : ℕ → A) where
  -- What a copy of `n` elements of `src` to `dest` has to leave: the parts returned show the
  -- elements copied and the rest of the destination as it was; nothing beside them has changed.
  pub record Copied (src dest : ArrayView) (n : ℕ) (r : (ℕ → A) × CopyRetType) : Type 0 where
    pub copied : elements r.0 r.1.copied ≡ take n (elements m src)
    pub kept : elements r.0 r.1.free_space ≡ drop n (elements m dest)
    pub others : (j : ℕ) → (j < dest.data_) ⊎ (dest.data_ + n ≤ j) → r.0 j ≡ m j

  copied_parts :
      (src dest : ArrayView) (n : ℕ)
      → IsValid dest
      → n ≤ src.size
      → n ≤ dest.size
      → MayCopy src.data_ n dest.data_
      → Copied src dest n (
        copy_n m src.data_ n dest.data_,
        record {
          copied = record { data_ = dest.data_ + 0; size = n };
          free_space = record { data_ = dest.data_ + n; size = sub_64 dest.size n };
        },
      )
  copied_parts src dest n h ls ld may = record {
    copied =
        read-ext (copy_n m src.data_ n dest.data_) m (dest.data_ + 0) (src.data_ + 0) n (λ i l.
          ap (copy_n m src.data_ n dest.data_) {x = dest.data_ + 0 + i} {y = dest.data_ + i}
            (omega arith)
          ∙ copy_n-inside m src.data_ n dest.data_ i may l
          ∙ ap m {x = src.data_ + i} {y = src.data_ + 0 + i} (omega arith))
        ∙ read-cong m _ _ n (min n (src.size - 0)) refl (omega arith)
        ∙ sym (read-part m src.data_ src.size 0 n);
    kept =
        read-ext (copy_n m src.data_ n dest.data_) m (dest.data_ + n) (dest.data_ + n)
          (sub_64 dest.size n)
          (λ i l. copy_n-outside m src.data_ n dest.data_ (dest.data_ + n + i) (inr (omega arith)))
        ∙ read-cong m _ _ (sub_64 dest.size n) (dest.size - n) refl (omega arith)
        ∙ sym (read-drop m n dest.data_ dest.size);
    others = copy_n-outside m src.data_ n dest.data_;
  }

  -- `copy_some` always returns, having copied as many elements as fit.
  pub copy_some_lem :
      (src dest : ArrayView)
      → IsValid dest
      → MayCopy src.data_ (min src.size dest.size) dest.data_
      → (r : (ℕ → A) × CopyRetType) × (copy_some m src dest ≡ some r)
        × Copied src dest (min src.size dest.size) r
  unfolding copy_some
  copy_some_lem src dest h may = (
    _,
    rw (copy_result-some dest (min src.size dest.size) h (omega arith)) refl,
    copied_parts src dest (min src.size dest.size) h (omega arith) (omega arith) may,
  )

  -- `copy` copies all elements if they fit. If they do not, it copies none and returns two empty
  -- views.
  pub copy_lem :
      (src dest : ArrayView)
      → IsValid dest
      → MayCopy src.data_ src.size dest.data_
      → (src.size ≤ dest.size
          → (r : (ℕ → A) × CopyRetType) × (copy m src dest ≡ some r) × Copied src dest src.size r)
        × (dest.size < src.size
            → copy m src dest ≡ some (m, record { copied = null; free_space = null }))
  unfolding copy
  copy_lem src dest h may = (
    λ fits. (
      _,
      rw (le→ltb dest.size src.size fits, copy_result-some dest src.size h fits) refl,
      copied_parts src dest src.size h (omega arith) fits may,
    ),
    λ big. ground arith,
  )
