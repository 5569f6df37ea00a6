-- ===== src/Containers/ArrayView/Subviews.antt =====
-- Which elements the parts of a view show, and which calls end the program.
use mart_common.Prelude.{
  ℕ, zero, suc, ◌+◌, ◌-◌, ◌^◌, ◌≤◌, ◌<◌, min, ◌≡◌, ◌⊎◌, inl, inr, refl, ap, sym, ◌∙◌, [], ◌∷◌, ◌++◌,
  none, some, take, drop, arith,
}
use mart_common.Containers.ArrayView.{
  ArrayView, null, add_64, sub_64, max_subview, subview, subview_from, max_subview_from, split,
  read, elements,
}

-- A view as the program can have one.
pub record IsValid (v : ArrayView) : Type 0 where
  pub fits : v.size < 2 ^ 64

pub sub_64_le : (a b : ℕ) → b ≤ a → a < 2 ^ 64 → sub_64 a b ≡ a - b
sub_64_le a b h l = omega arith

sub_64-add_64 : (a b : ℕ) → a < 2 ^ 64 → b < 2 ^ 64 → add_64 b (sub_64 a b) ≡ a
sub_64-add_64 a b ha hb = omega arith

module _ {A : Type 0} (m : ℕ → A) where
  pub read-cong : (a b n k : ℕ) → a ≡ b → n ≡ k → read m a n ≡ read m b k
  read-cong a b n k p q = rw (p, q) refl

  pub read-drop : (k a n : ℕ) → drop k (read m a n) ≡ read m (a + k) (n - k)
  read-drop zero a n = read-cong a (a + 0) n (n - 0) (omega arith) (omega arith)
  read-drop (suc k) a zero = read-cong (a + suc k) (a + suc k) 0 (0 - suc k) refl (omega arith)
  read-drop (suc k) a (suc n) =
      read-drop k (a + 1) n
      ∙ read-cong (a + 1 + k) (a + suc k) (n - k) (suc n - suc k) (omega arith) (omega arith)

  read-take : (k a n : ℕ) → take k (read m a n) ≡ read m a (min k n)
  read-take zero a n = read-cong a a 0 (min 0 n) refl (omega arith)
  read-take (suc k) a zero = read-cong a a 0 (min (suc k) 0) refl (omega arith)
  read-take (suc k) a (suc n) =
      ap (◌∷◌ (m a)) (read-take k (a + 1) n)
      ∙ read-cong a a (suc (min k n)) (min (suc k) (suc n)) refl (omega arith)

  pub read-append : (a j k : ℕ) → read m a j ++ read m (a + j) k ≡ read m a (j + k)
  read-append a zero k = read-cong (a + 0) a k (0 + k) (omega arith) (omega arith)
  read-append a (suc j) k =
      ap (◌∷◌ (m a)) (
        ap (λ b. read m (a + 1) j ++ read m b k) {x = a + suc j} {y = a + 1 + j} (omega arith)
        ∙ read-append (a + 1) j k)
      ∙ read-cong a a (suc (j + k)) (suc j + k) refl (omega arith)

  read_nothing : (a n : ℕ) → n ≡ 0 → [] ≡ read m a n
  read_nothing a n e = rw e refl

  pub read-part :
      (a n off count : ℕ)
      → take count (drop off (read m a n)) ≡ read m (a + off) (min count (n - off))
  read-part a n off count = rw (read-drop off a n) (read-take count (a + off) (n - off))

pub subview-some :
    (v : ArrayView) (off count : ℕ)
    → add_64 off count ≤ v.size
    → subview v off count ≡ some (record { data_ = v.data_ + off; size = count })
unfolding subview
subview-some v off count h = ground arith

subview-none :
    (v : ArrayView) (off count : ℕ) → v.size < add_64 off count → subview v off count ≡ none
unfolding subview
subview-none v off count h = ground arith

pub subview_from-some :
    (v : ArrayView) (off : ℕ)
    → IsValid v
    → off < 2 ^ 64
    → subview_from v off ≡ some (record { data_ = v.data_ + off; size = sub_64 v.size off })
unfolding subview_from
subview_from-some v off h l = ground (arith, sub_64-add_64 v.size off)

max_subview-cases :
    (v : ArrayView) (off count : ℕ)
    → ((off ≤ v.size)
        × (max_subview v off count
            ≡ record { data_ = v.data_ + off; size = min count (sub_64 v.size off) })
        × (max_subview_from v off ≡ record { data_ = v.data_ + off; size = sub_64 v.size off }))
      ⊎ ((v.size < off) × (max_subview v off count ≡ null) × (max_subview_from v off ≡ null))
unfolding max_subview max_subview_from
max_subview-cases v off count = ground arith

split-some :
    (v : ArrayView) (off : ℕ)
    → off ≤ v.size
    → split v off
      ≡ some (
        record { data_ = v.data_; size = off },
        record { data_ = v.data_ + off; size = sub_64 v.size off },
      )
unfolding split
split-some v off h = ground arith

module _ {A : Type 0} (m : ℕ → A) where
  -- A part within the view is returned and shows the elements asked for; a part that goes beyond
  -- the view ends the program if its end fits in 64 bits.
  pub subview_lem :
      (v : ArrayView) (off count : ℕ)
      → IsValid v
      → off + count < 2 ^ 64
      → (off + count ≤ v.size
          → (w : ArrayView) × (subview v off count ≡ some w)
            × (elements m w ≡ take count (drop off (elements m v))))
        × (v.size < off + count → subview v off count ≡ none)
  subview_lem v off count h l = (
    λ inside. (
      _,
      subview-some v off count (omega arith),
      read-cong m _ _ count (min count (v.size - off)) refl (omega arith)
          ∙ sym (read-part m v.data_ v.size off count),
    ),
    λ outside. subview-none v off count (omega arith),
  )

  -- The overload with no count never ends the program. It returns the rest of the view, but for an
  -- offset beyond the end a view whose size has wrapped round.
  pub subview_from_lem :
      (v : ArrayView) (off : ℕ)
      → IsValid v
      → off < 2 ^ 64
      → (w : ArrayView) × (subview_from v off ≡ some w)
        × (off ≤ v.size → elements m w ≡ drop off (elements m v))
        × (v.size < off → w.size + off ≡ v.size + 2 ^ 64)
  subview_from_lem v off h l = (
    _,
    subview_from-some v off h l,
    λ inside. read-cong m _ _ _ _ refl (omega arith) ∙ sym (read-drop m off v.data_ v.size),
    λ outside. omega arith,
  )

  -- `max_subview` returns for every offset and count, and shows the elements of the view that lie
  -- in the range asked for.
  pub max_subview_lem :
      (v : ArrayView) (off count : ℕ)
      → IsValid v
      → (elements m (max_subview v off count) ≡ take count (drop off (elements m v)))
        × (elements m (max_subview_from v off) ≡ drop off (elements m v))
  max_subview_lem v off count h =
      rw (read-part m v.data_ v.size off count, read-drop m off v.data_ v.size)
        (elim (max_subview-cases v off count) [
          | inl (inside, e, f) ↦
              rw (e, f)
                (read-cong m _ _ _ _ refl (omega arith), read-cong m _ _ _ _ refl (omega arith))
          | inr (outside, e, f) ↦
              rw (e, f) (read_nothing m _ _ (omega arith), read_nothing m _ _ (omega arith))
        ])

  -- Splitting at an offset within the view cuts its elements in two there; an offset beyond its
  -- end ends the program.
  pub split_lem :
      (v : ArrayView) (off : ℕ)
      → IsValid v
      → (off ≤ v.size
          → (a b : ArrayView) × (split v off ≡ some (a, b))
            × (a.size ≡ off)
            × (elements m a ++ elements m b ≡ elements m v))
        × (v.size < off → split v off ≡ none)
  unfolding split
  split_lem v off h = (
    λ inside. (
      _,
      _,
      split-some v off inside,
      refl,
      read-append m v.data_ off (sub_64 v.size off) ∙ read-cong m _ _ _ _ refl (omega arith),
    ),
    λ outside. ground arith,
  )
