-- ===== src/Containers/ArrayView.antt =====
-- include/mart-common/ArrayView.h, with the accessors of include/mart-common/ArrayViewAdaptor.h.
-- The memory is a function from addresses, counted in elements, to values; an address and a size
-- fit in 64 bits.
pub mod Subviews
pub mod Copies
mod Tests
use mart_common.Prelude.{
  ℕ, zero, suc, ◌+◌, ◌-◌, ◌%◌, ◌^◌, min, Bool, List, [], ◌∷◌, Option, none, some, ltb, leb, ◌==◌,
  not, if◌then◌else◌, ◌>>=◌,
}
use mart_common.Prelude.Threads.{update}

-- `ArrayView<T>`; `null` is 0.
pub record ArrayView : Type 0 where
  pub data_ : ℕ
  pub size : ℕ

abbrev pub null : ArrayView
null = record { data_ = 0; size = 0 }

-- The arithmetic of `size_t`.
abbrev pub add_64 : ℕ → ℕ → ℕ
add_64 a b = (a + b) % 2 ^ 64

abbrev pub sub_64 : ℕ → ℕ → ℕ
sub_64 a b = (a + 2 ^ 64 - b) % 2 ^ 64

unfoldable pub empty : ArrayView → Bool
empty v = v.size == 0

unfoldable pub is_valid : ArrayView → Bool
is_valid v = not (v.data_ == 0)

-- `_terminateIfOffsetOutOfRange` and `_terminateIfInvalidSubview`: whether `std::terminate` is
-- called.
abbrev pub offset_out_of_range : ArrayView → ℕ → Bool
offset_out_of_range v idx = ltb v.size idx

abbrev pub invalid_subview : ArrayView → ℕ → ℕ → Bool
invalid_subview v offset count = ltb v.size (add_64 offset count)

-- The overloads with a count; `none` is `std::terminate`.
unfoldable pub max_subview : ArrayView → ℕ → ℕ → ArrayView
max_subview v offset count =
    if ltb v.size offset
    then null
    else record { data_ = v.data_ + offset; size = min count (sub_64 v.size offset) }

unfoldable pub subview : ArrayView → ℕ → ℕ → Option ArrayView
subview v offset count =
    if invalid_subview v offset count
    then none
    else some (record { data_ = v.data_ + offset; size = count })

-- The overloads without a count.
unfoldable pub subview_from : ArrayView → ℕ → Option ArrayView
subview_from v offset =
    if invalid_subview v offset (sub_64 v.size offset)
    then none
    else some (record { data_ = v.data_ + offset; size = sub_64 v.size offset })

unfoldable pub max_subview_from : ArrayView → ℕ → ArrayView
max_subview_from v offset =
    if ltb v.size offset
    then null
    else record { data_ = v.data_ + offset; size = sub_64 v.size offset }

unfoldable pub split : ArrayView → ℕ → Option (ArrayView × ArrayView)
split v offset =
    if offset_out_of_range v offset
    then none
    else some (
      record { data_ = v.data_; size = offset },
      record { data_ = v.data_ + offset; size = sub_64 v.size offset },
    )

-- The elements that a view shows of a memory.
abbrev pub read {ℓ} : {A : Type ℓ} → (ℕ → A) → ℕ → ℕ → List A
read m a zero = []
read m a (suc n) = m a ∷ read m (a + 1) n

abbrev pub elements {ℓ} : {A : Type ℓ} → (ℕ → A) → ArrayView → List A
elements m v = read m v.data_ v.size

module _ {ℓ} {A : Type ℓ} (m : ℕ → A) where
  -- `operator[]`, `front` and `back`; defined for an index within the view.
  unfoldable pub at : ArrayView → ℕ → A
  at v idx = m (v.data_ + idx)

  unfoldable pub front : ArrayView → A
  front v = m v.data_

  unfoldable pub back : ArrayView → A
  back v = m (v.data_ + v.size - 1)

-- `std::copy_n`, one element after the other.
unfoldable pub copy_n {ℓ} : {A : Type ℓ} → (ℕ → A) → ℕ → ℕ → ℕ → ℕ → A
copy_n m source zero dest = m
copy_n m source (suc n) dest = copy_n (update m dest (m source)) (source + 1) n (dest + 1)

-- `CopyRetType`.
pub record CopyRetType : Type 0 where
  pub copied : ArrayView
  pub free_space : ArrayView

-- The parts that both return.
abbrev pub copy_result : ArrayView → ℕ → Option CopyRetType
unfolding subview subview_from
copy_result dest n = do
  c ← subview dest 0 n
  f ← subview_from dest n
  some (record { copied = c; free_space = f })

-- `copy_some` and `copy` return the memory with their result. The `assert` in `copy` is
-- switched off, as in a release build.
unfoldable pub copy_some {ℓ} :
    {A : Type ℓ} → (ℕ → A) → ArrayView → ArrayView → Option ((ℕ → A) × CopyRetType)
unfolding copy_n
copy_some m src dest = do
  r ← copy_result dest (min src.size dest.size)
  some (copy_n m src.data_ (min src.size dest.size) dest.data_, r)

unfoldable pub copy {ℓ} :
    {A : Type ℓ} → (ℕ → A) → ArrayView → ArrayView → Option ((ℕ → A) × CopyRetType)
unfolding copy_n
copy m src dest =
    if ltb dest.size src.size
    then some (m, record { copied = null; free_space = null })
    else (do r ← copy_result dest src.size; some (copy_n m src.data_ src.size dest.data_, r))
