-- ===== src/Containers/DynLimArray.antt =====
-- include/mart-common/experimental/DynLimArray.h: an array of a fixed capacity with a size, which is
-- an `int`. A copy that writes outside of the array is undefined behaviour.
use mart_common.Prelude.{
  ℕ, ◌^◌, ◌≤◌, ◌<◌, ◌≡◌, refl, Bool, false, List, [], ◌++◌, leb, if◌then◌else◌, length, take, drop,
  take-length, arith,
}
use mart_common.Prelude.Int.{ℤ, pos, negsuc, int_of, ltb_ℤ}

-- `data_` has `Capacity` elements.
pub record DynLimArray (A : Type 0) : Type 0 where
  pub size : ℤ
  pub data_ : List A

pub data Outcome (A : Type 0) : Type 0 where
  made : DynLimArray A → Outcome A
  out_of_range : Outcome A
  undefined : Outcome A

-- `throwIfTooBig`: whether it throws.
abbrev pub throws_if_too_big : ℕ → ℤ → Bool
throws_if_too_big capacity size = ltb_ℤ (pos capacity) size

module _ {A : Type 0} where
  -- `std::copy` of `xs` to the beginning of `data_`.
  abbrev pub copied : ℤ → List A → List A → Outcome A
  copied size xs data_ =
      if leb (length xs) (length data_)
      then made (record { size = size; data_ = xs ++ drop (length xs) data_ })
      else undefined

  -- From a container, two iterators or an initializer list; `fresh` is `_data{}`.
  unfoldable pub from_elements : List A → List A → Outcome A
  from_elements fresh xs =
      let size = int_of (length xs) in
      if throws_if_too_big (length fresh) size then out_of_range else copied size xs fresh

  unfoldable pub with_size : List A → ℤ → Outcome A
  with_size fresh size =
      if throws_if_too_big (length fresh) size
      then out_of_range
      else made (record { size = size; data_ = fresh })

  -- From an array of another capacity: all of its elements are copied, used or not.
  unfoldable pub from_other : List A → DynLimArray A → Outcome A
  from_other fresh other =
      if throws_if_too_big (length fresh) other.size
      then out_of_range
      else copied other.size other.data_ fresh

  unfoldable pub assign_other : DynLimArray A → DynLimArray A → Outcome A
  assign_other this other =
      if throws_if_too_big (length this.data_) other.size
      then out_of_range
      else copied other.size other.data_ this.data_

  unfoldable pub elements : DynLimArray A → List A
  elements a = elim a.size [ pos n ↦ take n a.data_ | negsuc n ↦ [] ]

  -- Fewer than 2 ^ 31 elements are taken whole if they fit, and refused with an exception if not.
  pub from_elements_lem :
      (fresh xs : List A)
      → length xs < 2 ^ 31
      → (length xs ≤ length fresh
          → (a : DynLimArray A) × (from_elements fresh xs ≡ made a) × (elements a ≡ xs))
        × (length fresh < length xs → from_elements fresh xs ≡ out_of_range)
  unfolding from_elements elements
  from_elements_lem fresh xs h = (
    λ fits. (
      record { size = pos (length xs); data_ = xs ++ drop (length xs) fresh },
      rw (small (length xs) h) (ground (arith, fits)),
      take-length xs (drop (length xs) fresh),
    ),
    λ large. rw (small (length xs) h) (ground (arith, large)),
  )
    where
      small : (n : ℕ) → n < 2 ^ 31 → int_of n ≡ pos n
      small n h = ground arith

  -- An array of a larger capacity is never taken: even if its elements fit, the copy of all that it
  -- has room for writes outside.
  pub from_other_lem :
      (fresh : List A) (other : DynLimArray A)
      → length fresh < length other.data_
      → from_other fresh other
        ≡ (if ltb_ℤ (pos (length fresh)) other.size then out_of_range else undefined)
  unfolding from_other
  from_other_lem fresh other h = rw (not_leb _ _ h) refl
    where
      not_leb : (a b : ℕ) → a < b → leb b a ≡ false
      not_leb a b h = ground arith
