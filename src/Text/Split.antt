-- ===== src/Text/Split.antt =====
-- `StringView::split` of include/mart-common/StringView.h, in both its overloads.
use mart_common.Prelude.{
  ℕ, suc, ◌+◌, ◌-◌, ◌<◌, ◌≡◌, refl, ◌⊎◌, inl, inr, ◌||◌, [], ◌∷◌, ◌++◌, Option, none, some, ltb,
  ◌==◌, if◌then◌else◌, take, drop, length, take-length, drop-suc-length, take_all, length-drop,
  Option-cases, ◌>>=◌, arith,
}
use native.Mathlib.Numerals.{add-one}
use mart_common.Text.{Bytes, npos, Lacks, find, find-splits, find-append, substr}

-- `split( size_t pos )`; `none` is the failed assertion.
unfoldable pub split_at : Bytes → ℕ → Option (Bytes × Bytes)
split_at s pos =
    if pos == npos || pos == length s
    then some (s, [])
    else if ltb pos (length s)
    then some (take pos s, take (length s - pos - 1) (drop (pos + 1) s))
    else none

-- `split( char at )`. `none` is a `substr` that throws.
unfoldable pub split : Bytes → ℕ → Option (Bytes × Bytes)
split s at = elim (find at s) [
  | none ↦ some (s, [])
  | some pos ↦ do
    first ← substr s 0 pos
    second ← substr s (pos + 1) (length s - pos - 1)
    some (first, second)
]

-- What `split` has to find: the parts before and after the first `at`, or all and nothing.
abbrev pub Splits : Bytes → ℕ → Bytes × Bytes → Type 0
Splits s at p = (Lacks at p.0 × (s ≡ p.0 ++ at ∷ p.1)) ⊎ (Lacks at s × (p.0 ≡ s) × (p.1 ≡ []))

pub find-none-Lacks : (c : ℕ) (s : Bytes) → find c s ≡ none → Lacks c s
find-none-Lacks c [] e = tt
find-none-Lacks c (x ∷ s) e = ground (arith, find-none-Lacks c s)

rest_all :
    (s : Bytes) (pos : ℕ)
    → pos < length s
    → take (length s - pos - 1) (drop (pos + 1) s) ≡ drop (suc pos) s
rest_all s pos h = rw add-one (take_all _ _ (omega (arith, length-drop (suc pos) s)))

split_found :
    (s : Bytes) (at pos : ℕ)
    → find at s ≡ some pos
    → split s at ≡ some (take pos s, drop (suc pos) s)
unfolding split
split_found s at pos e = ground (arith, find-splits at s pos, rest_all s pos)

-- `split` always returns, and cuts at the first separator, which it drops; with no separator
-- the first part is the whole text and the second is empty.
pub split-Splits :
    (s : Bytes) (at : ℕ) → (p : Bytes × Bytes) × (split s at ≡ some p) × Splits s at p
unfolding split
split-Splits s at = elim (Option-cases (find at s)) [
  | inl e ↦ ((s, []), rw (e, split) refl, inr (find-none-Lacks at s e, refl, refl))
  | inr (pos, e) ↦
      let (joined, lacks, _) = find-splits at s pos e in
      (_, split_found s at pos e, inl (lacks, joined))
]

-- Two texts joined by a separator that the first one lacks are split into the same two.
pub split-append : (a b : Bytes) (at : ℕ) → Lacks at a → split (a ++ at ∷ b) at ≡ some (a, b)
split-append a b at h =
    rw
      (split_found (a ++ at ∷ b) at (length a) (find-append at a b h), take-length, drop-suc-length)
