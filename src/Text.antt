-- ===== src/Text.antt =====
-- include/mart-common/StringView.h. A view is the list of its bytes; the members of
-- `std::string_view` that the library calls are functions on such lists.
pub mod Split
pub mod Integral
pub mod Decimal
mod Tests
use Prim.Native.Char.{code}
use Prim.Native.String.{String}
use mart_common.Prelude.{
  ℕ, zero, suc, ◌+◌, ◌-◌, ◌^◌, ◌≤◌, ◌<◌, ◌≡◌, ◌≢◌, refl, Bool, true, false, ◌&&◌, List, [], ◌∷◌,
  ◌++◌, Option, none, some, leb, ltb, ◌==◌, if◌then◌else◌, take, drop, length, All, All-append,
  arith,
}

abbrev pub Bytes : Type 0
Bytes = List ℕ

-- The bytes of a text in ASCII.
abbrev pub codes : String → Bytes
codes String.[] = []
codes (String.◌∷◌ c s) = code c ∷ codes s

-- `std::string_view::npos` with a 64-bit `size_t`.
abbrev pub npos : ℕ
npos = 2 ^ 64 - 1

abbrev pub is_digit : ℕ → Bool
is_digit c = leb b'0' c && leb c b'9'

abbrev pub Lacks : ℕ → Bytes → Type 0
Lacks b = All (λ c. c ≢ b)

-- The index of the first byte `c`; `none` stands for `npos`.
abbrev pub find : ℕ → Bytes → Option ℕ
find c [] = none
find c (x ∷ s) = if x == c then some 0 else elim (find c s) [ none ↦ none | some i ↦ some (suc i) ]

-- `substr(offset, count)`: `count` may be too large, `offset` may not (`std::out_of_range`).
abbrev pub substr : Bytes → ℕ → ℕ → Option Bytes
substr s offset count = if leb offset (length s) then some (take count (drop offset s)) else none

-- Where the first `c` stands, what is before it and what follows.
pub find-splits :
    (c : ℕ) (s : Bytes) (i : ℕ)
    → find c s ≡ some i
    → (s ≡ take i s ++ c ∷ drop (suc i) s) × Lacks c (take i s) × (i < length s)
find-splits c [] i e = absurd (ground arith)
find-splits c (x ∷ s) zero e = ground arith
find-splits c (x ∷ s) (suc i) e = ground (arith, find-splits c s i)

pub find-Lacks : (c : ℕ) (s : Bytes) → Lacks c s → find c s ≡ none
find-Lacks c [] h = refl
find-Lacks c (x ∷ s) h = ground (arith, find-Lacks c s h.1)

pub find-append : (c : ℕ) (a b : Bytes) → Lacks c a → find c (a ++ c ∷ b) ≡ some (length a)
find-append c [] b h = ground arith
find-append c (x ∷ a) b h = ground (arith, find-append c a b h.1)
