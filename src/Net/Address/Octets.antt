-- ===== src/Net/Address/Octets.antt =====
-- One block of an address, and the word that four of them make.
use Prim.Native.Nat.{bit_or}
use native.Mathlib.Decide.{dec_le}
use mart_common.Prelude.{
  ℕ, ◌+◌, ◌*◌, ◌%◌, ◌^◌, ◌≤◌, ◌<◌, ◌≡◌, refl, ap, ◌∙◌, false, ◌||◌, List, [], ◌∷◌, ◌++◌, none, some,
  ltb, if◌then◌else◌, length, Option-cases, inl, inr, arith,
}
use mart_common.Prelude.Bits.{shl, bit_or-shl}
use mart_common.Text.{Bytes, Lacks}
use mart_common.Text.Integral.Bounds.{spelled, spelled_from, to_integral_unsafe_lem}
use mart_common.Text.Decimal.{Digits}
use mart_common.Net.Address.{dot, max_u32, has_invalid_char, parse_block, accumulate}

-- A block that the parser takes for the number `v`: at most three digits, none at all included.
pub record IsOctet (block : Bytes) (v : ℕ) : Type 0 where
  pub digits : Digits block
  pub short : length block ≤ 3
  pub spells : spelled block ≡ v
  pub small : v ≤ 255

spelled_short : (s : Bytes) → Digits s → length s ≤ 3 → spelled s ≤ 999
unfolding spelled spelled_from
spelled_short [] h le = omega arith
spelled_short (x ∷ []) h le = ground arith
spelled_short (x ∷ y ∷ []) h le = ground arith
spelled_short (x ∷ y ∷ z ∷ []) h le = ground arith
spelled_short (x ∷ y ∷ z ∷ w ∷ s) h le = absurd (omega arith)

parse_block-spelled :
    (s : Bytes)
    → Digits s
    → length s ≤ 3
    → parse_block s ≡ (if ltb 255 (spelled s) then none else some (spelled s))
unfolding parse_block
parse_block-spelled s h le = ground (
  arith,
  spelled_short s h le,
  to_integral_unsafe_lem max_u32 s h (omega (arith, spelled_short s h le)),
)

pub IsOctet-parse_block : {s : Bytes} {v : ℕ} → IsOctet s v → parse_block s ≡ some v
IsOctet-parse_block {s} {v} o =
    parse_block-spelled s o.digits o.short ∙ ground (arith, o.spells, o.small)

pub parse_block-IsOctet : (s : Bytes) (v : ℕ) → Digits s → parse_block s ≡ some v → IsOctet s v
parse_block-IsOctet s v h e = elim (dec_le (length s) 3) [
  | yes le ↦
      let e' = parse_block-spelled s h le in
      record { digits = h; short = le; spells = ground arith; small = ground arith }
  | no gt ↦ absurd (unfold parse_block in (ground arith))
]

-- A digit or a dot each: a block of these without a dot is all digits.
pub valid-Digits : (s : Bytes) → has_invalid_char s ≡ false → Lacks dot s → Digits s
unfolding has_invalid_char
valid-Digits [] e h = tt
valid-Digits (c ∷ s) e h = ground (arith, valid-Digits s)

pub Digits-valid : (s : Bytes) → Digits s → has_invalid_char s ≡ false
unfolding has_invalid_char
Digits-valid [] h = refl
Digits-valid (c ∷ s) h = ground (arith, Digits-valid s h.1)

pub valid-append :
    (s t : Bytes) → has_invalid_char (s ++ t) ≡ (has_invalid_char s || has_invalid_char t)
unfolding has_invalid_char
valid-append [] t = refl
valid-append (c ∷ s) t = ground (arith, valid-append s t)

-- The address word, first block highest.
abbrev pub word : ℕ → ℕ → ℕ → ℕ → ℕ
word a b c d = ((a * 256 + b) * 256 + c) * 256 + d

shift_in :
    (accum v : ℕ) → accum < 2 ^ 24 → v ≤ 255 → bit_or (shl accum 8 % 2 ^ 32) v ≡ accum * 256 + v
shift_in accum v h le =
    let fits : shl accum 8 % 2 ^ 32 ≡ shl accum 8 = omega arith in
    rw fits (bit_or-shl 8 accum v (omega arith))

accumulate-step :
    (block : Bytes) (blocks : List Bytes) (accum v : ℕ)
    → parse_block block ≡ some v
    → accum < 2 ^ 24
    → v ≤ 255
    → accumulate (block ∷ blocks) accum ≡ accumulate blocks (accum * 256 + v)
unfolding accumulate
accumulate-step block blocks accum v e h le = rw (e, shift_in accum v h le)

pub accumulate-word :
    {s t u w : Bytes} {a b c d : ℕ}
    → IsOctet s a
    → IsOctet t b
    → IsOctet u c
    → IsOctet w d
    → accumulate (s ∷ t ∷ u ∷ w ∷ []) 0 ≡ some (word a b c d)
accumulate-word {s} {t} {u} {w} {a} {b} {c} {d} os ot ou ow =
    accumulate-step s _ 0 a (IsOctet-parse_block os) (omega arith) os.small
    ∙ accumulate-step t _ _ b (IsOctet-parse_block ot) (omega (arith, os.small)) ot.small
    ∙ accumulate-step u _ _ c (IsOctet-parse_block ou) (omega (arith, os.small, ot.small)) ou.small
    ∙ accumulate-step w _ _ d (IsOctet-parse_block ow) (omega (arith, os.small, ot.small, ou.small))
        ow.small
    ∙ unfold accumulate in (ap some (omega arith))

pub accumulate-some :
    (block : Bytes) (blocks : List Bytes) (accum v : ℕ)
    → accumulate (block ∷ blocks) accum ≡ some v
    → (x : ℕ) × (parse_block block ≡ some x) × (accum' : ℕ) × (accumulate blocks accum' ≡ some v)
unfolding accumulate
accumulate-some block blocks accum v e = elim (Option-cases (parse_block block)) [
  | inl missing ↦ absurd (ground arith)
  | inr (x, found) ↦ (x, found, _, rw (found, accumulate) at e)
]
