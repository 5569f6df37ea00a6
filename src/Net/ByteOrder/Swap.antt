-- ===== src/Net/ByteOrder/Swap.antt =====
-- `bswap` reverses the bytes of a word, so the two conversions undo each other.
use Prim.Native.Nat.{bit_and, bit_or}
use mathlib.Core.List.{reverse, reverse-append}
use mathlib.Core.Path.{ap₂}
use mart_common.Prelude.{
  ℕ, zero, suc, ◌+◌, ◌-◌, ◌*◌, ◌/◌, ◌%◌, ◌^◌, ◌<◌, ◌≡◌, refl, sym, ap, ◌∙◌, List, [], ◌∷◌, ◌++◌,
  arith,
}
use mart_common.Prelude.Bits.{shl, bit_and-ones, bit_or_low-shl, bit_and-shl}
use mart_common.Net.ByteOrder.{
  half_bits, mbswap, bswap_16, bswap_32, bswap_64, to_net_order_16, to_net_order_32,
  to_net_order_64, to_host_order_16, to_host_order_32, to_host_order_64,
}

mask : (h a : ℕ) → bit_and a (shl 1 h - 1) ≡ a % 2 ^ h
mask h a = let one : 1 * 2 ^ h ≡ 2 ^ h = omega arith in rw one (bit_and-ones h a)

-- The lower half of a result and its upper half, which the mask cuts to `h` bits.
join_halves :
    (h low high high' : ℕ)
    → low < 2 ^ h
    → high ≡ shl high' h
    → bit_or low (bit_and high (shl (shl 1 h - 1) h)) ≡ low + high' % 2 ^ h * 2 ^ h
join_halves h low high high' fits e =
    rw (e, bit_and-shl h high' (shl 1 h - 1), mask h high')
      (bit_or_low-shl h (high' % 2 ^ h) low fits)

-- One level of the recursion, where the block fits the type.
mbswap_level :
    (width k d h : ℕ)
    → h ≡ half_bits k
    → let high = shl (mbswap width k d) h % 2 ^ width in
      mbswap width k (d / 2 ^ h % 2 ^ h) < 2 ^ h
      → high ≡ shl (high / 2 ^ h) h
      → high / 2 ^ h % 2 ^ h ≡ mbswap width k d % 2 ^ h
      → mbswap width (suc k) d
        ≡ mbswap width k (d / 2 ^ h % 2 ^ h) + mbswap width k d % 2 ^ h * 2 ^ h
unfolding mbswap
mbswap_level width k d h eh fits e e' =
    rw (← eh, mask h (d / 2 ^ h)) (join_halves h _ _ _ fits e ∙ rw e')

-- The bytes of a block of two, four and eight bytes in reverse, as numbers.
abbrev pub pair : ℕ → ℕ
pair d = d / 256 % 256 + d % 256 * 256

pub quad : ℕ → ℕ
quad d = pair (d / 65536 % 65536) + pair d % 65536 * 65536

pub octo : ℕ → ℕ
octo d = quad (d / 2 ^ 32 % 2 ^ 32) + quad d % 2 ^ 32 * 2 ^ 32

mbswap-pair_16 : (d : ℕ) → mbswap 16 1 d ≡ pair d
unfolding mbswap
mbswap-pair_16 d = mbswap_level 16 0 d 8 refl (omega arith) (omega arith) (omega arith)

mbswap-pair_32 : (d : ℕ) → mbswap 32 1 d ≡ pair d
unfolding mbswap
mbswap-pair_32 d = mbswap_level 32 0 d 8 refl (omega arith) (omega arith) (omega arith)

mbswap-pair_64 : (d : ℕ) → mbswap 64 1 d ≡ pair d
unfolding mbswap
mbswap-pair_64 d = mbswap_level 64 0 d 8 refl (omega arith) (omega arith) (omega arith)

mbswap-quad_32 : (d : ℕ) → mbswap 32 2 d ≡ quad d
unfolding quad
mbswap-quad_32 d =
    mbswap_level 32 1 d 16 refl (omega (arith, mbswap-pair_32 (d / 2 ^ 16 % 2 ^ 16))) (omega arith)
      (omega arith)
    ∙ rw (mbswap-pair_32 d, mbswap-pair_32 (d / 2 ^ 16 % 2 ^ 16))

mbswap-quad_64 : (d : ℕ) → mbswap 64 2 d ≡ quad d
unfolding quad
mbswap-quad_64 d =
    mbswap_level 64 1 d 16 refl (omega (arith, mbswap-pair_64 (d / 2 ^ 16 % 2 ^ 16))) (omega arith)
      (omega arith)
    ∙ rw (mbswap-pair_64 d, mbswap-pair_64 (d / 2 ^ 16 % 2 ^ 16))

quad-lt : (d : ℕ) → quad d < 2 ^ 32
unfolding quad
quad-lt d = omega arith

mbswap-octo_64 : (d : ℕ) → mbswap 64 3 d ≡ octo d
unfolding octo
mbswap-octo_64 d =
    mbswap_level 64 2 d 32 refl
      (omega (arith, mbswap-quad_64 (d / 2 ^ 32 % 2 ^ 32), quad-lt (d / 2 ^ 32 % 2 ^ 32)))
      (omega arith) (omega arith)
    ∙ rw (mbswap-quad_64 d, mbswap-quad_64 (d / 2 ^ 32 % 2 ^ 32))

-- The bytes of a word in memory, least significant first.
abbrev pub little_endian : ℕ → ℕ → List ℕ
little_endian zero x = []
little_endian (suc n) x = x % 256 ∷ little_endian n (x / 256)

pair_bytes : (d : ℕ) → little_endian 2 (pair d) ≡ reverse (little_endian 2 d)
pair_bytes d = ground arith

-- The bytes of `quad d` from the lowest on.
quad_byte :
    (d : ℕ)
    → (quad d % 256 ≡ d / 256 / 256 / 256 % 256)
      × (quad d / 256 % 256 ≡ d / 256 / 256 % 256)
      × (quad d / 256 / 256 % 256 ≡ d / 256 % 256)
      × (quad d / 256 / 256 / 256 % 256 ≡ d % 256)
unfolding quad
quad_byte d = omega arith

quad_bytes : (d : ℕ) → little_endian 4 (quad d) ≡ reverse (little_endian 4 d)
quad_bytes d = ground (arith, quad_byte d)

octo_low : (d : ℕ) → octo d % 2 ^ 32 ≡ quad (d / 2 ^ 32 % 2 ^ 32)
unfolding octo
octo_low d = omega (arith, quad-lt (d / 2 ^ 32 % 2 ^ 32))

octo_high : (d : ℕ) → octo d / 2 ^ 32 ≡ quad d
unfolding octo
octo_high d = omega (arith, quad-lt (d / 2 ^ 32 % 2 ^ 32), quad-lt d)

-- The bytes of a word of eight are those of its lower half and then those of its upper half.
halves : (x : ℕ) → little_endian 8 x ≡ little_endian 4 (x % 2 ^ 32) ++ little_endian 4 (x / 2 ^ 32)
halves x = ground arith

low_only : (d : ℕ) → little_endian 4 (d % 2 ^ 32) ≡ little_endian 4 d
low_only d = ground arith

octo_bytes : (d : ℕ) → little_endian 8 (octo d) ≡ reverse (little_endian 8 d)
octo_bytes d =
    halves (octo d)
    ∙ ap₂ ◌++◌ low high
    ∙ sym (reverse-append (little_endian 4 (d % 2 ^ 32)) (little_endian 4 (d / 2 ^ 32)))
    ∙ ap reverse (sym (halves d))
  where
    low : little_endian 4 (octo d % 2 ^ 32) ≡ reverse (little_endian 4 (d / 2 ^ 32))
    low = ap (little_endian 4) (octo_low d) ∙ quad_bytes _ ∙ ap reverse (low_only (d / 2 ^ 32))

    high : little_endian 4 (octo d / 2 ^ 32) ≡ reverse (little_endian 4 (d % 2 ^ 32))
    high = ap (little_endian 4) (octo_high d) ∙ quad_bytes d ∙ ap reverse (sym (low_only d))

-- On a little-endian machine `to_net_order` stores the bytes of a 16-bit, a 32-bit and a 64-bit
-- word with the most significant first.
pub to_net_order_bytes :
    (d : ℕ)
    → (little_endian 2 (to_net_order_16 d) ≡ reverse (little_endian 2 d))
      × (little_endian 4 (to_net_order_32 d) ≡ reverse (little_endian 4 d))
      × (little_endian 8 (to_net_order_64 d) ≡ reverse (little_endian 8 d))
unfolding to_net_order_16 to_net_order_32 to_net_order_64 bswap_16 bswap_32 bswap_64
to_net_order_bytes d =
    rw (mbswap-pair_16 d, mbswap-quad_32 d, mbswap-octo_64 d)
      (pair_bytes d, quad_bytes d, octo_bytes d)

quad-quad : (d : ℕ) → d < 2 ^ 32 → quad (quad d) ≡ d
unfolding quad
quad-quad d h = omega arith

quad_mod : (d : ℕ) → quad (d % 2 ^ 32) ≡ quad d
unfolding quad
quad_mod d = omega arith

octo-octo : (d : ℕ) → d < 2 ^ 64 → octo (octo d) ≡ d
octo-octo d h = omega (
  arith,
  octo_low (octo d),
  octo_high (octo d),
  ap quad (octo_high d),
  ap quad (octo_low d),
  quad_mod (octo d),
  quad_mod (quad d),
  quad_mod d,
  ap quad (quad_mod d),
  quad-quad (d / 2 ^ 32 % 2 ^ 32) (omega arith),
  quad-quad (d % 2 ^ 32) (omega arith),
  ap (λ t. quad (t % 2 ^ 32)) (octo_high d),
)

-- `to_host_order` undoes `to_net_order` on every 16-bit, 32-bit and 64-bit word.
pub to_host_order-to_net_order :
    (d : ℕ)
    → (d < 2 ^ 16 → to_host_order_16 (to_net_order_16 d) ≡ d)
      × (d < 2 ^ 32 → to_host_order_32 (to_net_order_32 d) ≡ d)
      × (d < 2 ^ 64 → to_host_order_64 (to_net_order_64 d) ≡ d)
unfolding to_net_order_16 to_net_order_32 to_net_order_64 bswap_16 bswap_32 bswap_64
    to_host_order_16 to_host_order_32 to_host_order_64
to_host_order-to_net_order d =
    rw
      (
        mbswap-pair_16 d,
        mbswap-quad_32 d,
        mbswap-octo_64 d,
        mbswap-pair_16 (pair d),
        mbswap-quad_32 (quad d),
        mbswap-octo_64 (octo d),
      )
      (λ h. omega arith, quad-quad d, octo-octo d)
