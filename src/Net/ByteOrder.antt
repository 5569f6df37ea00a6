-- ===== src/Net/ByteOrder.antt =====
-- Byte order: `bswap`, `to_net_order` and `to_host_order` of include/mart-netlib/basic_types.hpp,
-- on a little-endian machine.
pub mod Swap
use Prim.Native.Nat.{bit_and, bit_or}
use mart_common.Prelude.{ℕ, zero, suc, ◌-◌, ◌*◌, ◌/◌, ◌%◌, ◌^◌}
use mart_common.Prelude.Bits.{shl, shr}

-- `N * 8 / 2` bits for a block of `N = 2 ^ suc k` bytes.
abbrev pub half_bits : ℕ → ℕ
half_bits k = 2 ^ suc k * 8 / 2

-- Masks of the lower and the upper half of such a block.
abbrev pub lb_mask : ℕ → ℕ
lb_mask k = shl 1 (half_bits k) - 1

abbrev pub hb_mask : ℕ → ℕ
hb_mask k = shl (lb_mask k) (half_bits k)

-- `mbswap<T, N>::calc` for `N = 2 ^ level`, in a type of `width` bits.
unfoldable pub mbswap : ℕ → ℕ → ℕ → ℕ
mbswap width zero d = d
mbswap width (suc k) d =
    bit_or (mbswap width k (bit_and (shr d (half_bits k)) (lb_mask k)))
      (bit_and (shl (mbswap width k d) (half_bits k) % 2 ^ width) (hb_mask k))

-- `bswap` of the types of two, four and eight bytes, which is both `to_net_order` and
-- `to_host_order` of that type.
unfoldable pub bswap_16 : ℕ → ℕ
unfolding mbswap
bswap_16 d = mbswap 16 1 d

unfoldable pub bswap_32 : ℕ → ℕ
unfolding mbswap
bswap_32 d = mbswap 32 2 d

unfoldable pub bswap_64 : ℕ → ℕ
unfolding mbswap
bswap_64 d = mbswap 64 3 d

pub to_net_order_16 : ℕ → ℕ
to_net_order_16 host_rep = bswap_16 host_rep

pub to_host_order_16 : ℕ → ℕ
to_host_order_16 net_rep = bswap_16 net_rep

pub to_net_order_32 : ℕ → ℕ
to_net_order_32 host_rep = bswap_32 host_rep

pub to_host_order_32 : ℕ → ℕ
to_host_order_32 net_rep = bswap_32 net_rep

pub to_net_order_64 : ℕ → ℕ
to_net_order_64 host_rep = bswap_64 host_rep

pub to_host_order_64 : ℕ → ℕ
to_host_order_64 net_rep = bswap_64 net_rep
