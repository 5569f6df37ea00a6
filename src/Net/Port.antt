-- ===== src/Net/Port.antt =====
-- Port numbers: `port_nr` and `try_parse_v4_port` of include/mart-netlib/ip.hpp, with
-- `_impl_port_v4` of include/mart-netlib/detail/ip_detail.hpp.
pub mod Parse
use mart_common.Prelude.{
  ℕ, ◌-◌, ◌^◌, Bool, true, false, not, ◌||◌, [], ◌∷◌, Option, none, some, ltb, ◌==◌, if◌then◌else◌,
  length,
}
use mart_common.Text.{Bytes, is_digit}
use mart_common.Text.Integral.{to_integral_unsafe}
use mart_common.Net.ByteOrder.{to_net_order_16, to_host_order_16}
use mart_common.Net.Address.{max_u32}

-- `port_nr` keeps the number in network order.
pub record PortNr : Type 0 where
  pub p : ℕ

pub from_host : ℕ → PortNr
from_host value = record { p = to_net_order_16 value }

pub in_host_order : PortNr → ℕ
in_host_order port = to_host_order_16 port.p

pub eq : PortNr → PortNr → Bool
eq l r = l.p == r.p

pub lt : PortNr → PortNr → Bool
unfolding in_host_order
lt l r = ltb (in_host_order l) (in_host_order r)

pub has_wrong_length : Bytes → Bool
has_wrong_length str = ltb 6 (length str) || length str == 0

pub has_invalid_char : Bytes → Bool
has_invalid_char [] = false
has_invalid_char (c ∷ str) =
    let rest = has_invalid_char str in if not (is_digit c) then true else rest

unfoldable pub try_parse_v4_port : Bytes → Option PortNr
unfolding has_wrong_length has_invalid_char to_integral_unsafe
try_parse_v4_port string =
    if has_wrong_length string || has_invalid_char string
    then none
    else let parsed = to_integral_unsafe max_u32 string in
      if ltb (2 ^ 16 - 1) parsed then none else some (from_host parsed)
