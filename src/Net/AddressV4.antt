-- ===== src/Net/AddressV4.antt =====
-- The class `address_v4` of include/mart-netlib/ip.hpp and its printing in src/mart-netlib/ip.cpp.
pub mod Order
use mart_common.Prelude.{ℕ, Bool, not, Option, none, some, [], ltb, ◌==◌}
use mart_common.Prelude.Int.{ℤ}
use mart_common.Text.{Bytes}
use mart_common.Net.ByteOrder.{to_net_order_32, to_host_order_32}
use mart_common.Net.Address.{parse_address}
use mart_common.Net.Enums.{Domain, inet, native_domain}
use mart_common.Net.Failure.{Result, ok, ◌>>=◌, or_throw, invalid_address}

-- The word is kept in network order.
pub record AddressV4 : Type 0 where
  pub addr : ℕ

unfoldable pub from_host : ℕ → AddressV4
from_host addr_h = record { addr = to_net_order_32 addr_h }

pub in_host_order : AddressV4 → ℕ
in_host_order a = to_host_order_32 a.addr

-- The constructor from a text, with `_parseIpV4String`.
unfoldable pub from_text : Bytes → Result AddressV4
from_text str = do res ← or_throw (parse_address str) invalid_address; ok (from_host res)

unfoldable pub try_parse_v4_address : Bytes → Option AddressV4
try_parse_v4_address str = elim (parse_address str) [
  | none ↦ none
  | some res ↦ some (from_host res)
]

pub eq : AddressV4 → AddressV4 → Bool
eq l r = l.addr == r.addr

pub ne : AddressV4 → AddressV4 → Bool
ne l r = not (l.addr == r.addr)

pub lt : AddressV4 → AddressV4 → Bool
lt l r = ltb (to_host_order_32 l.addr) (to_host_order_32 r.addr)

-- What `inet_ntop` writes for a family, an address and the size of the buffer, or none if it fails,
-- is a parameter.
module _ (inet_ntop : ℤ → ℕ → ℕ → Option Bytes) where
  -- `inet_net_to_pres( Domain, … )`.
  unfoldable pub inet_net_to_pres : Domain → ℕ → ℕ → Option Bytes
  unfolding native_domain
  inet_net_to_pres af src size = inet_ntop (native_domain af) src size

  -- The buffer starts as zeros, so that a failure leaves the empty text.
  unfoldable pub as_string : AddressV4 → Bytes
  unfolding inet_net_to_pres
  as_string address = elim (inet_net_to_pres inet address.addr 24) [ none ↦ [] | some ret ↦ ret ]
