-- ===== src/Net/Endpoint.antt =====
-- The endpoints of include/mart-netlib/ip.hpp and src/mart-netlib/ip.cpp.
pub mod Construct
pub mod RoundTrip
use mart_common.Prelude.{Bool, true, false, not, ◌&&◌, ◌∷◌, [], ◌++◌, Option, none, some, ◌>>=◌}
use mart_common.Text.{Bytes, codes}
use mart_common.Text.Split.{split}
use mart_common.Text.Decimal
use mart_common.Net.AddressV4
use mart_common.Net.AddressV4.{AddressV4, try_parse_v4_address, as_string}
use mart_common.Net.Port
use mart_common.Net.Port.{PortNr, try_parse_v4_port}
use mart_common.Prelude.{ℕ}
use mart_common.Prelude.Int.{ℤ}

abbrev pub colon : ℕ
colon = b':'

-- `basic_endpoint_v4_base`.
pub record EndpointV4 : Type 0 where
  pub address : AddressV4
  pub port : PortNr
  pub valid : Bool

unfoldable pub endpoint : AddressV4 → PortNr → EndpointV4
endpoint address port = record { address = address; port = port; valid = true }

-- The default constructor.
unfoldable pub default_endpoint : EndpointV4
default_endpoint = record { address = record { addr = 0 }; port = record { p = 0 }; valid = false }

unfoldable pub try_parse_basic_v4_endpoint : Bytes → Option EndpointV4
try_parse_basic_v4_endpoint str = do
  ps ← split str colon
  o_address ← try_parse_v4_address ps.0
  o_port ← try_parse_v4_port ps.1
  some (endpoint o_address o_port)

-- `operator==` of two endpoints of one protocol does not look at their validity.
pub eq : EndpointV4 → EndpointV4 → Bool
eq l r = AddressV4.eq l.address r.address && Port.eq l.port r.port

pub ne : EndpointV4 → EndpointV4 → Bool
unfolding eq
ne l r = not (eq l r)

pub is_valid_v4_endpoint : Bytes → Bool
is_valid_v4_endpoint str = elim (try_parse_basic_v4_endpoint str) [ none ↦ false | some _ ↦ true ]

pub data TransportProtocol : Type 0 where
  udp tcp : TransportProtocol

-- `inet_ntop` is a parameter, as in AddressV4.
module _ (inet_ntop : ℤ → ℕ → ℕ → Option Bytes) where
  unfoldable pub to_string : EndpointV4 → Bytes
  unfolding as_string
  to_string e =
      as_string inet_ntop e.address ++ colon ∷ Decimal.to_string (Port.in_host_order e.port)

  pub to_string_ex : EndpointV4 → TransportProtocol → Bytes
  unfolding to_string
  to_string_ex e udp = to_string e ++ codes " (UDP)"
  to_string_ex e tcp = to_string e ++ codes " (TCP)"
