-- ===== src/Net/Tests.antt =====
-- Addresses, ports and endpoints at concrete values.
use mart_common.Prelude.{
  ℕ, ◌/◌, ◌%◌, ◌^◌, ◌≡◌, refl, ◌↔◌, Option, some, none, leb, ◌&&◌, if◌then◌else◌, arith,
}
use mathlib.Core.List.{reverse}
use mart_common.Prelude.Int.{ℤ, pos, ◌==ℤ◌}
use mart_common.Text.{Bytes, codes}
use mart_common.Net.ByteOrder.{to_net_order_16, to_net_order_32, to_net_order_64, to_host_order_32}
use mart_common.Net.ByteOrder.Swap.{little_endian, to_net_order_bytes, to_host_order-to_net_order}
use mart_common.Net.Address.{parse_address}
use mart_common.Net.Address.Octets.{word}
use mart_common.Net.Address.Parse
use mart_common.Net.Address.Parse.{parse_address_iff, dotted, parse_address-dotted}
use mart_common.Net.AddressV4
use mart_common.Net.Port
use mart_common.Net.Port.{try_parse_v4_port}
use mart_common.Net.Port.Parse as PortParse
use mart_common.Net.Endpoint.{endpoint, try_parse_basic_v4_endpoint, to_string}
use mart_common.Net.Endpoint.RoundTrip.{PrintsDotted, try_parse-to_string}

abbrev localhost : Bytes
localhost = codes "127.0.0.1"

parse_localhost : parse_address localhost ≡ some 0x7f000001
unfolding parse_address
parse_localhost = refl

-- Blocks may be empty, if the text is long enough.
parse_empty_blocks : parse_address (codes "127...1") ≡ some 0x7f000001
unfolding parse_address
parse_empty_blocks = refl

to_net_order_bytes_example :
    (little_endian 2 (to_net_order_16 0x1234) ≡ reverse (little_endian 2 0x1234))
    × (little_endian 4 (to_net_order_32 0x1234) ≡ reverse (little_endian 4 0x1234))
    × (little_endian 8 (to_net_order_64 0x1234) ≡ reverse (little_endian 8 0x1234))
to_net_order_bytes_example = to_net_order_bytes 0x1234

parse_address_iff_example :
    (parse_address localhost ≡ some 0x7f000001) ↔ Parse.Reads localhost 0x7f000001
parse_address_iff_example = parse_address_iff localhost 0x7f000001

try_parse_v4_port_iff_example :
    (try_parse_v4_port (codes "00443") ≡ some (Port.from_host 443))
    ↔ PortParse.Reads (codes "00443") (Port.from_host 443)
try_parse_v4_port_iff_example = PortParse.try_parse_v4_port_iff (codes "00443") (Port.from_host 443)

-- A printer of addresses of IPv4 as `inet_ntop` is documented.
print_net : ℤ → ℕ → ℕ → Option Bytes
print_net family w size =
    let n = to_host_order_32 w in
    if family ==ℤ pos 2 && leb 16 size
    then some (dotted (n / 2 ^ 24) (n / 2 ^ 16 % 256) (n / 2 ^ 8 % 256) (n % 256))
    else none

print_net-PrintsDotted : PrintsDotted print_net
unfolding print_net
print_net-PrintsDotted a b c d size ha hb hc hd room =
    rw ((to_host_order-to_net_order (word a b c d)).1 (omega arith), byte_a, byte_b, byte_c, byte_d)
      (ground (arith, room))
  where
    byte_a : word a b c d / 2 ^ 24 ≡ a
    byte_a = omega arith

    byte_b : word a b c d / 2 ^ 16 % 256 ≡ b
    byte_b = omega arith

    byte_c : word a b c d / 2 ^ 8 % 256 ≡ c
    byte_c = omega arith

    byte_d : word a b c d % 256 ≡ d
    byte_d = omega arith

try_parse-to_string_example :
    try_parse_basic_v4_endpoint
      (to_string print_net (endpoint (AddressV4.from_host 0x7f000001) (Port.from_host 80)))
    ≡ some (endpoint (AddressV4.from_host 0x7f000001) (Port.from_host 80))
try_parse-to_string_example =
    try_parse-to_string print_net print_net-PrintsDotted 0x7f000001 80 (omega arith) (omega arith)
