-- ===== src/Net/Sockaddrs.antt =====
-- The address types of include/mart-netlib/port_layer.hpp with their constructors in
-- src/mart-netlib/port_layer.cpp, and how the endpoints of include/mart-netlib/ip.hpp convert.
pub mod Paths
use mart_common.Prelude.{
  ℕ, zero, suc, ◌-◌, true, ◌<◌, List, [], ◌∷◌, ◌++◌, ltb, ◌==◌, if◌then◌else◌, take, length,
  replicate,
}
use mart_common.Prelude.Int.{pos}
use mart_common.Text.{Bytes}
use mart_common.Net.Enums.{local_domain, inet, inet6}
use mart_common.Net.Native.{NativeAddr, in4, in6, un, other}
use mart_common.Net.PortLayer.{Sockaddr}
use mart_common.Net.AddressV4.{AddressV4}
use mart_common.Net.Port.{PortNr}
use mart_common.Net.Endpoint.{EndpointV4}

-- A text of C: the bytes before the first zero.
abbrev pub c_string : Bytes → Bytes
c_string [] = []
c_string (b ∷ s) = if b == 0 then [] else b ∷ c_string s

-- `SockaddrIn`: made of a native address, of nothing, or of an address and a port in network
-- order (with `make_sockaddr_in`). A storage of zeros has the family 0.
unfoldable pub sockaddr_in_of : NativeAddr → Sockaddr
sockaddr_in_of native = record { domain = inet; native = native; size = 16 }

abbrev pub default_sockaddr_in : Sockaddr
default_sockaddr_in = record { domain = inet; native = other (pos 0); size = 16 }

unfoldable pub sockaddr_in : ℕ → ℕ → Sockaddr
unfolding sockaddr_in_of
sockaddr_in address port = sockaddr_in_of (in4 address port)

-- `address()` and `port()`: the fields of the storage seen as `sockaddr_in`. A storage that nobody
-- has filled with one is taken to be zeros.
unfoldable pub address_of : Sockaddr → ℕ
address_of a = elim (a.native) [ in4 address port ↦ address | _ ↦ 0 ]

unfoldable pub port_of : Sockaddr → ℕ
port_of a = elim (a.native) [ in4 address port ↦ port | _ ↦ 0 ]

-- `SockaddrIn6`.
unfoldable pub sockaddr_in6_of : NativeAddr → Sockaddr
sockaddr_in6_of native = record { domain = inet6; native = native; size = 32 }

-- The size of `sun_path`.
abbrev pub sun_path_size : ℕ
sun_path_size = 108

abbrev pub actual_length : ℕ → ℕ
actual_length length_ = if ltb length_ (sun_path_size - 1) then length_ else sun_path_size - 1

-- `make_sockaddr_un`: the array is filled with zeros, then with the path and a terminator.
unfoldable pub make_sockaddr_un : Bytes → NativeAddr
make_sockaddr_un u8path =
    let n = actual_length (length u8path) in
    un (take n u8path ++ 0 ∷ replicate (sun_path_size - n - 1) 0)

-- `SockaddrUn`, of a native address or a path.
unfoldable pub sockaddr_un_of : NativeAddr → Sockaddr
sockaddr_un_of native = record { domain = local_domain; native = native; size = 110 }

unfoldable pub sockaddr_un : Bytes → Sockaddr
unfolding make_sockaddr_un sockaddr_un_of
sockaddr_un u8path = sockaddr_un_of (make_sockaddr_un u8path)

-- `path()`, as the text that it points to, and `length()`.
unfoldable pub path : Sockaddr → Bytes
path a = elim (a.native) [ un s ↦ c_string s | _ ↦ [] ]

unfoldable pub path_length : Sockaddr → ℕ
unfolding path
path_length a = length (path a)

-- `toSockAddr_in` of an endpoint of IPv4, and the constructor from its result. The test of
-- `is_valid` there always holds: the range points into the object.
unfoldable pub to_sock_addr_in : EndpointV4 → Sockaddr
unfolding sockaddr_in
to_sock_addr_in e = sockaddr_in e.address.addr e.port.p

unfoldable pub endpoint_of : Sockaddr → EndpointV4
unfolding address_of port_of
endpoint_of a = record {
  address = record { addr = address_of a };
  port = record { p = port_of a };
  valid = true;
}
