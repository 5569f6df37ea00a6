-- ===== src/Net/AddressText.antt =====
-- The texts of addresses in src/mart-netlib/port_layer.cpp. `inet_ntop` is a parameter: what it
-- writes, for a buffer of this size, or none if it fails. The asserts are switched on: none as a
-- result is also a failed one.
pub mod Bounds
use mart_common.Prelude.{
  ℕ, true, ◌+◌, ◌-◌, ◌∷◌, [], ◌++◌, Option, none, some, ◌>>=◌, ltb, if◌then◌else◌, take, length,
}
use mart_common.Text.{Bytes, codes}
use mart_common.Text.Decimal
use mart_common.Net.ByteOrder.{to_host_order_16}
use mart_common.Net.Results.{value_or}
use mart_common.Net.Enums.{
  Domain, inet, inet6, local_domain, invalid_domain, unspec, from_native_domain,
}
use mart_common.Net.Native.{NativeAddr, in4, in6, un, other, family}
use mart_common.Net.Sockaddrs.{c_string}

-- `strncat( dst, src, n )`.
abbrev pub strncat : Bytes → Bytes → ℕ → Bytes
strncat dst src n = dst ++ take n src

abbrev pub port_text : ℕ → Bytes
port_text port = Decimal.to_string (to_host_order_16 port)

abbrev pub invalid_text : Bytes
invalid_text = codes "Invalid Domain for inet_net_to_pres"

-- What the overloads of `inet_net_to_pres` for IPv4 and IPv6 append to an address.
unfoldable pub append_port : Bytes → ℕ → ℕ → Bytes
append_port dst port size =
    let addrlen = length dst in
    let portstr = port_text port in
    if ltb size (addrlen + length portstr + 2 + 1)
    then dst
    else strncat (strncat dst (codes ":") 2) portstr (size - addrlen - 3)

-- What `to_string` appends in its buffer of `size` bytes.
unfoldable pub append_port_to : Bytes → ℕ → ℕ → Bytes
append_port_to buffer port size =
    let b = strncat buffer (codes ":") 1 in strncat b (port_text port) (size - length b - 1)

module _ (inet_ntop : NativeAddr → ℕ → Option Bytes) where
  -- `inet_net_to_pres( const ::sockaddr* )`; none is a null pointer.
  unfoldable pub inet_net_to_pres : NativeAddr → ℕ → Option Bytes
  unfolding append_port from_native_domain
  inet_net_to_pres (in4 address port) size = do
    res ← inet_ntop (in4 address port) size
    some (append_port res port size)
  inet_net_to_pres (in6 address port) size = do
    res ← inet_ntop (in6 address port) size
    some (append_port res port size)
  inet_net_to_pres (un path) size = some (take size (c_string path))
  inet_net_to_pres (other f) size = do _ ← from_native_domain true f; some invalid_text

  -- `to_string( const Sockaddr& )` and its overloads; none if `inet_ntop` fails, where the buffer
  -- is not initialised.
  unfoldable pub to_string : NativeAddr → Option Bytes
  unfolding append_port_to from_native_domain
  to_string (in4 address port) = do
    buffer ← inet_ntop (in4 address port) 22
    some (append_port_to buffer port 22)
  to_string (in6 address port) = do
    buffer ← inet_ntop (in6 address port) 46
    some (append_port_to buffer port 46)
  to_string (un path) = some (c_string path)
  to_string (other f) = do _ ← from_native_domain true f; some invalid_text
