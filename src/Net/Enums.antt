-- ===== src/Net/Enums.antt =====
-- The enumerations of include/mart-netlib/basic_types.hpp and their conversions in
-- src/mart-netlib/port_layer.cpp, with the values that Linux gives the constants. Whether the
-- asserts are switched on is an argument of the conversions that have one.
pub mod RoundTrip
use mart_common.Prelude.{Bool, Option, none, some, if◌then◌else◌}
use mart_common.Prelude.Int.{ℤ, pos, negsuc, ◌==ℤ◌}
use mart_common.Net.Results.{invalid_argument, ReturnValue, success, failure}

pub data Domain : Type 0 where
  invalid_domain local_domain inet inet6 unspec : Domain

pub data TransportType : Type 0 where
  invalid_type stream datagram seqpacket : TransportType

pub data Protocol : Type 0 where
  default_protocol udp tcp : Protocol

pub data SocketOption : Type 0 where
  so_rcvtimeo so_sndtimeo so_reuseaddr : SocketOption

pub data Direction : Type 0 where
  tx rx : Direction

abbrev pub af_unix : ℤ
af_unix = pos 1

abbrev pub af_inet : ℤ
af_inet = pos 2

abbrev pub af_inet6 : ℤ
af_inet6 = pos 10

abbrev pub af_unspec : ℤ
af_unspec = pos 0

unfoldable pub native_domain : Domain → ℤ
native_domain invalid_domain = negsuc 0
native_domain local_domain = af_unix
native_domain inet = af_inet
native_domain inet6 = af_inet6
native_domain unspec = af_unspec

-- What follows the switches: a failed assertion is none.
abbrev pub refused : {A : Type 0} → Bool → Option (ReturnValue A)
refused asserts = if asserts then none else some (failure invalid_argument)

unfoldable pub from_native_domain : Bool → ℤ → Option (ReturnValue Domain)
from_native_domain asserts domain =
    if domain ==ℤ negsuc 0
    then some (success invalid_domain)
    else if domain ==ℤ af_unix
    then some (success local_domain)
    else if domain ==ℤ af_inet
    then some (success inet)
    else if domain ==ℤ af_inet6
    then some (success inet6)
    else if domain ==ℤ af_unspec
    then some (success unspec)
    else refused asserts

-- SOCK_STREAM, SOCK_DGRAM and SOCK_SEQPACKET.
unfoldable pub native_transport_type : TransportType → ℤ
native_transport_type stream = pos 1
native_transport_type datagram = pos 2
native_transport_type seqpacket = pos 5
native_transport_type invalid_type = pos 0

unfoldable pub from_native_transport_type : Bool → ℤ → Option (ReturnValue TransportType)
from_native_transport_type asserts transport_type =
    if transport_type ==ℤ pos 1
    then some (success stream)
    else if transport_type ==ℤ pos 2
    then some (success datagram)
    else if transport_type ==ℤ pos 5
    then some (success seqpacket)
    else refused asserts

-- IPPROTO_UDP and IPPROTO_TCP.
unfoldable pub native_protocol : Protocol → ℤ
native_protocol default_protocol = pos 0
native_protocol udp = pos 17
native_protocol tcp = pos 6

unfoldable pub from_native_protocol : Bool → ℤ → Option (ReturnValue Protocol)
from_native_protocol asserts protocol =
    if protocol ==ℤ pos 0
    then some (success default_protocol)
    else if protocol ==ℤ pos 17
    then some (success udp)
    else if protocol ==ℤ pos 6
    then some (success tcp)
    else refused asserts

-- SO_RCVTIMEO, SO_SNDTIMEO and SO_REUSEADDR; the only level is SOL_SOCKET, which is 1.
unfoldable pub native_option : SocketOption → ℤ
native_option so_rcvtimeo = pos 20
native_option so_sndtimeo = pos 21
native_option so_reuseaddr = pos 2

-- `option_name` of `set_timeout` and `get_timeout`.
unfoldable pub timeout_option : Direction → SocketOption
timeout_option tx = so_sndtimeo
timeout_option rx = so_rcvtimeo
