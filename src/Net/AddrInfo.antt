-- ===== src/Net/AddrInfo.antt =====
-- `getaddrinfo` of src/mart-netlib/port_layer.cpp; the call of the system is a parameter, with the
-- list of its results in order. The asserts are switched on: none as a result is a failed one.
pub mod Results
use mart_common.Prelude.{ℕ, true, ◌>>=◌, List, [], ◌∷◌, ◌++◌, Option, none, some, if◌then◌else◌}
use mart_common.Prelude.Int.{ℤ, pos, ◌==ℤ◌}
use mart_common.Text.{Bytes}
use mart_common.Net.Results.{ErrorCode, ReturnValue, success, failure, value_or}
use mart_common.Net.Enums.{
  Domain, invalid_domain, local_domain, inet, inet6, unspec, TransportType, invalid_type, Protocol,
  default_protocol, native_domain, native_transport_type, native_protocol, from_native_domain,
  from_native_transport_type, from_native_protocol,
}
use mart_common.Net.Native.{NativeAddr, family}
use mart_common.Net.PortLayer.{Sockaddr}
use mart_common.Net.Sockaddrs.{sockaddr_in_of, sockaddr_in6_of, sockaddr_un_of}

-- `::addrinfo`, without its link to the next one.
pub record NativeInfo : Type 0 where
  pub ai_flags : ℤ
  pub ai_family : ℤ
  pub ai_socktype : ℤ
  pub ai_protocol : ℤ
  pub ai_addr : NativeAddr
  pub ai_canonname : Option Bytes

-- The fields of `::addrinfo` that a hint has.
pub record NativeHint : Type 0 where
  pub ai_flags : ℤ
  pub ai_family : ℤ
  pub ai_socktype : ℤ
  pub ai_protocol : ℤ

pub record AddrInfo : Type 0 where
  pub flags : ℤ
  pub family_ : Domain
  pub socktype : TransportType
  pub protocol : Protocol
  pub addr : Option Sockaddr
  pub canonname : Bytes

pub record AddrInfoHints : Type 0 where
  pub flags : ℤ
  pub family_ : Domain
  pub socktype : TransportType
  pub protocol : Protocol

-- `to_native_hint`, whose flags stay zero.
unfoldable pub to_native_hint : AddrInfoHints → NativeHint
unfolding native_domain native_transport_type native_protocol
to_native_hint address_info = record {
  ai_flags = pos 0;
  ai_family = native_domain address_info.family_;
  ai_socktype = native_transport_type address_info.socktype;
  ai_protocol = native_protocol address_info.protocol;
}

-- The address that `from_native` makes, if any.
unfoldable pub addr_from_native : NativeAddr → Option (Option Sockaddr)
unfolding value_or from_native_domain sockaddr_in_of sockaddr_in6_of sockaddr_un_of
addr_from_native a = do
  domain ← from_native_domain true (family a)
  some (elim (value_or domain invalid_domain) [
    | local_domain ↦ some (sockaddr_un_of a)
    | inet6 ↦ some (sockaddr_in6_of a)
    | inet ↦ some (sockaddr_in_of a)
    | invalid_domain ↦ none
    | unspec ↦ none
  ])

unfoldable pub from_native : NativeInfo → Option AddrInfo
unfolding value_or from_native_domain from_native_transport_type from_native_protocol
    addr_from_native
from_native native = do
  domain ← from_native_domain true native.ai_family
  type_ ← from_native_transport_type true native.ai_socktype
  protocol ← from_native_protocol true native.ai_protocol
  addr ← addr_from_native native.ai_addr
  some (record {
    flags = native.ai_flags;
    family_ = value_or domain invalid_domain;
    socktype = value_or type_ invalid_type;
    protocol = value_or protocol default_protocol;
    addr = addr;
    canonname = elim (native.ai_canonname) [ none ↦ [] | some name ↦ name ];
  })

-- The loop over the list.
unfoldable pub collect : List AddrInfo → List NativeInfo → Option (List AddrInfo)
unfolding from_native
collect ret [] = some ret
collect ret (native_addr ∷ rest) = do
  info ← from_native native_addr
  collect (ret ++ info ∷ []) rest

module _ (getaddrinfo_ : Bytes → Bytes → NativeHint → ℤ × List NativeInfo) where
  unfoldable pub getaddrinfo : Bytes → Bytes → AddrInfoHints → Option (ReturnValue (List AddrInfo))
  unfolding to_native_hint collect
  getaddrinfo node_name service_name hints =
      let (res, list) = getaddrinfo_ node_name service_name (to_native_hint hints) in
      if res ==ℤ pos 0
      then (do ret ← collect [] list; some (success ret))
      else some (failure (record { value = res }))

  -- The overload with a domain; `AI_CANONNAME` is 2.
  unfoldable pub getaddrinfo_of : Bytes → Bytes → Domain → Option (ReturnValue (List AddrInfo))
  unfolding getaddrinfo
  getaddrinfo_of node_name service_name addr_type = getaddrinfo node_name service_name (record {
    flags = pos 2;
    family_ = addr_type;
    socktype = invalid_type;
    protocol = default_protocol;
  })
