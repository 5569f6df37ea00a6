-- ===== src/Net/AddrInfo/Results.antt =====
-- What `getaddrinfo` returns.
use mart_common.Prelude.{
  ◌≡◌, ◌≢◌, ◌⊎◌, inl, inr, refl, sym, ap, ◌∙◌, true, Option, none, some, List, [], ◌∷◌, ◌++◌, All,
  append_assoc, append-nil, arith,
}
use mart_common.Prelude.Int.{ℤ, pos, negsuc}
use mart_common.Text.{Bytes}
use mart_common.Net.Results.{success, failure, value_or}
use mart_common.Net.Enums.{
  Domain, invalid_domain, local_domain, inet, inet6, unspec, TransportType, invalid_type, Protocol,
  native_domain, native_transport_type, native_protocol,
}
use mart_common.Net.Enums.RoundTrip.{domain_iff, transport_type_iff, protocol_iff}
use mart_common.Net.Native.{NativeAddr, family}
use mart_common.Net.PortLayer.{Sockaddr}
use mart_common.Net.Sockaddrs.{sockaddr_in_of, sockaddr_in6_of, sockaddr_un_of}
use mart_common.Net.AddrInfo.{
  NativeInfo, NativeHint, AddrInfo, AddrInfoHints, to_native_hint, addr_from_native, from_native,
  collect, getaddrinfo,
}

-- An address of the library for one of the system: the same one with its domain, or none where the
-- family is that of no domain.
abbrev pub AddressOf : NativeAddr → Option Sockaddr → Type 0
AddressOf a none = (family a ≡ negsuc 0) ⊎ (family a ≡ pos 0)
AddressOf a (some z) = (z.native ≡ a) × (native_domain z.domain ≡ family a)

abbrev pub NameOf : Option Bytes → Bytes → Type 0
NameOf none s = s ≡ []
NameOf (some name) s = s ≡ name

-- A result of the library for one of the system, field by field.
pub record Converts (x : NativeInfo) (y : AddrInfo) : Type 0 where
  pub same_flags : y.flags ≡ x.ai_flags
  pub same_family : native_domain y.family_ ≡ x.ai_family
  pub same_type : native_transport_type y.socktype ≡ x.ai_socktype
  pub valid_type : y.socktype ≢ invalid_type
  pub same_protocol : native_protocol y.protocol ≡ x.ai_protocol
  pub same_address : AddressOf x.ai_addr y.addr
  pub same_name : NameOf x.ai_canonname y.canonname

abbrev pub Pairwise : List NativeInfo → List AddrInfo → Type 0
Pairwise [] [] = Unit
Pairwise [] (y ∷ ys) = ⊥
Pairwise (x ∷ xs) [] = ⊥
Pairwise (x ∷ xs) (y ∷ ys) = Converts x y × Pairwise xs ys

-- The enumerations have members for all of a result.
pub record IsKnown (x : NativeInfo) : Type 0 where
  pub domain : Domain
  pub type_ : TransportType
  pub protocol : Protocol
  pub address_domain : Domain
  pub is_domain : native_domain domain ≡ x.ai_family
  pub is_type : native_transport_type type_ ≡ x.ai_socktype
  pub is_valid : type_ ≢ invalid_type
  pub is_protocol : native_protocol protocol ≡ x.ai_protocol
  pub is_address : native_domain address_domain ≡ family x.ai_addr

address_lem :
    (a : NativeAddr) (d : Domain)
    → native_domain d ≡ family a
    → (o : Option Sockaddr) × (addr_from_native a ≡ some o) × AddressOf a o
unfolding addr_from_native native_domain sockaddr_in_of sockaddr_in6_of sockaddr_un_of value_or
address_lem a invalid_domain h =
    (none, rw ((domain_iff true (family a) invalid_domain).1 h) refl, inl (sym h))
address_lem a local_domain h =
    (some (sockaddr_un_of a), rw ((domain_iff true (family a) local_domain).1 h) refl, (refl, h))
address_lem a inet h =
    (some (sockaddr_in_of a), rw ((domain_iff true (family a) inet).1 h) refl, (refl, h))
address_lem a inet6 h =
    (some (sockaddr_in6_of a), rw ((domain_iff true (family a) inet6).1 h) refl, (refl, h))
address_lem a unspec h = (none, rw ((domain_iff true (family a) unspec).1 h) refl, inr (sym h))

name_lem : (o : Option Bytes) → NameOf o (elim o [ none ↦ [] | some name ↦ name ])
name_lem none = refl
name_lem (some name) = refl

from_native_lem :
    (x : NativeInfo) → IsKnown x → (y : AddrInfo) × (from_native x ≡ some y) × Converts x y
unfolding from_native value_or
from_native_lem x K =
    let (o, made, of_) = address_lem x.ai_addr K.address_domain K.is_address in
    (
      record {
        flags = x.ai_flags;
        family_ = K.domain;
        socktype = K.type_;
        protocol = K.protocol;
        addr = o;
        canonname = elim (x.ai_canonname) [ none ↦ [] | some name ↦ name ];
      },
      rw
          (
            (domain_iff true x.ai_family K.domain).1 K.is_domain,
            (transport_type_iff true x.ai_socktype K.type_).1 (K.is_valid, K.is_type),
            (protocol_iff true x.ai_protocol K.protocol).1 K.is_protocol,
            made,
          )
          refl,
      record {
        same_flags = refl;
        same_family = K.is_domain;
        same_type = K.is_type;
        valid_type = K.is_valid;
        same_protocol = K.is_protocol;
        same_address = of_;
        same_name = name_lem x.ai_canonname;
      },
    )

collect_lem :
    (ret : List AddrInfo) (list : List NativeInfo)
    → All IsKnown list
    → (ys : List AddrInfo) × (collect ret list ≡ some (ret ++ ys)) × Pairwise list ys
unfolding collect
collect_lem ret [] k = ([], ap some (sym (append-nil ret)), tt)
collect_lem ret (x ∷ list) (k, ks) =
    let (y, made, c) = from_native_lem x k in
    let (ys, more, cs) = collect_lem (ret ++ y ∷ []) list ks in
    (y ∷ ys, rw made (more ∙ ap some (append_assoc ret (y ∷ []) ys)), (c, cs))

module _ (call : Bytes → Bytes → NativeHint → ℤ × List NativeInfo) where
  -- `getaddrinfo` asks the system with the native values of the hints and with no flags, whatever
  -- the flags of the hints are. An error of the system is returned as it is. If the system succeeds
  -- and the enumerations have members for all of its results, `getaddrinfo` succeeds with one
  -- result for each, in their order, each with the flags, the family, the type, the protocol, the
  -- address and the name of its own.
  pub getaddrinfo_lem :
      (node service : Bytes) (hints : AddrInfoHints)
      → let (res, list) = call node service (record {
        ai_flags = pos 0;
        ai_family = native_domain hints.family_;
        ai_socktype = native_transport_type hints.socktype;
        ai_protocol = native_protocol hints.protocol;
      }) in
        (res ≢ pos 0
          → getaddrinfo call node service hints ≡ some (failure (record { value = res })))
        × (res ≡ pos 0
            → All IsKnown list
            → (ys : List AddrInfo) × (getaddrinfo call node service hints ≡ some (success ys))
              × Pairwise list ys)
  unfolding getaddrinfo to_native_hint
  getaddrinfo_lem node service hints = (
    λ ne. ground arith,
    λ e known.
        let (ys, made, pairs) = collect_lem [] (call node service (to_native_hint hints)).1 known in
        (ys, rw (e, made) refl, pairs),
  )
