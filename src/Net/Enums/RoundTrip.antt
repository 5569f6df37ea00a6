-- ===== src/Net/Enums/RoundTrip.antt =====
-- What the conversions of the enumerations lose.
use mart_common.Prelude.{Bool, some, ◌≡◌, ◌≢◌, ◌↔◌, refl, arith}
use mart_common.Prelude.Int.{ℤ}
use mart_common.Net.Results.{success}
use mart_common.Net.Enums.{
  Domain, invalid_domain, local_domain, inet, inet6, unspec, TransportType, invalid_type, stream,
  datagram, seqpacket, Protocol, default_protocol, udp, tcp, native_domain, from_native_domain,
  native_transport_type, from_native_transport_type, native_protocol, from_native_protocol, refused,
}

pub domain_iff :
    (asserts : Bool) (n : ℤ) (d : Domain)
    → (from_native_domain asserts n ≡ some (success d)) ↔ (native_domain d ≡ n)
unfolding native_domain from_native_domain
domain_iff asserts n d = ground arith

pub transport_type_iff :
    (asserts : Bool) (n : ℤ) (t : TransportType)
    → (from_native_transport_type asserts n ≡ some (success t))
      ↔ ((t ≢ invalid_type) × (native_transport_type t ≡ n))
unfolding native_transport_type from_native_transport_type
transport_type_iff asserts n t = ground arith

pub protocol_iff :
    (asserts : Bool) (n : ℤ) (p : Protocol)
    → (from_native_protocol asserts n ≡ some (success p)) ↔ (native_protocol p ≡ n)
unfolding native_protocol from_native_protocol
protocol_iff asserts n p = ground arith

domain_refused :
    (asserts : Bool) (n : ℤ)
    → ((d : Domain) → native_domain d ≢ n)
    → from_native_domain asserts n ≡ refused asserts
unfolding native_domain from_native_domain
domain_refused asserts n h =
    ground (arith, h invalid_domain, h local_domain, h inet, h inet6, h unspec)

transport_type_refused :
    (asserts : Bool) (n : ℤ)
    → ((t : TransportType) → t ≢ invalid_type → native_transport_type t ≢ n)
    → from_native_transport_type asserts n ≡ refused asserts
unfolding native_transport_type from_native_transport_type
transport_type_refused asserts n h = ground (
  arith,
  h stream (λ e. ground (arith, e)),
  h datagram (λ e. ground (arith, e)),
  h seqpacket (λ e. ground (arith, e)),
)

protocol_refused :
    (asserts : Bool) (n : ℤ)
    → ((p : Protocol) → native_protocol p ≢ n)
    → from_native_protocol asserts n ≡ refused asserts
unfolding native_protocol from_native_protocol
protocol_refused asserts n h = ground (arith, h default_protocol, h udp, h tcp)

-- With the asserts on or off, `from_native_domain`, `from_native_transport_type` and
-- `from_native_protocol` succeed exactly on the values that `to_native` gives, with the member it
-- gives them for; the one member that is lost is `TransportType::Invalid`. Every other value, that
-- of `TransportType::Invalid` included, fails the assertion, or is refused as an invalid argument
-- where the asserts are off.
pub from_native_iff :
    (asserts : Bool) (n : ℤ) (d : Domain) (t : TransportType) (p : Protocol)
    → ((from_native_domain asserts n ≡ some (success d)) ↔ (native_domain d ≡ n))
      × ((from_native_transport_type asserts n ≡ some (success t))
          ↔ ((t ≢ invalid_type) × (native_transport_type t ≡ n)))
      × ((from_native_protocol asserts n ≡ some (success p)) ↔ (native_protocol p ≡ n))
      × (((e : Domain) → native_domain e ≢ n) → from_native_domain asserts n ≡ refused asserts)
      × (((e : TransportType) → e ≢ invalid_type → native_transport_type e ≢ n)
          → from_native_transport_type asserts n ≡ refused asserts)
      × (((e : Protocol) → native_protocol e ≢ n)
          → from_native_protocol asserts n ≡ refused asserts)
      × (from_native_transport_type asserts (native_transport_type invalid_type) ≡ refused asserts)
unfolding native_transport_type from_native_transport_type
from_native_iff asserts n d t p = (
  domain_iff asserts n d,
  transport_type_iff asserts n t,
  protocol_iff asserts n p,
  domain_refused asserts n,
  transport_type_refused asserts n,
  protocol_refused asserts n,
  refl,
)
