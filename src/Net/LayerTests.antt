-- ===== src/Net/LayerTests.antt =====
-- The port layer on the simulated system.
use Prim.Native.Nat.{bit_and}
use mart_common.Prelude.{
  ℕ, ◌+◌, ◌≤◌, ◌<◌, ◌≡◌, ◌≢◌, ◌↔◌, ◌⊎◌, refl, [], ◌∷◌, Option, none, some, drop, length, All, ◌^◌,
  List, true, if◌then◌else◌, leb, arith,
}
use mart_common.Prelude.Int.{ℤ, pos}
use mart_common.Text.{Bytes, codes, Lacks}
use mart_common.Text.Decimal
use mart_common.Containers.ArrayView.{ArrayView, null, elements}
use mart_common.Net.ByteOrder.{to_net_order_16}
use mart_common.Net.ByteOrder.Swap.{to_host_order-to_net_order}
use mart_common.Net.Results.{success, failure}
use mart_common.Net.Enums.{
  Domain, TransportType, Protocol, refused, datagram, udp, inet, stream, invalid_type,
  default_protocol, tcp, rx, native_domain, from_native_domain, native_transport_type,
  from_native_transport_type, native_protocol, from_native_protocol,
}
use mart_common.Net.Enums.RoundTrip.{from_native_iff}
use mart_common.Net.Native.{NativeAddr, in4, in6, msg_trunc}
use mart_common.Net.PortLayer
use mart_common.Net.PortLayer.{msg_nosignal}
use mart_common.Net.Simulated.{World, quiet, simulated, simulated-StoresTimes}
use mart_common.Net.Transfer.{Memory, SendResult, RecvResult, send, recv}
use mart_common.Net.Timeouts.{to_timeval, from_timeval, set_timeout, get_timeout}
use mart_common.Net.Timeouts.RoundTrip.{get_timeout-set_timeout}
use mart_common.Net.Sockaddrs.{path, path_length, sockaddr_un}
use mart_common.Net.Sockaddrs.Paths.{path-sockaddr_un}
use mart_common.Net.AddressText.{to_string, inet_net_to_pres, append_port}
use mart_common.Net.AddrInfo.{
  NativeInfo, NativeHint, AddrInfo, AddrInfoHints, getaddrinfo, to_native_hint,
}
use mart_common.Net.AddrInfo.Results.{IsKnown, Pairwise, getaddrinfo_lem}

from_native_iff_example :
    ((from_native_domain true (pos 2) ≡ some (success inet)) ↔ (native_domain inet ≡ pos 2))
    × ((from_native_transport_type true (pos 2) ≡ some (success stream))
        ↔ ((stream ≢ invalid_type) × (native_transport_type stream ≡ pos 2)))
    × ((from_native_protocol true (pos 2) ≡ some (success tcp)) ↔ (native_protocol tcp ≡ pos 2))
    × (((e : Domain) → native_domain e ≢ pos 2) → from_native_domain true (pos 2) ≡ refused true)
    × (((e : TransportType) → e ≢ invalid_type → native_transport_type e ≢ pos 2)
        → from_native_transport_type true (pos 2) ≡ refused true)
    × (((e : Protocol) → native_protocol e ≢ pos 2)
        → from_native_protocol true (pos 2) ≡ refused true)
    × (from_native_transport_type true (native_transport_type invalid_type) ≡ refused true)
from_native_iff_example = from_native_iff true (pos 2) inet stream tcp

-- The address of a byte is its value.
abbrev counted : Memory
counted k = k

abbrev view : ArrayView
view = record { data_ = 10; size = 4 }

abbrev SendResultOf : Option ℕ × World → Type 0
SendResultOf (o, w) =
    (r : SendResult) × (send simulated counted (some 3) view 0 quiet ≡ (some r, w))
    × (((n : ℕ) × (o ≡ some n)
          × (n ≤ 4)
          × (r.result ≡ success (pos n))
          × (elements counted r.remaining_data ≡ drop n (elements counted view)))
        ⊎ ((o ≡ none)
            × (r.result ≡ failure (record { value = pos 11 }))
            × (elements counted r.remaining_data ≡ elements counted view)))

abbrev waiting_two : World
waiting_two = record { next = 4; live = λ k. true; waiting = (7 ∷ 8 ∷ []) ∷ []; option = [] }

abbrev RecvResultOf : (Option ℕ × Bytes) × World → Type 0
RecvResultOf ((o, bs), _) =
    let (a, m', w') = recv simulated counted (some 3) view 0 waiting_two in
    ((n : ℕ) × (o ≡ some n)
      × (n ≤ 4)
      × (r : RecvResult) × (a ≡ some r)
      × (r.result ≡ success (pos n))
      × (elements m' r.received_data ≡ bs)
      × ((k : ℕ) → (k < 10) ⊎ (10 + n ≤ k) → m' k ≡ counted k))
    ⊎ ((n : ℕ) × (o ≡ some n) × (4 < n) × (bit_and 0 msg_trunc ≢ 0) × (n < 2 ^ 31 → a ≡ none))
    ⊎ ((o ≡ none)
        × (r : RecvResult) × (a ≡ some r)
        × (r.result ≡ failure (record { value = pos 11 }))
        × (r.received_data ≡ null))

-- The system answers with the time that was set.
get_timeout-set_timeout_example :
    (set_timeout simulated (some 3) rx (pos 2500000) quiet ≡ (
      record { value = pos 0 },
      record quiet { option = simulated.of_time (to_timeval (pos 2500000)) },
    ))
    × (from_timeval (to_timeval (pos 2500000)) ≡ pos 2500000)
    × ((s : ℕ) × (u : ℕ) × ((to_timeval (pos 2500000)).tv_sec ≡ pos s)
        × ((to_timeval (pos 2500000)).tv_usec ≡ pos u)
        × (u < 1000000))
    × ((simulated.getsockopt_
            (pos 3)
            (pos 1)
            (pos 20)
            (record quiet { option = simulated.of_time (to_timeval (pos 2500000)) })).0
          ≡ (pos 0, simulated.of_time (to_timeval (pos 2500000)), 16)
        → (get_timeout simulated
            (some 3)
            rx
            (set_timeout simulated (some 3) rx (pos 2500000) quiet).1).0
          ≡ success (pos 2500000))
unfolding PortLayer.get_appropriate_error_code set_timeout PortLayer.setsockopt
get_timeout-set_timeout_example =
    get_timeout-set_timeout simulated simulated-StoresTimes (some 3) rx (pos 2500000) (pos 2500000)
      quiet

-- The premise of the example holds.
answered :
    (simulated.getsockopt_
      (pos 3)
      (pos 1)
      (pos 20)
      (record quiet { option = simulated.of_time (to_timeval (pos 2500000)) })).0
    ≡ (pos 0, simulated.of_time (to_timeval (pos 2500000)), 16)
unfolding to_timeval
answered = refl

path-sockaddr_un_example :
    (path (sockaddr_un (codes "/tmp/s")) ≡ codes "/tmp/s")
    × (path_length (sockaddr_un (codes "/tmp/s")) ≤ 107)
    × (length (codes "/tmp/s") ≤ 107
        → Lacks 0 (codes "/tmp/s")
        → path (sockaddr_un (codes "/tmp/s")) ≡ codes "/tmp/s")
path-sockaddr_un_example = path-sockaddr_un (codes "/tmp/s")

-- An `inet_ntop` that knows the local host only.
abbrev localhost : NativeAddr → ℕ → Option Bytes
localhost (in4 a p) size = if leb 10 size then some (codes "127.0.0.1") else none
localhost (in6 a p) size = if leb 4 size then some (codes "::1") else none
localhost _ size = none

-- The premises of the example hold.
cut_texts :
    (inet_net_to_pres localhost (in4 16777343 (to_net_order_16 80)) 12 ≡ some (codes "127.0.0.1"))
    × (inet_net_to_pres localhost (in6 [] (to_net_order_16 80)) 12 ≡ some (codes "::1:80"))
unfolding inet_net_to_pres append_port Decimal.to_string
cut_texts =
    let port = (to_host_order-to_net_order 80).0 (omega arith) in (rw port refl, rw port refl)

abbrev one_result : Bytes → Bytes → NativeHint → ℤ × List NativeInfo
one_result node service hint = (
  pos 0,
  record {
    ai_flags = pos 0;
    ai_family = pos 2;
    ai_socktype = pos 2;
    ai_protocol = pos 17;
    ai_addr = in4 16777343 20480;
    ai_canonname = none;
  }
      ∷ [],
)

abbrev any_hint : AddrInfoHints
any_hint = record {
  flags = pos 2;
  family_ = inet;
  socktype = invalid_type;
  protocol = default_protocol;
}

abbrev FoundBy : ℤ × List NativeInfo → Type 0
FoundBy (res, list) =
    (res ≢ pos 0 → getaddrinfo one_result [] [] any_hint ≡ some (failure (record { value = res })))
    × (res ≡ pos 0
        → All IsKnown list
        → (ys : List AddrInfo) × (getaddrinfo one_result [] [] any_hint ≡ some (success ys))
          × Pairwise list ys)

getaddrinfo_lem_example : FoundBy (
    one_result [] [] (record {
      ai_flags = pos 0;
      ai_family = native_domain inet;
      ai_socktype = native_transport_type invalid_type;
      ai_protocol = native_protocol default_protocol;
    }))
getaddrinfo_lem_example = getaddrinfo_lem one_result [] [] any_hint

-- Its one result is known.
one_result-IsKnown : All IsKnown (one_result [] [] (to_native_hint any_hint)).1
unfolding native_domain native_transport_type native_protocol
one_result-IsKnown = (
  record {
    domain = inet;
    type_ = datagram;
    protocol = udp;
    address_domain = inet;
    is_domain = refl;
    is_type = refl;
    is_valid = λ e. ground (arith, e);
    is_protocol = refl;
    is_address = refl;
  },
  tt,
)
