-- ===== src/Net/Sockaddrs/Paths.antt =====
-- The path of a local address, and an endpoint that goes to the system and back.
use mart_common.Prelude.{
  ◌-◌, ◌≤◌, ◌≡◌, refl, sym, ap, ◌∙◌, [], ◌∷◌, ◌++◌, ltb, ◌==◌, if◌then◌else◌, take, length,
  replicate, take_all, length-take, Bool-cases, inl, inr, ltb→lt, arith,
}
use mart_common.Text.{Bytes, Lacks}
use mart_common.Net.Endpoint.{EndpointV4, endpoint}
use mart_common.Net.Sockaddrs.{
  c_string, sockaddr_un, sockaddr_un_of, make_sockaddr_un, path, path_length, actual_length,
  to_sock_addr_in, sockaddr_in, sockaddr_in_of, endpoint_of, address_of, port_of,
}

c_string-append : (s t : Bytes) → c_string (s ++ 0 ∷ t) ≡ c_string s
c_string-append [] t = refl
c_string-append (b ∷ s) t = ap (λ r. if b == 0 then [] else b ∷ r) (c_string-append s t)

c_string-Lacks : (s : Bytes) → Lacks 0 s → c_string s ≡ s
c_string-Lacks [] h = refl
c_string-Lacks (b ∷ s) h = ground (arith, c_string-Lacks s h.1)

length-c_string : (s : Bytes) → length (c_string s) ≤ length s
length-c_string [] = omega arith
length-c_string (b ∷ s) = ground (arith, length-c_string s)

take_actual : (s : Bytes) → take (actual_length (length s)) s ≡ take 107 s
take_actual s = elim (Bool-cases (ltb (length s) 107)) [
  | inl small ↦ rw small (
      take_all (length s) s (omega arith)
      ∙ sym (take_all 107 s (omega (arith, ltb→lt (length s) 107 small))))
  | inr large ↦ rw large refl
]

-- The path of a local address is the text given, cut to 107 bytes and at the first zero byte; it
-- is the whole text if this is short enough and has no zero byte.
pub path-sockaddr_un :
    (s : Bytes)
    → (path (sockaddr_un s) ≡ c_string (take 107 s))
      × (path_length (sockaddr_un s) ≤ 107)
      × (length s ≤ 107 → Lacks 0 s → path (sockaddr_un s) ≡ s)
unfolding path sockaddr_un sockaddr_un_of make_sockaddr_un path_length
path-sockaddr_un s = (
  cut,
  omega (arith, ap length cut, length-c_string (take 107 s), length-take 107 s),
  λ short free. cut ∙ ap c_string (take_all 107 s short) ∙ c_string-Lacks s free,
)
  where
    cut : path (sockaddr_un s) ≡ c_string (take 107 s)
    cut =
        c_string-append (take (actual_length (length s)) s)
          (replicate (108 - actual_length (length s) - 1) 0)
        ∙ ap c_string (take_actual s)

-- An endpoint of IPv4 is the same after it has been passed to the system and back, but that it is
-- valid then.
pub endpoint_of-to_sock_addr_in :
    (e : EndpointV4) → endpoint_of (to_sock_addr_in e) ≡ endpoint e.address e.port
unfolding endpoint_of to_sock_addr_in sockaddr_in sockaddr_in_of address_of port_of endpoint
endpoint_of-to_sock_addr_in e = refl
