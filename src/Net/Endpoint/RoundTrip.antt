-- ===== src/Net/Endpoint/RoundTrip.antt =====
-- Endpoints printed by `toString` and read again.
use mart_common.Prelude.{
  ℕ, ◌/◌, ◌%◌, ◌^◌, ◌≤◌, ◌<◌, ◌≡◌, ◌≢◌, refl, sym, ap, ◌∙◌, ◌∷◌, ◌++◌, [], Option, some, none,
  All-append, arith,
}
use mart_common.Prelude.Int.{ℤ, pos}
use mart_common.Text.{Bytes, Lacks}
use mart_common.Text.Split.{split-append}
use mart_common.Text.Decimal
use mart_common.Text.Decimal.{to_string-Digits, Digits-Lacks}
use mart_common.Net.ByteOrder.{to_net_order_32}
use mart_common.Net.Address.{dot, parse_address}
use mart_common.Net.Address.Octets.{word}
use mart_common.Net.Address.Parse.{dotted, parse_address-dotted}
use mart_common.Net.AddressV4
use mart_common.Net.AddressV4.{AddressV4, try_parse_v4_address, as_string, inet_net_to_pres}
use mart_common.Net.Enums.{native_domain}
use mart_common.Net.Port
use mart_common.Net.Port.{try_parse_v4_port}
use mart_common.Net.Port.Parse.{try_parse_v4_port-to_string, in_host_order-from_host}
use mart_common.Net.Endpoint.{colon, endpoint, try_parse_basic_v4_endpoint, to_string}

-- The documented behaviour of `inet_ntop` for IPv4, in a buffer of INET_ADDRSTRLEN bytes or more:
-- four decimal numbers joined by dots.
abbrev pub PrintsDotted : (ℤ → ℕ → ℕ → Option Bytes) → Type 0
PrintsDotted inet_ntop =
    (a b c d size : ℕ)
    → a ≤ 255
    → b ≤ 255
    → c ≤ 255
    → d ≤ 255
    → 16 ≤ size
    → inet_ntop (pos 2) (to_net_order_32 (word a b c d)) size ≡ some (dotted a b c d)

word_of_bytes :
    (n : ℕ) → n < 2 ^ 32 → word (n / 2 ^ 24) (n / 2 ^ 16 % 256) (n / 2 ^ 8 % 256) (n % 256) ≡ n
word_of_bytes n h = omega arith

joined-Lacks : (b : ℕ) (s t : Bytes) → b ≢ dot → Lacks b s → Lacks b t → Lacks b (s ++ dot ∷ t)
joined-Lacks b s t h hs ht = All-append _ s (dot ∷ t) hs (ground arith)

dotted-Lacks : (a b c d : ℕ) → Lacks colon (dotted a b c d)
unfolding dotted
dotted-Lacks a b c d =
    joined-Lacks colon _ _ differ (free a)
      (joined-Lacks colon _ _ differ (free b) (joined-Lacks colon _ _ differ (free c) (free d)))
  where
    differ : colon ≢ dot
    differ = omega arith

    free : (n : ℕ) → Lacks colon (Decimal.to_string n)
    free n = Digits-Lacks colon (Decimal.to_string n) refl (to_string-Digits n)

try_parse-joined :
    (s t : Bytes) (address : AddressV4) (port : Port.PortNr)
    → Lacks colon s
    → try_parse_v4_address s ≡ some address
    → try_parse_v4_port t ≡ some port
    → try_parse_basic_v4_endpoint (s ++ colon ∷ t) ≡ some (endpoint address port)
unfolding try_parse_basic_v4_endpoint
try_parse-joined s t address port h ha hp = rw (split-append s t colon h, ha, hp)

module _ (inet_ntop : ℤ → ℕ → ℕ → Option Bytes) (prints : PrintsDotted inet_ntop) where
  module _ (n : ℕ) (h : n < 2 ^ 32) where
    printed :
        as_string inet_ntop (AddressV4.from_host n)
        ≡ dotted (n / 2 ^ 24) (n / 2 ^ 16 % 256) (n / 2 ^ 8 % 256) (n % 256)
    unfolding as_string AddressV4.from_host inet_net_to_pres native_domain
    printed = ap shown written
      where
        shown : Option Bytes → Bytes
        shown o = elim o [ none ↦ [] | some ret ↦ ret ]

        written :
            inet_ntop (pos 2) (to_net_order_32 n) 24
            ≡ some (dotted (n / 2 ^ 24) (n / 2 ^ 16 % 256) (n / 2 ^ 8 % 256) (n % 256))
        written =
            ap (λ t. inet_ntop (pos 2) (to_net_order_32 t) 24) (sym (word_of_bytes n h))
            ∙ prints (n / 2 ^ 24) (n / 2 ^ 16 % 256) (n / 2 ^ 8 % 256) (n % 256) 24 (omega arith)
                (omega arith) (omega arith) (omega arith) (omega arith)

    parse-printed : parse_address (as_string inet_ntop (AddressV4.from_host n)) ≡ some n
    parse-printed =
        ap parse_address printed
        ∙ parse_address-dotted (n / 2 ^ 24) (n / 2 ^ 16 % 256) (n / 2 ^ 8 % 256) (n % 256)
            (omega arith) (omega arith) (omega arith) (omega arith)
        ∙ ap some (word_of_bytes n h)

    try_parse-printed :
        try_parse_v4_address (as_string inet_ntop (AddressV4.from_host n))
        ≡ some (AddressV4.from_host n)
    unfolding try_parse_v4_address
    try_parse-printed = rw (parse-printed, try_parse_v4_address)

  -- The text that `toString` gives for an endpoint is read back as that endpoint, for every
  -- address and port, if `inet_ntop` writes dotted decimals.
  pub try_parse-to_string :
      (n p : ℕ)
      → n < 2 ^ 32
      → p < 2 ^ 16
      → let e = endpoint (AddressV4.from_host n) (Port.from_host p) in
        try_parse_basic_v4_endpoint (to_string inet_ntop e) ≡ some e
  unfolding to_string endpoint
  try_parse-to_string n p hn hp = rw (in_host_order-from_host p hp) (
      try_parse-joined (as_string inet_ntop (AddressV4.from_host n)) (Decimal.to_string p) _ _
        (rw (printed n hn) (dotted-Lacks _ _ _ _)) (try_parse-printed n hn)
        (try_parse_v4_port-to_string p hp))
