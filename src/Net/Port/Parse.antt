-- ===== src/Net/Port/Parse.antt =====
-- Which texts `try_parse_v4_port` accepts.
use mart_common.Prelude.{
  ℕ, ◌≤◌, ◌<◌, ◌^◌, ◌≡◌, refl, sym, ap, ◌↔◌, false, ◌||◌, [], ◌∷◌, some, length, Bool-cases, inl,
  inr, arith,
}
use native.Mathlib.Nat.{lt_of_lt_of_le, pow-le-pow_right}
use mart_common.Text.{Bytes}
use mart_common.Text.Integral.{to_integral_unsafe}
use mart_common.Text.Integral.Bounds.{spelled, to_integral_unsafe_lem}
use mart_common.Text.Decimal.{
  Digits, spelled-lt, to_string, to_string-Digits, length-to_string, spelled-to_string,
  to_string-ne-nil,
}
use mart_common.Net.ByteOrder.Swap.{to_host_order-to_net_order}
use mart_common.Net.Address.{max_u32}
use mart_common.Net.Port.{
  PortNr, from_host, in_host_order, has_wrong_length, has_invalid_char, try_parse_v4_port,
}

valid-Digits : (s : Bytes) → has_invalid_char s ≡ false → Digits s
unfolding has_invalid_char
valid-Digits [] e = tt
valid-Digits (c ∷ s) e = ground (arith, valid-Digits s)

Digits-valid : (s : Bytes) → Digits s → has_invalid_char s ≡ false
unfolding has_invalid_char
Digits-valid [] h = refl
Digits-valid (c ∷ s) h = ground (arith, Digits-valid s h.1)

spelled_six : (s : Bytes) → Digits s → length s ≤ 6 → spelled s < 10 ^ 6
spelled_six s h le = lt_of_lt_of_le (spelled-lt s h) (pow-le-pow_right (omega arith) le)

-- The texts of a port: one to six digits that spell a number up to 65535.
pub record Reads (str : Bytes) (port : PortNr) : Type 0 where
  pub digits : Digits str
  pub some_digit : 0 < length str
  pub short : length str ≤ 6
  pub small : spelled str ≤ 65535
  pub is_port : port ≡ from_host (spelled str)

parsed_number :
    (str : Bytes) → Digits str → length str ≤ 6 → to_integral_unsafe max_u32 str ≡ spelled str
parsed_number str h le = to_integral_unsafe_lem max_u32 str h (omega (arith, spelled_six str h le))

Reads-try_parse : (str : Bytes) (port : PortNr) → Reads str port → try_parse_v4_port str ≡ some port
unfolding try_parse_v4_port has_wrong_length
Reads-try_parse str port r =
    ground (arith, Digits-valid str r.digits, parsed_number str r.digits r.short)

well_formed :
    (str : Bytes)
    → (has_wrong_length str || has_invalid_char str) ≡ false
    → (0 < length str) × (length str ≤ 6) × Digits str
unfolding has_wrong_length
well_formed str h = (ground arith, ground arith, valid-Digits str (ground arith))

try_parse-Reads : (str : Bytes) (port : PortNr) → try_parse_v4_port str ≡ some port → Reads str port
unfolding try_parse_v4_port
try_parse-Reads str port e = elim (Bool-cases (has_wrong_length str || has_invalid_char str)) [
  | inl bad ↦ absurd (ground arith)
  | inr good ↦
      let (some_digit, short, digits) = well_formed str good in
      let number = parsed_number str digits short in
      record {
        digits = digits;
        some_digit = some_digit;
        short = short;
        small = ground arith;
        is_port = ground arith;
      }
]

-- `try_parse_v4_port` returns a port for exactly the texts of one to six digits that spell at
-- most 65535, and the port is the number spelled.
pub try_parse_v4_port_iff :
    (str : Bytes) (port : PortNr) → (try_parse_v4_port str ≡ some port) ↔ Reads str port
try_parse_v4_port_iff str port = (try_parse-Reads str port, Reads-try_parse str port)

-- A port number survives the way to network order and back.
pub in_host_order-from_host : (n : ℕ) → n < 2 ^ 16 → in_host_order (from_host n) ≡ n
unfolding in_host_order from_host
in_host_order-from_host n h = (to_host_order-to_net_order n).0 h

-- Reading a printed port number gives that port.
pub try_parse_v4_port-to_string :
    (n : ℕ) → n < 2 ^ 16 → try_parse_v4_port (to_string n) ≡ some (from_host n)
try_parse_v4_port-to_string n h = Reads-try_parse (to_string n) (from_host n) (record {
  digits = to_string-Digits n;
  some_digit = to_string-ne-nil n;
  short = omega (arith, length-to_string 4 n (omega arith));
  small = omega (arith, spelled-to_string n);
  is_port = ap from_host (sym (spelled-to_string n));
})
