-- ===== src/Log/Streams.antt =====
-- The output streams that include/mart-common/logging/default_formatter.h prints to: the text, and
-- the part of the state that it changes. A number takes the base and every item the width, the
-- fill and the side, after which the width is 0 again.
use mart_common.Prelude.{
  ℕ, zero, suc, ◌+◌, ◌-◌, ◌/◌, ◌%◌, Bool, true, [], ◌∷◌, ◌++◌, ltb, if◌then◌else◌, length,
  replicate,
}
use mart_common.Prelude.Int.{ℤ, pos, negsuc, size_of}
use mart_common.Text.{Bytes}
use mart_common.Text.Decimal

-- `flags` and `fill`: what `ostream_flag_saver` saves.
pub record Flags : Type 0 where
  pub is_left : Bool
  pub is_hex : Bool
  pub fill : ℕ

pub record Stream : Type 0 where
  pub text : Bytes
  pub width : ℕ
  pub flags : Flags

abbrev pub padding : ℕ → Bytes → ℕ → Bytes
padding width item fill = replicate (width - length item) fill

-- `out << item` for a text.
unfoldable pub put : Bytes → Stream → Stream
put item s = record s {
  text =
      s.text
      ++ (if s.flags.is_left
          then item ++ padding s.width item s.flags.fill
          else padding s.width item s.flags.fill ++ item);
  width = 0;
}

abbrev pub hex_digit : ℕ → ℕ
hex_digit d = if ltb d 10 then b'0' + d else b'a' + (d - 10)

-- The fuel bounds the number of digits; 16 are enough for 64 bits.
abbrev pub hex_loop : ℕ → ℕ → Bytes
hex_loop zero n = []
hex_loop (suc fuel) n =
    let rest = hex_loop fuel (n / 16) in
    if ltb n 16 then hex_digit n ∷ [] else rest ++ hex_digit (n % 16) ∷ []

abbrev pub decimal : ℤ → Bytes
decimal (pos n) = Decimal.to_string n
decimal (negsuc n) = b'-' ∷ Decimal.to_string (suc n)

-- `out << n` for an integer.
unfoldable pub put_int : ℤ → Stream → Stream
unfolding put
put_int n s = put (if s.flags.is_hex then hex_loop 16 (size_of n) else decimal n) s

unfoldable pub setw : ℕ → Stream → Stream
setw n s = record s { width = n }

unfoldable pub set_left : Bool → Stream → Stream
set_left b s = record s { flags = record s.flags { is_left = b } }

unfoldable pub set_hex : Stream → Stream
set_hex s = record s { flags = record s.flags { is_hex = true } }

unfoldable pub setfill : ℕ → Stream → Stream
setfill c s = record s { flags = record s.flags { fill = c } }

-- `ostream_flag_saver` around `f`.
abbrev pub with_saved_flags : (Stream → Stream) → Stream → Stream
with_saved_flags f s = record (f s) { flags = s.flags }
