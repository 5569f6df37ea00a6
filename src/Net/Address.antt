-- ===== src/Net/Address.antt =====
-- `_impl_addr_v4` of include/mart-netlib/detail/ip_detail.hpp: dotted addresses of IPv4.
pub mod Blocks
pub mod Octets
pub mod Parse
use Prim.Native.Nat.{bit_or}
use mart_common.Prelude.{
  ℕ, suc, ◌+◌, ◌-◌, ◌*◌, ◌%◌, ◌^◌, Bool, true, false, not, ◌&&◌, ◌||◌, List, [], ◌∷◌, Option, none,
  some, ltb, leb, ◌==◌, if◌then◌else◌, ◌>>=◌, length, take, drop, set,
}
use mart_common.Prelude.Bits.{shl}
use mart_common.Text.{Bytes, is_digit}
use mart_common.Text.Integral.{to_integral_unsafe}

abbrev pub dot : ℕ
dot = b'.'

abbrev pub max_u32 : ℕ
max_u32 = 2 ^ 32 - 1

pub has_wrong_length : Bytes → Bool
has_wrong_length str = ltb (4 * 3 + 3) (length str) || ltb (length str) (4 + 3)

pub has_invalid_char : Bytes → Bool
has_invalid_char [] = false
has_invalid_char (c ∷ str) =
    let rest = has_invalid_char str in if not (is_digit c || c == dot) then true else rest

-- `cnt += c == '.'` over the text.
pub count_dots : Bytes → ℕ
count_dots [] = 0
count_dots (c ∷ str) = (if c == dot then 1 else 0) + count_dots str

pub has_wrong_block_count : Bytes → Bool
unfolding count_dots
has_wrong_block_count str = not (count_dots str == 3)

pub is_malformed : Bytes → Bool
is_malformed str = has_wrong_length str || has_invalid_char str || has_wrong_block_count str

unfoldable pub parse_block : Bytes → Option ℕ
unfolding to_integral_unsafe
parse_block block =
    if ltb 3 (length block)
    then none
    else let num = to_integral_unsafe max_u32 block in if ltb 255 num then none else some num

-- The loop of `split_blocks_unchecked` at `pos`, with `rest` the bytes from there on; a write
-- behind the fourth block would be out of bounds, and is kept from happening by the dot count.
blocks_loop : Bytes → Bytes → ℕ → List Bytes → ℕ → ℕ → List Bytes
blocks_loop str [] pos ret cnt start = set ret 3 (drop start str)
blocks_loop str (c ∷ rest) pos ret cnt start =
    let next =
      blocks_loop str rest (pos + 1) (set ret cnt (take (pos - start) (drop start str))) (cnt + 1)
        (pos + 1) in
    let same = blocks_loop str rest (pos + 1) ret cnt start in if c == dot then next else same

pub split_blocks_unchecked : Bytes → List Bytes
unfolding blocks_loop
split_blocks_unchecked str = blocks_loop str str 0 ([] ∷ [] ∷ [] ∷ [] ∷ []) 0 0

-- `accum <<= 8; accum |= v;` on a `uint32_t`, for one block after the other.
pub accumulate : List Bytes → ℕ → Option ℕ
unfolding parse_block
accumulate [] accum = some accum
accumulate (block ∷ blocks) accum = do
  v ← parse_block block
  accumulate blocks (bit_or (shl accum 8 % 2 ^ 32) v)

unfoldable pub parse_address : Bytes → Option ℕ
unfolding is_malformed has_wrong_length has_invalid_char has_wrong_block_count count_dots
    split_blocks_unchecked accumulate
parse_address string =
    if is_malformed string then none else accumulate (split_blocks_unchecked string) 0
