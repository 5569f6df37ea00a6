-- ===== src/Log/Format.antt =====
-- include/mart-common/logging/default_formatter.h. An argument of `formatForLog` is a value of `Arg`,
-- with one constructor for each overload. What `operator<<` prints for other types and the text of
-- a time point are given as texts.
pub mod Prints
use mart_common.Prelude.{
  ℕ, zero, suc, ◌+◌, ◌-◌, ◌*◌, Bool, true, false, List, [], ◌∷◌, ◌++◌, leb, ltb, min, if◌then◌else◌,
  length, take, drop, replicate,
}
use mart_common.Prelude.Int.{ℤ, pos}
use mart_common.Text.{Bytes, codes}
use mart_common.Log.Levels.{Level, to_string_view}
use mart_common.Log.Streams.{
  Stream, put, put_int, setw, set_left, set_hex, setfill, with_saved_flags,
}

pub data TimeUnit : Type 0 where
  nanoseconds : TimeUnit
  microseconds : TimeUnit
  milliseconds : TimeUnit
  seconds : TimeUnit
  minutes : TimeUnit
  hours : TimeUnit

abbrev pub suffix : TimeUnit → Bytes
suffix nanoseconds = codes "ns"
suffix microseconds = codes "us"
suffix milliseconds = codes "ms"
suffix seconds = codes "s"
suffix minutes = codes "min"
suffix hours = codes "h"

mutual
  pub data Arg : Type 0 where
    text : Bytes → Arg
    -- an integer of 64 bits, or one of the `char` types
    integer : ℤ → Arg
    duration : TimeUnit → ℤ → Arg
    level : Level → Arg
    thread_id : ℕ → Arg
    -- an `ArrayView` of other elements than bytes
    view : Args → Arg
    memory : Bytes → Arg
    -- the manipulator `std::setw`
    width : ℕ → Arg

  pub data Args : Type 0 where
    no_args : Args
    and : Arg → Args → Args

-- `spaces` in `printOneLine`, whose literal has 149 characters.
abbrev pub spaces : ℕ → Bytes
spaces cnt = replicate (min cnt 149) b' '

unfoldable pub put_bytes : Bytes → Stream → Stream
put_bytes [] s = s
put_bytes (b ∷ mem) s = put_bytes mem (put_int (pos b) (setw 2 (put (codes " ") s)))

unfoldable pub print_one_line : Bytes → ℕ → Stream → Stream
unfolding put_bytes
print_one_line mem fillto s =
    let s = put_bytes mem (put (codes "[") s) in
    let s = if ltb (length mem) fillto then put (spaces ((fillto - length mem) * 3)) s else s in
    put (codes " ]") s

-- The loop over the lines; a line takes at least one byte, so that `length mem` is enough fuel.
unfoldable pub print_lines : ℕ → Bytes → Stream → Stream
unfolding print_one_line
print_lines fuel [] s = s
print_lines zero (b ∷ mem) s = s
print_lines (suc fuel) (b ∷ mem) s =
    let part = min 20 (length (b ∷ mem)) in
    print_lines fuel (drop part (b ∷ mem))
      (print_one_line (take part (b ∷ mem)) 20 (put (codes "\n\t") s))

unfoldable pub print_memory : Bytes → Stream → Stream
unfolding print_lines
print_memory mem s =
    with_saved_flags
      (λ s.
        let s = setfill b'0' (set_hex (set_left false s)) in
        if leb (length mem) 20
        then print_one_line mem 0 s
        else put (codes "\n") (print_lines (length mem) mem s))
      s

unfoldable pub print_thread_id : ℕ → Stream → Stream
print_thread_id id = with_saved_flags (λ s. put_int (pos id) (set_hex (put (codes "0x") s)))

unfoldable mutual
  unfolding put_int print_memory print_thread_id

  -- `formatForLog` of one argument.
  pub format_for_log : Arg → Stream → Stream
  format_for_log (text t) s = put t s
  format_for_log (integer n) s = put_int n s
  format_for_log (duration unit n) s = put (suffix unit) (put_int n s)
  format_for_log (level lvl) s = put (to_string_view lvl) (setw 6 (set_left true s))
  format_for_log (thread_id id) s = print_thread_id id s
  format_for_log (view elements) s = put (codes "]") (format_elements elements (put (codes "[") s))
  format_for_log (memory mem) s = print_memory mem s
  format_for_log (width n) s = setw n s

  -- The elements of a view, with a comma between them.
  pub format_elements : Args → Stream → Stream
  format_elements no_args s = s
  format_elements (and a rest) s = format_rest rest (format_for_log a s)

  pub format_rest : Args → Stream → Stream
  format_rest no_args s = s
  format_rest (and a rest) s = format_rest rest (format_for_log a (put (codes ", ") s))

-- `formatForLog` of several arguments.
unfoldable pub format_all : Args → Stream → Stream
unfolding format_for_log
format_all no_args s = s
format_all (and a rest) s = format_all rest (format_for_log a s)
