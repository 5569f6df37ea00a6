-- ===== src/Log/Format/Prints.antt =====
-- What printing for the log does to a stream.
use mart_common.Prelude.{
  ℕ, zero, suc, ◌-◌, ◌*◌, ◌≤◌, ◌≡◌, ◌∙◌, ap, refl, sym, Bool, true, false, [], ◌∷◌, ◌++◌, leb, ltb,
  min, if◌then◌else◌, length, length-drop, take, drop, append_assoc, append-nil, arith,
}
use mart_common.Prelude.Int.{ℤ, pos}
use mart_common.Text.{Bytes, codes}
use mart_common.Log.Levels.{Level, to_string_view}
use mart_common.Log.Streams.{Stream, put, put_int, setw, set_left, set_hex, setfill}
use mart_common.Log.Format.{
  Arg, Args, text, integer, duration, level, thread_id, view, memory, width, no_args, and, suffix,
  spaces, put_bytes, print_one_line, print_lines, print_memory, print_thread_id, format_for_log,
  format_elements, format_rest, format_all,
}

-- The text gets longer at its end; the base and the fill are what they were.
pub record Prints (s s' : Stream) : Type 0 where
  pub more : Bytes
  pub extends : s'.text ≡ s.text ++ more
  pub same_base : s'.flags.is_hex ≡ s.flags.is_hex
  pub same_fill : s'.flags.fill ≡ s.flags.fill

refl-Prints : (s : Stream) → Prints s s
refl-Prints s = record {
  more = [];
  extends = sym (append-nil s.text);
  same_base = refl;
  same_fill = refl;
}

trans-Prints : {a b c : Stream} → Prints a b → Prints b c → Prints a c
trans-Prints {a} {b} {c} p q = record {
  more = p.more ++ q.more;
  extends = q.extends ∙ ap (λ t. t ++ q.more) p.extends ∙ append_assoc a.text p.more q.more;
  same_base = q.same_base ∙ p.same_base;
  same_fill = q.same_fill ∙ p.same_fill;
}

put-Prints : (item : Bytes) (s : Stream) → Prints s (put item s)
unfolding put
put-Prints item s = record { more = _; extends = refl; same_base = refl; same_fill = refl }

put_int-Prints : (n : ℤ) (s : Stream) → Prints s (put_int n s)
unfolding put_int
put_int-Prints n s = put-Prints _ s

-- Inside `ostream_flag_saver`, whatever is done to the flags.
saved-Prints :
    (s s' : Stream) (more : Bytes)
    → s'.text ≡ s.text ++ more
    → Prints s (record s' { flags = s.flags })
saved-Prints s s' more h = record { more = more; extends = h; same_base = refl; same_fill = refl }

setw-Prints : (n : ℕ) (s : Stream) → Prints s (setw n s)
unfolding setw
setw-Prints n s = record {
  more = [];
  extends = sym (append-nil s.text);
  same_base = refl;
  same_fill = refl;
}

put_bytes-Prints : (mem : Bytes) (s : Stream) → Prints s (put_bytes mem s)
unfolding put_bytes
put_bytes-Prints [] s = refl-Prints s
put_bytes-Prints (b ∷ mem) s = trans-Prints (put-Prints (codes " ") s) (
    trans-Prints (setw-Prints 2 _)
      (trans-Prints (put_int-Prints (pos b) _) (put_bytes-Prints mem _)))

print_one_line-Prints :
    (mem : Bytes) (fillto : ℕ) (s : Stream) → Prints s (print_one_line mem fillto s)
unfolding print_one_line
print_one_line-Prints mem fillto s =
    trans-Prints (trans-Prints (put-Prints (codes "[") s) (put_bytes-Prints mem _)) (
      trans-Prints (filled (ltb (length mem) fillto) (put_bytes mem (put (codes "[") s)))
        (put-Prints (codes " ]") _))
  where
    filled :
        (b : Bool) (s : Stream)
        → Prints s (if b then put (spaces ((fillto - length mem) * 3)) s else s)
    filled true s = put-Prints _ s
    filled false s = refl-Prints s

print_lines-Prints : (fuel : ℕ) (mem : Bytes) (s : Stream) → Prints s (print_lines fuel mem s)
unfolding print_lines
print_lines-Prints fuel [] s = refl-Prints s
print_lines-Prints zero (b ∷ mem) s = refl-Prints s
print_lines-Prints (suc fuel) (b ∷ mem) s = trans-Prints (put-Prints (codes "\n\t") s) (
    trans-Prints (print_one_line-Prints (take (min 20 (length (b ∷ mem))) (b ∷ mem)) 20 _)
      (print_lines-Prints fuel (drop (min 20 (length (b ∷ mem))) (b ∷ mem)) _))

print_memory-Prints : (mem : Bytes) (s : Stream) → Prints s (print_memory mem s)
unfolding print_memory setfill set_hex set_left
print_memory-Prints mem s =
    let p = either (leb (length mem) 20) in saved-Prints s out p.more p.extends
  where
    s0 : Stream
    s0 = setfill b'0' (set_hex (set_left false s))

    out : Stream
    out =
        if leb (length mem) 20
        then print_one_line mem 0 s0
        else put (codes "\n") (print_lines (length mem) mem s0)

    either :
        (b : Bool)
        → Prints s0 (
            if b
            then print_one_line mem 0 s0
            else put (codes "\n") (print_lines (length mem) mem s0))
    either true = print_one_line-Prints mem 0 s0
    either false = trans-Prints (print_lines-Prints _ mem s0) (put-Prints (codes "\n") _)

print_thread_id-Prints : (id : ℕ) (s : Stream) → Prints s (print_thread_id id s)
unfolding print_thread_id set_hex
print_thread_id-Prints id s =
    let p = put-Prints (codes "0x") s in
    let q = put_int-Prints (pos id) (set_hex (put (codes "0x") s)) in
    saved-Prints s (put_int (pos id) (set_hex (put (codes "0x") s))) (p.more ++ q.more)
      (q.extends ∙ ap (λ t. t ++ q.more) p.extends ∙ append_assoc s.text p.more q.more)

level-Prints :
    (lvl : Level) (s : Stream) → Prints s (put (to_string_view lvl) (setw 6 (set_left true s)))
unfolding setw set_left put
level-Prints lvl s = record { more = _; extends = refl; same_base = refl; same_fill = refl }

mutual
  unfolding format_for_log format_elements format_rest

  format_for_log-Prints : (a : Arg) (s : Stream) → Prints s (format_for_log a s)
  format_for_log-Prints (text t) s = put-Prints t s
  format_for_log-Prints (integer n) s = put_int-Prints n s
  format_for_log-Prints (duration unit n) s =
      trans-Prints (put_int-Prints n s) (put-Prints (suffix unit) _)
  format_for_log-Prints (level lvl) s = level-Prints lvl s
  format_for_log-Prints (thread_id id) s = print_thread_id-Prints id s
  format_for_log-Prints (view elements) s =
      trans-Prints (put-Prints (codes "[") s)
        (trans-Prints (format_elements-Prints elements _) (put-Prints (codes "]") _))
  format_for_log-Prints (memory mem) s = print_memory-Prints mem s
  format_for_log-Prints (width n) s = setw-Prints n s

  format_elements-Prints : (args : Args) (s : Stream) → Prints s (format_elements args s)
  format_elements-Prints no_args s = refl-Prints s
  format_elements-Prints (and a rest) s =
      trans-Prints (format_for_log-Prints a s) (format_rest-Prints rest _)

  format_rest-Prints : (args : Args) (s : Stream) → Prints s (format_rest args s)
  format_rest-Prints no_args s = refl-Prints s
  format_rest-Prints (and a rest) s =
      trans-Prints (put-Prints (codes ", ") s)
        (trans-Prints (format_for_log-Prints a _) (format_rest-Prints rest _))

-- Whatever arguments are printed, views of views and bytes in lines included, the text of the stream
-- gets longer at its end and nothing else, and the base and the fill character are what they were,
-- though bytes and threads are printed in base 16 with zeros.
pub format_all-Prints : (args : Args) (s : Stream) → Prints s (format_all args s)
unfolding format_all
format_all-Prints no_args s = refl-Prints s
format_all-Prints (and a rest) s =
    trans-Prints (format_for_log-Prints a s) (format_all-Prints rest _)

-- More fuel than the length prints the same lines.
pub print_lines_enough :
    (fuel : ℕ) (mem : Bytes) (s : Stream)
    → length mem ≤ fuel
    → print_lines (suc fuel) mem s ≡ print_lines fuel mem s
unfolding print_lines
print_lines_enough fuel [] s h = refl
print_lines_enough zero (b ∷ mem) s h = absurd (ground (arith, h))
print_lines_enough (suc fuel) (b ∷ mem) s h =
    print_lines_enough fuel (drop (min 20 (length (b ∷ mem))) (b ∷ mem)) _
      (omega (arith, length-drop (min 20 (length (b ∷ mem))) (b ∷ mem), h))
