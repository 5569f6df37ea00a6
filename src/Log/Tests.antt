-- ===== src/Log/Tests.antt =====
-- Examples for the log.
use mart_common.Prelude.{ℕ, ◌%◌, ◌≤◌, ◌<◌, ◌≡◌, ◌↔◌, refl, true, false, [], ◌∷◌}
use mart_common.Prelude.Int.{pos, negsuc, ◌-ℤ◌}
use mart_common.Prelude.Threads.{update}
use mart_common.Text.{codes}
use mart_common.Text.Decimal
use mart_common.Time
use mart_common.Log.Levels.{Level, error, status, debug, trace}
use mart_common.Log.Streams.{Stream, put, put_int, setw, set_left, set_hex, setfill}
use mart_common.Log.Format.{
  Args, text, integer, memory, level, view, no_args, and, put_bytes, print_one_line, print_memory,
  format_for_log, format_elements, format_rest, format_all,
}
use mart_common.Log.Format.Prints.{Prints, format_all-Prints}
use mart_common.Log.Sinks.{LogSink}
use mart_common.Log.Logger.{Logger, Sinks, should_be_logged, fill_buffer, log}
use mart_common.Log.Logger.Delivery.{count, delivered, log_lem}
use mart_common.Log.Logger.Indent.{guarded, change, guarded_iff}

abbrev empty_stream : Stream
empty_stream = record {
  text = [];
  width = 0;
  flags = record { is_left = false; is_hex = false; fill = b' ' };
}

abbrev mixed : Args
mixed =
    and (view (and (integer (pos 7)) (and (level debug) no_args)))
      (and (memory (10 ∷ 255 ∷ [])) (and (integer (negsuc 4)) no_args))

mixed_text : (format_all mixed empty_stream).text ≡ codes "[7, DEBUG ][ 0a ff ]-5"
unfolding format_all format_for_log format_elements format_rest print_memory print_one_line
    put_bytes put_int put setw set_left set_hex setfill Decimal.to_string
mixed_text = refl

format_all-Prints_example : Prints empty_stream (format_all mixed empty_stream)
format_all-Prints_example = format_all-Prints mixed empty_stream

-- A logger with the sinks 4, 5 and 4 again.
abbrev logger : Logger
logger = record {
  start_time = pos 0;
  current_log_level = debug;
  enabled = true;
  sinks = 4 ∷ 5 ∷ 4 ∷ [];
  logging_name = codes "[nav]";
  spacer = 0;
}

-- Sink 5 takes errors only.
abbrev store : Sinks
store = update (λ a. file_sink trace) 5 (file_sink error)
  where
    file_sink : Level → LogSink
    file_sink lvl = record {
      name = codes "f";
      maxlvl = lvl;
      thread_safe = true;
      buffered = [];
      output = [];
    }

abbrev message : Args
message = and (text (codes "fix ")) (and (integer (pos 3)) no_args)

abbrev done : Stream × Sinks
done = log (pos 12_000_000) 1 logger status message (empty_stream, store)

log_lem_example :
    (should_be_logged status logger ≡ false → done ≡ (empty_stream, store))
    × (should_be_logged status logger ≡ true
        → let line = fill_buffer (pos 12_000_000) 1 logger status true message empty_stream in
          (done.0 ≡ record line { text = [] })
          × ((a : ℕ) → done.1 a ≡ delivered (count a (4 ∷ 5 ∷ 4 ∷ [])) line.text status (store a)))
log_lem_example = log_lem (pos 12_000_000) 1 logger status message (empty_stream, store)

line :
    (fill_buffer (pos 12_000_000) 1 logger status true message empty_stream).text
    ≡ codes "STATUS - At 12     ms - [nav]: fix 3\n"
unfolding fill_buffer format_all format_for_log put_int put setw set_left Decimal.to_string
    Time.passed_time ◌-ℤ◌
line = refl

guarded_iff_example :
    let m = change (true ∷ true ∷ false ∷ []) logger in
    (m.spacer % 2 ≡ 0)
    × (m.spacer ≤ 104)
    × (((guarded (λ l. l) m).spacer ≡ m.spacer) ↔ (m.spacer < 104))
    × (m.spacer ≡ 104 → (guarded (λ l. l) m).spacer ≡ 102)
guarded_iff_example = guarded_iff (true ∷ true ∷ false ∷ []) logger (λ l. l) refl (λ m. refl)
