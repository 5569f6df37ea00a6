-- ===== src/Log/Logger.antt =====
-- include/mart-common/logging/Logger.h. Sinks are shared between loggers: a logger has their
-- addresses, and `Sinks` is the store. The current time, in nanoseconds, and the id of the thread
-- are arguments.
pub mod Delivery
pub mod Indent
pub mod Default
use mart_common.Prelude.{
  ℕ, zero, suc, ◌+◌, ◌-◌, ◌≡◌, Bool, true, false, ◌&&◌, List, [], ◌∷◌, ◌++◌, Option, none, some,
  leb, ltb, if◌then◌else◌, replicate, ◌==◌,
}
use mart_common.Prelude.Int.{ℤ}
use mart_common.Prelude.Threads.{update}
use mart_common.Text.{Bytes, codes}
use mart_common.Time
use mart_common.Log.Levels.{Level, value, leb_level, default_log_level, error, status, debug, trace}
use mart_common.Log.Streams.{Stream, put, with_saved_flags}
use mart_common.Log.Format.{
  Arg, Args, text, level, width, duration, thread_id, milliseconds, no_args, and, format_all,
}
use mart_common.Log.Sinks.{LogSink, write_to_log}

pub record Logger : Type 0 where
  pub start_time : ℤ
  pub current_log_level : Level
  pub enabled : Bool
  pub sinks : List ℕ
  pub logging_name : Bytes
  -- the length of `_spacer`, a view of the first spaces of a literal of 105
  pub spacer : ℕ

abbrev pub Sinks : Type 0
Sinks = ℕ → LogSink

unfoldable pub create_logging_name : Bytes → Bytes → Bytes
create_logging_name module_name parent_name = parent_name ++ codes "[" ++ module_name ++ codes "]"

unfoldable pub make : ℤ → Bytes → Level → Logger
unfolding create_logging_name
make now module_name lvl = record {
  start_time = now;
  current_log_level = lvl;
  enabled = true;
  sinks = [];
  logging_name = create_logging_name module_name [];
  spacer = 0;
}

-- none is a null pointer.
unfoldable pub add_sink : Option ℕ → Logger → Logger
add_sink none l = l
add_sink (some sink) l = record l { sinks = l.sinks ++ sink ∷ [] }

unfoldable pub make_with_sink : ℤ → Bytes → Option ℕ → Level → Logger
unfolding make add_sink
make_with_sink now module_name sink lvl = add_sink sink (make now module_name lvl)

-- `Logger( subModuleName, other )`, which `make_child` calls.
unfoldable pub make_child : Bytes → Logger → Logger
unfolding create_logging_name
make_child sub_module_name other = record other {
  logging_name = create_logging_name sub_module_name other.logging_name;
}

unfoldable pub set_log_level : Level → Logger → Logger
set_log_level lvl l = record l { current_log_level = lvl }

unfoldable pub enable : Bool → Logger → Logger
enable b l = record l { enabled = b }

unfoldable pub disable : Logger → Logger
unfolding enable
disable l = enable false l

unfoldable pub set_name : Bytes → Logger → Logger
unfolding create_logging_name
set_name name l = record l { logging_name = create_logging_name name [] }

unfoldable pub clear_sinks : Logger → Logger
clear_sinks l = record l { sinks = [] }

unfoldable pub bump_indent_level : Logger → Logger
bump_indent_level l = if ltb l.spacer (105 - 2) then record l { spacer = l.spacer + 2 } else l

unfoldable pub remove_indent_level : Logger → Logger
remove_indent_level l = if leb 2 l.spacer then record l { spacer = l.spacer - 2 } else l

unfoldable pub should_be_logged : Level → Logger → Bool
should_be_logged lvl l = l.enabled && leb_level lvl l.current_log_level

-- What stands before a message.
abbrev pub line_prefix : ℤ → Level → Logger → Args
line_prefix now lvl l = and (level lvl) (
    and (text (codes " - At ")) (
      and (width 7) (
        and (duration milliseconds (Time.passed_time 1_000_000 now l.start_time)) (
          and (text (codes " - ")) (and (text l.logging_name) (and (text (codes ": ")) no_args))))))

abbrev pub is_trace : Level → Bool
is_trace lvl = value lvl == value trace

-- The thread and the spaces, in trace mode.
abbrev pub thread_prefix : ℕ → Logger → Args
thread_prefix thread l = and (text (codes "[ThreadID: ")) (
    and (thread_id thread)
      (and (text (codes "]: ")) (and (text (replicate l.spacer b' ')) no_args)))

unfoldable pub fill_buffer : ℤ → ℕ → Logger → Level → Bool → Args → Stream → Stream
unfolding format_all
fill_buffer now thread l lvl new_line args buffer =
    let buffer = format_all (line_prefix now lvl l) buffer in
    let buffer =
      if is_trace l.current_log_level
      then with_saved_flags (format_all (thread_prefix thread l)) buffer
      else buffer in
    let buffer = format_all args buffer in if new_line then put (codes "\n") buffer else buffer

abbrev pub write_all : Bytes → Level → List ℕ → Sinks → Sinks
write_all msg lvl [] w = w
write_all msg lvl (a ∷ sinks) w = write_all msg lvl sinks (update w a (write_to_log msg lvl (w a)))

-- The buffer of the thread is emptied; its flags stay.
unfoldable pub write_buffer_to_sinks : Level → Logger → Stream × Sinks → Stream × Sinks
write_buffer_to_sinks lvl l (buffer, w) =
    (record buffer { text = [] }, write_all buffer.text lvl l.sinks w)

unfoldable pub log_impl : ℤ → ℕ → Logger → Level → Args → Stream × Sinks → Stream × Sinks
unfolding fill_buffer write_buffer_to_sinks
log_impl now thread l lvl args (buffer, w) =
    write_buffer_to_sinks lvl l (fill_buffer now thread l lvl true args buffer, w)

unfoldable pub log : ℤ → ℕ → Logger → Level → Args → Stream × Sinks → Stream × Sinks
unfolding should_be_logged log_impl
log now thread l lvl args s = if should_be_logged lvl l then log_impl now thread l lvl args s else s

unfoldable pub error_msg : ℤ → ℕ → Logger → Args → Stream × Sinks → Stream × Sinks
unfolding log
error_msg now thread l args s = log now thread l error args s

unfoldable pub status_msg : ℤ → ℕ → Logger → Args → Stream × Sinks → Stream × Sinks
unfolding log
status_msg now thread l args s = log now thread l status args s

unfoldable pub debug_msg : ℤ → ℕ → Logger → Args → Stream × Sinks → Stream × Sinks
unfolding log
debug_msg now thread l args s = log now thread l debug args s

unfoldable pub trace_msg : ℤ → ℕ → Logger → Args → Stream × Sinks → Stream × Sinks
unfolding log
trace_msg now thread l args s = log now thread l trace args s
