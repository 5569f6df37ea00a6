-- ===== src/Log/Sinks.antt =====
-- include/mart-common/logging/ILogSink.h, with the sinks of Sinks.h: a sink writes to a stream that
-- holds back what it gets until it is flushed. A call of a sink takes its mutex, so that it is one
-- step; without the thread safe mode it does the same.
use mart_common.Prelude.{[], ◌++◌, Bool, true, if◌then◌else◌}
use mart_common.Text.{Bytes, codes}
use mart_common.Log.Levels.{Level, leb_level, trace, status}

pub record LogSink : Type 0 where
  pub name : Bytes
  pub maxlvl : Level
  pub thread_safe : Bool
  -- written and not flushed yet
  pub buffered : Bytes
  -- what has arrived
  pub output : Bytes

-- `FileLog`, on an empty file.
unfoldable pub file_log : Bytes → Level → LogSink
file_log name lvl = record {
  name = name;
  maxlvl = lvl;
  thread_safe = true;
  buffered = [];
  output = [];
}

-- The one `StdOutLog`.
unfoldable pub std_out_log : LogSink
unfolding file_log
std_out_log = file_log (codes "COUT") trace

-- `makeSink( const StdOutLogConfig_t& )`, on that one.
unfoldable pub configure : Level → LogSink → LogSink
configure lvl s = record s { maxlvl = lvl }

unfoldable pub enable_thread_safe_mode : Bool → LogSink → LogSink
enable_thread_safe_mode b s = record s { thread_safe = b }

abbrev pub write : Bytes → LogSink → LogSink
write msg s = record s { buffered = s.buffered ++ msg }

unfoldable pub flush : LogSink → LogSink
flush s = record s { buffered = []; output = s.output ++ s.buffered }

unfoldable pub write_to_log : Bytes → Level → LogSink → LogSink
unfolding flush
write_to_log msg lvl s =
    if leb_level lvl s.maxlvl
    then (if leb_level lvl status then flush (write msg s) else write msg s)
    else s

-- All that a sink has been given, in order.
abbrev pub received : LogSink → Bytes
received s = s.output ++ s.buffered
