-- ===== src/Log/Logger/Default.antt =====
-- The default logger of Logger.h: a static variable that the first call initialises, none before
-- that. What is printed on the way is left out. none as a result stands for undefined behaviour.
use mart_common.Prelude.{ℕ, List, [], ◌∷◌, Option, none, some, ◌>>=◌}
use mart_common.Prelude.Int.{ℤ}
use mart_common.Text.{Bytes}
use mart_common.Log.Levels.{Level, default_log_level}
use mart_common.Log.Logger.{Logger, make, add_sink}

pub record LoggerConf : Type 0 where
  pub module_name : Bytes
  pub log_lvl : Level

abbrev pub default_conf : LoggerConf
default_conf = record { module_name = []; log_lvl = default_log_level }

unfoldable pub init_default_logger : ℤ → LoggerConf → Option Logger → Logger
init_default_logger now conf none = make now conf.module_name conf.log_lvl
init_default_logger now conf (some instance_) = instance_

-- What `std::move` leaves of a shared pointer.
abbrev pub moved_from : Option ℕ → Option ℕ
moved_from sink = none

-- `sink->getName()` is called on what is left of `sink` after it has been moved from.
unfoldable pub init_default_logger_with : ℤ → LoggerConf → Option ℕ → Option Logger → Option Logger
unfolding init_default_logger
init_default_logger_with now conf sink s = do
  let lref = add_sink sink (init_default_logger now conf s)
  named ← moved_from sink
  some lref

-- With several sinks: a null pointer among them is not added, and then its name is asked for.
unfoldable pub add_sinks : List (Option ℕ) → Logger → Option Logger
add_sinks [] l = some l
add_sinks (none ∷ sinks) l = none
add_sinks (some sink ∷ sinks) l = add_sinks sinks (add_sink (some sink) l)

unfoldable pub init_default_logger_sinks :
    ℤ → LoggerConf → List (Option ℕ) → Option Logger → Option Logger
unfolding init_default_logger add_sinks
init_default_logger_sinks now conf sinks s = add_sinks sinks (init_default_logger now conf s)

unfoldable pub get_default_logger : ℤ → Option Logger → Logger
unfolding init_default_logger
get_default_logger now s = init_default_logger now default_conf s
