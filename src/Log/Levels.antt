-- ===== src/Log/Levels.antt =====
-- include/mart-common/logging/types.h, with the numbers of MartLogFWD.h.
use mart_common.Prelude.{ℕ, Bool, leb}
use mart_common.Text.{Bytes, codes}

pub data Level : Type 0 where
  error : Level
  status : Level
  debug : Level
  trace : Level

abbrev pub value : Level → ℕ
value error = 0
value status = 1
value debug = 2
value trace = 3

-- `a <= b` on levels.
abbrev pub leb_level : Level → Level → Bool
leb_level a b = leb (value a) (value b)

abbrev pub default_log_level : Level
default_log_level = status

abbrev pub to_string_view : Level → Bytes
to_string_view error = codes "ERROR"
to_string_view status = codes "STATUS"
to_string_view debug = codes "DEBUG"
to_string_view trace = codes "TRACE"
