-- ===== src/Net/Results.antt =====
-- The results of calls in include/mart-netlib/basic_types.hpp. The numbers of the errors are those
-- of Linux.
use mart_common.Prelude.{Bool}
use mart_common.Prelude.Int.{ℤ, pos, ◌==ℤ◌}

-- `ErrorCode`, by its raw value.
pub record ErrorCode : Type 0 where
  pub value : ℤ

-- `ErrorCodeValues`.
abbrev pub ok : ErrorCode
ok = record { value = pos 0 }

abbrev pub try_again : ErrorCode
try_again = record { value = pos 11 }

abbrev pub would_block : ErrorCode
would_block = record { value = pos 11 }

abbrev pub invalid_argument : ErrorCode
invalid_argument = record { value = pos 22 }

abbrev pub timeout : ErrorCode
timeout = record { value = pos 10060 }

abbrev pub wsae_conn_reset : ErrorCode
wsae_conn_reset = record { value = pos 10054 }

abbrev pub is_ok : ErrorCode → Bool
is_ok e = e.value ==ℤ pos 0

abbrev pub same : ErrorCode → ErrorCode → Bool
same e c = e.value ==ℤ c.value

-- `ReturnValue<T>`: the union and its flag.
pub data ReturnValue {ℓ} (A : Type ℓ) : Type ℓ where
  success : A → ReturnValue A
  failure : ErrorCode → ReturnValue A

module _ {ℓ} {A : Type ℓ} where
  unfoldable pub value_or : ReturnValue A → A → A
  value_or (success a) default_value = a
  value_or (failure e) default_value = default_value

  unfoldable pub error_code : ReturnValue A → ErrorCode
  error_code (success a) = ok
  error_code (failure e) = e

  abbrev pub succeeded : ReturnValue A → Bool
  succeeded (success a) = Bool.true
  succeeded (failure e) = Bool.false
