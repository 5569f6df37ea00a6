-- ===== src/Net/Timeouts.antt =====
-- The timeouts of sockets in src/mart-netlib/port_layer.cpp, in the version for Linux, and the
-- members of include/mart-netlib/RaiiSocket.hpp that call them. Times are in microseconds.
pub mod RoundTrip
use mart_common.Prelude.{ℕ, ◌*◌, ◌-◌, ◌/◌, Bool, true, false, ◌&&◌, not, ◌==◌, if◌then◌else◌}
use mart_common.Prelude.Int.{ℤ, pos, negsuc, ◌+ℤ◌, ◌*ℤ◌, ◌==ℤ◌}
use mart_common.Net.Results.{ErrorCode, is_ok, ReturnValue, success, failure, value_or}
use mart_common.Net.Enums.{Direction, timeout_option}
use mart_common.Net.Native.{Timeval, Handle, System}
use mart_common.Net.PortLayer.{setsockopt, getsockopt}

unfoldable pub to_timeval : ℤ → Timeval
to_timeval (pos d) = record {
  tv_sec = pos (d / 1_000_000);
  tv_usec = pos (d - d / 1_000_000 * 1_000_000);
}
to_timeval (negsuc d) = record { tv_sec = pos 0; tv_usec = pos 0 }

unfoldable pub from_timeval : Timeval → ℤ
from_timeval duration = duration.tv_sec *ℤ pos 1_000_000 +ℤ duration.tv_usec

module _ {W : Type 0} (Y : System W) where
  unfoldable pub set_timeout : Handle → Direction → ℤ → W → ErrorCode × W
  unfolding to_timeval timeout_option setsockopt
  set_timeout h direction timeout w =
      setsockopt Y h (timeout_option direction) (Y.of_time (to_timeval timeout)) w

  unfoldable pub get_timeout : Handle → Direction → W → ReturnValue ℤ × W
  unfolding from_timeval timeout_option getsockopt
  get_timeout h direction w =
      let (r, w') = getsockopt Y h (timeout_option direction) w in
      if is_ok r.0 && r.2 == 16
      then (success (from_timeval (Y.as_time r.1)), w')
      else (failure r.0, w')

  -- `set_tx_timeout` and `set_rx_timeout`, by the direction.
  unfoldable pub try_set_timeout : Handle → Direction → ℤ → W → Bool × W
  unfolding set_timeout
  try_set_timeout h direction timeout w =
      let (e, w') = set_timeout h direction timeout w in (is_ok e, w')

  -- `invalid_timeout_v`.
  abbrev pub invalid_timeout : ℤ
  invalid_timeout = negsuc 0

  -- `get_tx_timeout` and `get_rx_timeout`.
  unfoldable pub try_get_timeout : Handle → Direction → W → ℤ × W
  unfolding get_timeout value_or
  try_get_timeout h direction w =
      let (r, w') = get_timeout h direction w in (value_or r invalid_timeout, w')
