-- ===== src/Net/Timeouts/RoundTrip.antt =====
-- A timeout that is set and read again.
use mart_common.Prelude.{ℕ, ◌*◌, ◌-◌, ◌/◌, ◌<◌, ◌≡◌, refl, ap, arith}
use mart_common.Prelude.Int.{ℤ, pos, negsuc, ◌+ℤ◌, ◌*ℤ◌}
use mart_common.Net.Results.{success}
use mart_common.Net.Enums.{Direction, tx, rx, timeout_option, native_option}
use mart_common.Net.Native.{Handle, fd, System, StoresTimes}
use mart_common.Net.PortLayer.{get_appropriate_error_code, setsockopt, getsockopt}
use mart_common.Net.Socket.System.{code-still}
use mart_common.Net.Timeouts.{to_timeval, from_timeval, set_timeout, get_timeout}

-- No negative time.
abbrev pub at_least_zero : ℤ → ℤ
at_least_zero (pos d) = pos d
at_least_zero (negsuc d) = pos 0

from_timeval-to_timeval : (d : ℤ) → from_timeval (to_timeval d) ≡ at_least_zero d
unfolding from_timeval to_timeval ◌+ℤ◌ ◌*ℤ◌
from_timeval-to_timeval d = ground arith

-- `SO_RCVTIMEO` and `SO_SNDTIMEO`.
abbrev pub option_number : Direction → ℤ
option_number rx = pos 20
option_number tx = pos 21

number_lem :
    (direction : Direction) → native_option (timeout_option direction) ≡ option_number direction
unfolding native_option timeout_option
number_lem rx = refl
number_lem tx = refl

small :
    (d : ℤ)
    → (s : ℕ) × (u : ℕ) × ((to_timeval d).tv_sec ≡ pos s)
      × ((to_timeval d).tv_usec ≡ pos u)
      × (u < 1_000_000)
unfolding to_timeval
small (pos d) = (d / 1_000_000, d - d / 1_000_000 * 1_000_000, refl, refl, omega arith)
small (negsuc d) = (0, 0, refl, refl, omega arith)

module _ {W : Type 0} (Y : System W) (K : StoresTimes Y) where
  read_back :
      (h : Handle) (direction : Direction) (v : W) (r : ℤ)
      → (Y.getsockopt_ (fd h) (pos 1) (option_number direction) v).0
        ≡ (pos 0, Y.of_time (to_timeval r), 16)
      → (get_timeout Y h direction v).0 ≡ success (at_least_zero r)
  unfolding get_timeout getsockopt get_appropriate_error_code
  read_back h direction v r e =
      rw
        (
          number_lem direction,
          ap (λ t. t.0) e,
          ap (λ t. t.1) e,
          ap (λ t. t.2) e,
          K.as_time-of_time (to_timeval r),
        )
        (ap success (from_timeval-to_timeval r))

  -- `set_timeout` makes one call of the system, on the handle, with the option of the direction and
  -- with the seconds and the rest of the time, fewer than a million microseconds; a negative time
  -- is set as 0. A system may round what it is given: whatever time `r` it then answers with is
  -- the time that `get_timeout` returns, so that a time it keeps is read back as it was set.
  pub get_timeout-set_timeout :
      (h : Handle) (direction : Direction) (d r : ℤ) (w : W)
      → let t = to_timeval d in
        let call = Y.setsockopt_ (fd h) (pos 1) (option_number direction) (Y.of_time t) w in
        (set_timeout Y h direction d w ≡ get_appropriate_error_code Y call)
        × (from_timeval t ≡ at_least_zero d)
        × ((s : ℕ) × (u : ℕ) × (t.tv_sec ≡ pos s) × (t.tv_usec ≡ pos u) × (u < 1_000_000))
        × ((Y.getsockopt_ (fd h) (pos 1) (option_number direction) call.1).0
              ≡ (pos 0, Y.of_time (to_timeval r), 16)
            → (get_timeout Y h direction (set_timeout Y h direction d w).1).0
              ≡ success (at_least_zero r))
  unfolding set_timeout setsockopt
  get_timeout-set_timeout h direction d r w = (
    rw (number_lem direction) refl,
    from_timeval-to_timeval d,
    small d,
    λ e. rw (number_lem direction) (
        read_back h direction _ r (
          rw
            (code-still Y
              (Y.setsockopt_ (fd h) (pos 1) (option_number direction) (Y.of_time (to_timeval d)) w))
            e)),
  )
