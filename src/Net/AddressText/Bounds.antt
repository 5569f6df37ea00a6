-- ===== src/Net/AddressText/Bounds.antt =====
-- The buffers are large enough.
use mart_common.Prelude.{ℕ, ◌≤◌, ◌<◌, ◌≡◌, Option, some, length}
use mart_common.Text.{Bytes}
use mart_common.Text.Decimal
use mart_common.Net.Native.{NativeAddr, in4}

-- What `inet_ntop` promises: its text and the terminator fit in the buffer, and a text of IPv4 has
-- at most as many bytes as INET_ADDRSTRLEN leaves.
pub record Fits (inet_ntop : NativeAddr → ℕ → Option Bytes) : Type 0 where
  pub within : (a : NativeAddr) (size : ℕ) (s : Bytes) → inet_ntop a size ≡ some s → length s < size
  pub short4 : (a p size : ℕ) (s : Bytes) → inet_ntop (in4 a p) size ≡ some s → length s ≤ 15
