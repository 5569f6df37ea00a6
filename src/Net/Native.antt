-- ===== src/Net/Native.antt =====
-- The socket calls of the operating system that src/mart-netlib/port_layer.cpp wraps, as the
-- parameter `System`, with the structures that they read and write. The values of the flags are
-- those of Linux.
use Prim.Native.Nat.{bit_and}
use mart_common.Prelude.{ℕ, min, ◌≤◌, ◌≡◌, ◌≢◌, Bool, true, false, Option, none, some, length}
use mart_common.Prelude.Int.{ℤ, pos, negsuc}
use mart_common.Text.{Bytes}

-- What a `sockaddr` can be, by its family: `sockaddr_in` with address and port in network order,
-- `sockaddr_in6` with the bytes of its address, `sockaddr_un` with its path up to the terminator.
pub data NativeAddr : Type 0 where
  in4 : ℕ → ℕ → NativeAddr
  in6 : Bytes → ℕ → NativeAddr
  un : Bytes → NativeAddr
  other : ℤ → NativeAddr

-- `sa_family`.
abbrev pub family : NativeAddr → ℤ
family (in4 address port) = pos 2
family (in6 address port) = pos 10
family (un path) = pos 1
family (other f) = f

-- `timeval`.
pub record Timeval : Type 0 where
  pub tv_sec : ℤ
  pub tv_usec : ℤ

-- Handles: no handle stands for `handle_t::Invalid`, which is -1.
abbrev pub Handle : Type 0
Handle = Option ℕ

abbrev pub fd : Handle → ℤ
fd none = negsuc 0
fd (some h) = pos h

abbrev pub msg_trunc : ℕ
msg_trunc = 32

-- Each call takes its arguments and the system; where a call returns a handle or a number of
-- bytes, none stands for -1. A call that fills a structure returns it with the length it sets.
-- `of_time` and `as_time` are the bytes of a `timeval` and the `timeval` of bytes.
pub record System (W : Type 0) : Type 0 where
  pub errno : W → ℤ
  pub of_time : Timeval → Bytes
  pub as_time : Bytes → Timeval
  pub is_open : W → ℕ → Bool
  pub socket_ : ℤ → ℤ → ℤ → W → Option ℕ × W
  pub close_ : ℤ → W → ℤ × W
  pub get_flags : ℤ → W → ℕ × W
  pub set_flags : ℤ → ℕ → W → ℤ × W
  pub setsockopt_ : ℤ → ℤ → ℤ → Bytes → W → ℤ × W
  pub getsockopt_ : ℤ → ℤ → ℤ → W → (ℤ × Bytes × ℕ) × W
  pub getsockname_ : ℤ → NativeAddr → ℕ → W → (ℤ × NativeAddr × ℕ) × W
  pub bind_ : ℤ → NativeAddr → ℕ → W → ℤ × W
  pub connect_ : ℤ → NativeAddr → ℕ → W → ℤ × W
  pub listen_ : ℤ → ℤ → W → ℤ × W
  pub accept_ : ℤ → NativeAddr → ℕ → W → (Option ℕ × NativeAddr × ℕ) × W
  pub accept_only_ : ℤ → W → Option ℕ × W
  pub send_ : ℤ → Bytes → ℕ → W → Option ℕ × W
  pub sendto_ : ℤ → Bytes → ℕ → NativeAddr → ℕ → W → Option ℕ × W
  pub recv_ : ℤ → ℕ → ℕ → W → (Option ℕ × Bytes) × W
  pub recvfrom_ : ℤ → ℕ → ℕ → NativeAddr → ℕ → W → (Option ℕ × Bytes × NativeAddr × ℕ) × W

-- What the system's manual says of handles: a new one was not open before, a close closes its
-- own and no other, and no other call opens or closes any.
module _ {W : Type 0} (Y : System W) where
  abbrev pub OpensNew : W → Option ℕ → W → Type 0
  OpensNew w none v = (k : ℕ) → Y.is_open v k ≡ Y.is_open w k
  OpensNew w (some h) v =
      (Y.is_open w h ≡ false)
      × (Y.is_open v h ≡ true)
      × ((k : ℕ) → k ≢ h → Y.is_open v k ≡ Y.is_open w k)

  pub record OpensAndCloses : Type 0 where
    pub socket_new : (w : W) (d t p : ℤ) → OpensNew w (Y.socket_ d t p w).0 (Y.socket_ d t p w).1
    pub accept_new : (w : W) (h : ℤ) → OpensNew w (Y.accept_only_ h w).0 (Y.accept_only_ h w).1
    pub close_own :
        (w : W) (h : ℕ)
        → (Y.is_open (Y.close_ (pos h) w).1 h ≡ false)
          × ((k : ℕ) → k ≢ h → Y.is_open (Y.close_ (pos h) w).1 k ≡ Y.is_open w k)
    pub close_invalid : (w : W) (k : ℕ) → Y.is_open (Y.close_ (negsuc 0) w).1 k ≡ Y.is_open w k
    pub get_flags_still : (w : W) (h : ℤ) (k : ℕ) → Y.is_open (Y.get_flags h w).1 k ≡ Y.is_open w k
    pub set_flags_still :
        (w : W) (h : ℤ) (n k : ℕ) → Y.is_open (Y.set_flags h n w).1 k ≡ Y.is_open w k
    pub bind_still :
        (w : W) (h : ℤ) (a : NativeAddr) (n k : ℕ) → Y.is_open (Y.bind_ h a n w).1 k ≡ Y.is_open w k
    pub connect_still :
        (w : W) (h : ℤ) (a : NativeAddr) (n k : ℕ)
        → Y.is_open (Y.connect_ h a n w).1 k ≡ Y.is_open w k

  -- What it says of transfers: none sends more than it is given, and a receive that reports a number
  -- of bytes has written so many, but no more than it was asked for. It reports more than that only
  -- with `MSG_TRUNC`, for which it reports the whole length of a datagram.
  pub record Transfers : Type 0 where
    pub send_le :
        (w : W) (h : ℤ) (data_ : Bytes) (flags n : ℕ)
        → (Y.send_ h data_ flags w).0 ≡ some n
        → n ≤ length data_
    pub recv_written :
        (w : W) (h : ℤ) (len flags n : ℕ)
        → (Y.recv_ h len flags w).0.0 ≡ some n
        → length (Y.recv_ h len flags w).0.1 ≡ min n len
    pub recv_le :
        (w : W) (h : ℤ) (len flags n : ℕ)
        → bit_and flags msg_trunc ≡ 0
        → (Y.recv_ h len flags w).0.0 ≡ some n
        → n ≤ len

  -- A `timeval` has 16 bytes, and they are all of it.
  pub record StoresTimes : Type 0 where
    pub as_time-of_time : (t : Timeval) → Y.as_time (Y.of_time t) ≡ t
    pub length-of_time : (t : Timeval) → length (Y.of_time t) ≡ 16
