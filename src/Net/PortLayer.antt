-- ===== src/Net/PortLayer.antt =====
-- The wrappers of src/mart-netlib/port_layer.cpp around the calls of the system, in the version
-- for Linux.
use Prim.Native.Nat.{bit_and, bit_or}
use mart_common.Prelude.{
  ℕ, ◌-◌, ◌%◌, ◌^◌, Bool, false, Option, none, some, if◌then◌else◌, ◌==◌, take, length,
}
use mart_common.Prelude.Int.{ℤ, pos, negsuc, ◌==ℤ◌, int_of}
use mart_common.Text.{Bytes}
use mart_common.Net.Results.{ErrorCode, ok, invalid_argument, ReturnValue, success, failure}
use mart_common.Net.Enums.{
  Domain, TransportType, Protocol, SocketOption, native_domain, native_transport_type,
  native_protocol, native_option,
}
use mart_common.Net.Native.{NativeAddr, in4, Handle, fd, System}

-- `Sockaddr`: what its storage holds, and the size of the range that is valid.
pub record Sockaddr : Type 0 where
  pub domain : Domain
  pub native : NativeAddr
  pub size : ℕ

unfoldable pub set_valid_data_range : Sockaddr → NativeAddr → ℕ → Sockaddr
set_valid_data_range a filled s = record { domain = a.domain; native = filled; size = s }

-- `to_native_addr_len` and `to_native_buf_len`: both end in 32 bits.
unfoldable pub native_len : ℕ → ℕ
native_len size = size % 2 ^ 32

-- `O_NONBLOCK`, its complement in 32 bits, and `MSG_NOSIGNAL`.
abbrev pub o_nonblock : ℕ
o_nonblock = 2048

abbrev pub not_nonblock : ℕ
not_nonblock = 2 ^ 32 - 1 - 2048

abbrev pub msg_nosignal : ℕ
msg_nosignal = 16384

-- The flags that `set_blocking` sets.
unfoldable pub blocking_flags : Bool → ℕ → ℕ
blocking_flags should_block flags =
    if should_block then bit_and flags not_nonblock else bit_or flags o_nonblock

-- `is_invalid_destination_address`.
unfoldable pub is_invalid_destination_address : Sockaddr → Bool
is_invalid_destination_address to = elim (to.native) [ in4 a p ↦ a == 0 | _ ↦ false ]

module _ {W : Type 0} (Y : System W) where
  abbrev pub get_last_socket_error : W → ErrorCode
  get_last_socket_error w = record { value = Y.errno w }

  unfoldable pub get_appropriate_error_code : ℤ × W → ErrorCode × W
  get_appropriate_error_code r =
      if r.0 ==ℤ pos 0 then (ok, r.1) else (get_last_socket_error r.1, r.1)

  -- `make_return_value( handle_t::Invalid, … )` and `make_return_value( txrx_size_t{ -1 }, … )`,
  -- whose argument is narrowed to an `int` first.
  unfoldable pub make_handle : Option ℕ → W → ReturnValue ℕ
  make_handle none w = failure (get_last_socket_error w)
  make_handle (some h) w = success h

  unfoldable pub make_size : Option ℕ → W → ReturnValue ℤ
  make_size none w = failure (get_last_socket_error w)
  make_size (some n) w =
      if int_of n ==ℤ negsuc 0 then failure (get_last_socket_error w) else success (int_of n)

  unfoldable pub set_blocking : Handle → Bool → W → ErrorCode × W
  unfolding get_appropriate_error_code blocking_flags
  set_blocking h should_block w =
      let (flags, w') = Y.get_flags (fd h) w in
      get_appropriate_error_code (Y.set_flags (fd h) (blocking_flags should_block flags) w')

  unfoldable pub socket : Domain → TransportType → Protocol → W → ReturnValue ℕ × W
  unfolding make_handle native_domain native_transport_type native_protocol
  socket domain transport_type protocol w =
      let (r, w') =
        Y.socket_ (native_domain domain) (native_transport_type transport_type)
          (native_protocol protocol) w in
      (make_handle r w', w')

  unfoldable pub close_socket : Handle → W → ErrorCode × W
  unfolding get_appropriate_error_code
  close_socket h w = get_appropriate_error_code (Y.close_ (fd h) w)

  unfoldable pub setsockopt : Handle → SocketOption → Bytes → W → ErrorCode × W
  unfolding get_appropriate_error_code native_option
  setsockopt h optname d w =
      get_appropriate_error_code (Y.setsockopt_ (fd h) (pos 1) (native_option optname) d w)

  -- With the data and the length that `data` has after the call.
  unfoldable pub getsockopt : Handle → SocketOption → W → (ErrorCode × Bytes × ℕ) × W
  unfolding get_appropriate_error_code native_option
  getsockopt h optname w =
      let (r, w') = Y.getsockopt_ (fd h) (pos 1) (native_option optname) w in
      (((get_appropriate_error_code (r.0, w')).0, r.1, r.2), w')

  unfoldable pub getsockname : Handle → Sockaddr → W → (ErrorCode × Sockaddr) × W
  unfolding get_appropriate_error_code set_valid_data_range native_len
  getsockname h addr w =
      let (r, w') = Y.getsockname_ (fd h) addr.native (native_len addr.size) w in
      (((get_appropriate_error_code (r.0, w')).0, set_valid_data_range addr r.1 r.2), w')

  unfoldable pub bind : Handle → Sockaddr → W → ErrorCode × W
  unfolding get_appropriate_error_code native_len
  bind h addr w = get_appropriate_error_code (Y.bind_ (fd h) addr.native (native_len addr.size) w)

  unfoldable pub connect : Handle → Sockaddr → W → ErrorCode × W
  unfolding get_appropriate_error_code native_len
  connect h addr w =
      get_appropriate_error_code (Y.connect_ (fd h) addr.native (native_len addr.size) w)

  unfoldable pub listen : Handle → ℤ → W → ErrorCode × W
  unfolding get_appropriate_error_code
  listen h backlog w = get_appropriate_error_code (Y.listen_ (fd h) backlog w)

  unfoldable pub accept : Handle → Sockaddr → W → (ReturnValue ℕ × Sockaddr) × W
  unfolding make_handle set_valid_data_range native_len
  accept h addr w =
      let (r, w') = Y.accept_ (fd h) addr.native (native_len addr.size) w in
      ((make_handle r.0 w', set_valid_data_range addr r.1 r.2), w')

  unfoldable pub accept_only : Handle → W → ReturnValue ℕ × W
  unfolding make_handle
  accept_only h w = let (r, w') = Y.accept_only_ (fd h) w in (make_handle r w', w')

  unfoldable pub send : Handle → Bytes → ℕ → W → ReturnValue ℤ × W
  unfolding make_size native_len
  send h buf flags w =
      let (r, w') =
        Y.send_ (fd h) (take (native_len (length buf)) buf) (bit_or flags msg_nosignal) w in
      (make_size r w', w')

  unfoldable pub sendto : Handle → Bytes → ℕ → Sockaddr → W → ReturnValue ℤ × W
  unfolding make_size is_invalid_destination_address native_len
  sendto h buf flags to w =
      let (r, w') =
        Y.sendto_ (fd h) (take (native_len (length buf)) buf) flags to.native (native_len to.size)
          w in
      if is_invalid_destination_address to
      then (failure invalid_argument, w)
      else (make_size r w', w')

  -- With the bytes that the call has written to the start of the buffer.
  unfoldable pub recv : Handle → ℕ → ℕ → W → (ReturnValue ℤ × Bytes) × W
  unfolding make_size native_len
  recv h size flags w =
      let (r, w') = Y.recv_ (fd h) (native_len size) flags w in ((make_size r.0 w', r.1), w')

  unfoldable pub recvfrom : Handle → ℕ → ℕ → Sockaddr → W → (ReturnValue ℤ × Bytes × Sockaddr) × W
  unfolding make_size native_len set_valid_data_range
  recvfrom h size flags from w =
      let (r, w') =
        Y.recvfrom_ (fd h) (native_len size) flags from.native (native_len from.size) w in
      ((make_size r.0 w', r.1, set_valid_data_range from r.2 r.3), w')
