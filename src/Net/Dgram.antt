-- ===== src/Net/Dgram.antt =====
-- Datagram sockets: `DgramSocketBase` and `DgramSocket` of
-- include/mart-netlib/detail/socket_base.hpp, src/mart-netlib/detail/socket_base.cpp and
-- src/mart-netlib/detail/dgram_socket_base_impl.hpp, for any type of endpoints.
pub mod Receive
pub mod Throwing
pub mod Errors
pub mod Drain
pub mod Construct
mod Tests
use mart_common.Prelude.{
  ℕ, zero, suc, Bool, true, false, ◌&&◌, ◌||◌, not, List, [], ◌∷◌, Option, none, some, ◌==◌,
  if◌then◌else◌,
}
use mart_common.Prelude.Int.{ℤ, pos, negsuc, int_of, size_of, ltb_ℤ, ◌==ℤ◌}
use mart_common.Text.{Bytes, codes}
use mart_common.Containers.ArrayView.{ArrayView, null}
use mart_common.Net.Results.{
  ErrorCode, is_ok, same, would_block, try_again, timeout, wsae_conn_reset, ReturnValue, success,
  failure, succeeded, error_code,
}
use mart_common.Net.Enums.{Domain, datagram, default_protocol}
use mart_common.Net.Native.{System, Handle}
use mart_common.Net.PortLayer
use mart_common.Net.PortLayer.{Sockaddr}
use mart_common.Net.Socket
use mart_common.Net.Socket.{Process}
use mart_common.Net.Socket.System.{port_layer}
use mart_common.Net.Transfer
use mart_common.Net.Transfer.{Memory, SendResult, RecvResult}
use mart_common.Net.Throws.{
  Exception, generic_nw_error, narrowing_error, Outcome, ok, thrown, aborted, Action, ⊤, ◌>>=◌,
  ◌>>◌, pure, throw, abort, call, throw_unless, assert, make_error_message,
}
use mart_common.Net.HighLevel
use mart_common.Net.HighLevel.{
  SocketObject, Run, layer, alone, on_socket, on_system, last_error, is_valid, is_blocking,
  try_set_blocking, put_local, put_remote,
}

-- What the template takes from its type of endpoints.
pub record EndpointType (E : Type 0) : Type 0 where
  pub domain : Domain
  pub default_ : E
  pub valid : E → Bool
  pub to_sock_addr : E → Sockaddr
  pub abi_default : Sockaddr
  pub of_sock_addr : Sockaddr → E
  pub to_string : E → Bytes
  pub to_string_ex : E → Bytes

-- `mart::narrow<txrx_size_t>` of a `size_t`; none is `narrowing_error`.
unfoldable pub narrow_size : ℕ → Option ℤ
narrow_size u =
    let t = int_of u in if ltb_ℤ t (pos 0) then none else if size_of t == u then some t else none

-- `_txWasSuccess`.
unfoldable pub tx_was_success : ArrayView → SendResult → Option Bool
unfolding narrow_size
tx_was_success data_ ret = elim (ret.result) [
  | success n ↦ elim (narrow_size data_.size) [ none ↦ none | some size ↦ some (size ==ℤ n) ]
  | failure e ↦ some false
]

-- Errors that a receive does not report: `is_none_of` tests for these.
unfoldable pub is_no_data : ErrorCode → Bool
is_no_data e = same e would_block || same e try_again || same e timeout || same e wsae_conn_reset

-- What RaiiSocket returns, with `std::terminate`.
abbrev pub or_abort : {S A : Type 0} → Option A → Action S A
or_abort none = abort
or_abort (some a) = pure a

module _ {W : Type 0} (Y : System W) {E : Type 0} where
  unfoldable pub raii_send : ArrayView → Action (Run W E) SendResult
  unfolding Transfer.send
  raii_send data_ s =
      let (r, w) = Transfer.send Y s.memory s.object.sock.handle data_ 0 s.system in
      or_abort r (record s { system = w })

  unfoldable pub raii_sendto : ArrayView → Sockaddr → Action (Run W E) SendResult
  unfolding Transfer.sendto
  raii_sendto data_ addr s =
      let (r, w) = Transfer.sendto Y s.memory s.object.sock.handle data_ 0 addr s.system in
      or_abort r (record s { system = w })

  unfoldable pub raii_recv : ArrayView → Action (Run W E) RecvResult
  unfolding Transfer.recv
  raii_recv buffer s =
      let (r, m, w) = Transfer.recv Y s.memory s.object.sock.handle buffer 0 s.system in
      or_abort r (record s { memory = m; system = w })

  unfoldable pub raii_recvfrom : ArrayView → Sockaddr → Action (Run W E) (RecvResult × Sockaddr)
  unfolding Transfer.recvfrom
  raii_recvfrom buffer addr s =
      let (r, from, m, w) =
        Transfer.recvfrom Y s.memory s.object.sock.handle buffer 0 addr s.system in
      (or_abort r >>= λ res. pure (res, from)) (record s { memory = m; system = w })

  -- `DgramSocketBase::try_send` and `try_recv`.
  unfoldable pub try_send : ArrayView → Action (Run W E) Bool
  unfolding raii_send
  try_send data_ = do r ← raii_send data_; pure (succeeded r.result)

  unfoldable pub try_recv : ArrayView → Action (Run W E) ArrayView
  unfolding raii_recv
  try_recv buffer = do r ← raii_recv buffer; pure r.received_data

  module _ (P : EndpointType E) where
    unfoldable pub try_bind : E → Run W E → ErrorCode × Run W E
    unfolding PortLayer.bind
    try_bind ep s =
        let (e, s') = on_system Y (PortLayer.bind Y s.object.sock.handle (P.to_sock_addr ep)) s in
        (e, if is_ok e then put_local ep s' else s')

    unfoldable pub try_connect : E → Run W E → ErrorCode × Run W E
    unfolding PortLayer.connect
    try_connect ep s =
        let (e, s') =
          on_system Y (PortLayer.connect Y s.object.sock.handle (P.to_sock_addr ep)) s in
        (e, if is_ok e then put_remote ep s' else s')

    unfoldable pub try_sendto : ArrayView → E → Action (Run W E) Bool
    unfolding raii_sendto tx_was_success
    try_sendto data_ ep = do
      ret ← raii_sendto data_ (P.to_sock_addr ep)
      or_abort (tx_was_success data_ ret)

    unfoldable pub try_sendto_default : ArrayView → Action (Run W E) Bool
    unfolding try_sendto
    try_sendto_default data_ s =
        (assert (P.valid s.object.ep_remote) >> try_sendto data_ s.object.ep_remote) s

    unfoldable pub try_recvfrom : ArrayView → Action (Run W E) (ArrayView × E)
    unfolding raii_recvfrom
    try_recvfrom buffer = do
      r ← raii_recvfrom buffer P.abi_default
      pure (r.0.received_data, P.of_sock_addr r.1)
