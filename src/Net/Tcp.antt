-- ===== src/Net/Tcp.antt =====
-- `tcp::Socket` of include/mart-netlib/tcp.hpp, alone with its memory and the system.
pub mod Send
pub mod Acceptor
pub mod States
mod Tests
use mart_common.Prelude.{
  ℕ, zero, suc, Bool, true, false, ◌||◌, List, [], ◌∷◌, Option, none, some, ◌==◌, if◌then◌else◌,
}
use mart_common.Prelude.Int.{ℤ}
use mart_common.Text.{Bytes, codes}
use mart_common.Containers.ArrayView.{ArrayView, empty}
use mart_common.Net.Results.{
  ErrorCode, is_ok, same, would_block, try_again, timeout, ReturnValue, success, failure,
  error_code,
}
use mart_common.Net.Enums.{inet, stream, default_protocol}
use mart_common.Net.Native.{System, Handle}
use mart_common.Net.PortLayer
use mart_common.Net.PortLayer.{Sockaddr}
use mart_common.Net.Sockaddrs.{default_sockaddr_in, to_sock_addr_in, endpoint_of}
use mart_common.Net.Endpoint.{EndpointV4, default_endpoint}
use mart_common.Net.Socket
use mart_common.Net.Socket.{RaiiSocket}
use mart_common.Net.Socket.System.{port_layer}
use mart_common.Net.Transfer.{Memory, SendResult}
use mart_common.Net.Throws.{
  Exception, generic_nw_error, narrowing_error, Outcome, ok, thrown, aborted, Action, ⊤, ◌>>=◌,
  ◌>>◌, pure, throw, call, throw_unless, assert, make_error_message,
}
use mart_common.Net.HighLevel.{
  SocketObject, Run, layer, alone, on_system, last_error, is_valid, put_local, put_remote,
}
use mart_common.Net.Dgram.{tx_was_success, raii_send, raii_recv}

module _ {W : Type 0} (Y : System W) where
  -- `getSockAddress`, for the handle of a socket.
  unfoldable pub get_sock_address : Handle → W → (ErrorCode × EndpointV4) × W
  unfolding PortLayer.getsockname endpoint_of default_endpoint
  get_sock_address h w =
      let (r, w') = PortLayer.getsockname Y h default_sockaddr_in w in
      ((r.0, if is_ok r.0 then endpoint_of r.1 else default_endpoint), w')

  abbrev pub get_own_address : Run W EndpointV4 → (ErrorCode × EndpointV4) × Run W EndpointV4
  unfolding get_sock_address
  get_own_address s = on_system Y (get_sock_address s.object.sock.handle) s

  -- `Socket()`: a socket that may have no handle.
  unfoldable pub make : W → SocketObject EndpointV4 × W
  unfolding Socket.open_ default_endpoint
  make w =
      let (e, p) =
        Socket.open_ (port_layer Y inet stream default_protocol) (alone Socket.invalid w) 0 in
      (
        record { sock = p.socks 0; ep_local = default_endpoint; ep_remote = default_endpoint },
        p.system,
      )

  unfoldable pub try_connect : EndpointV4 → Run W EndpointV4 → Bool × Run W EndpointV4
  unfolding PortLayer.connect get_own_address to_sock_addr_in
  try_connect ep s =
      let (e, s1) = on_system Y (PortLayer.connect Y s.object.sock.handle (to_sock_addr_in ep)) s in
      let s2 = put_remote ep s1 in
      let (t_ep, s3) = get_own_address s2 in
      if is_ok e
      then (if is_ok t_ep.0 then (true, put_local t_ep.1 s3) else (false, s3))
      else (false, s1)

  module _ (text : ErrorCode → Bytes) (to_string_ex : EndpointV4 → Bytes) where
    abbrev pub with_code : ErrorCode → List Bytes → Run W EndpointV4 → Exception
    unfolding make_error_message
    with_code e elements s = generic_nw_error (make_error_message text e elements)

    unfoldable pub connect : EndpointV4 → Action (Run W EndpointV4) ⊤
    unfolding PortLayer.connect get_own_address with_code to_sock_addr_in
    connect ep s =
        let (e, s1) =
          on_system Y (PortLayer.connect Y s.object.sock.handle (to_sock_addr_in ep)) s in
        let s2 = put_remote ep s1 in
        let (t_ep, s3) = get_own_address s2 in
        if is_ok e
        then (if is_ok t_ep.0
            then (ok tt, put_local t_ep.1 s3)
            else throw (with_code t_ep.0 (codes "Could not get port of connected socket " ∷ [])) s3)
        else throw
            (with_code e (codes "Could not connect socket to address " ∷ to_string_ex ep ∷ [])) s1

    unfoldable pub bind : EndpointV4 → Action (Run W EndpointV4) ⊤
    unfolding PortLayer.bind with_code is_valid to_sock_addr_in
    bind ep s =
        let (e, s1) = on_system Y (PortLayer.bind Y s.object.sock.handle (to_sock_addr_in ep)) s in
        if is_valid Y s
        then (if is_ok e
            then (ok tt, put_local ep s1)
            else throw
                (with_code e (codes "Could not bind tcp socket to address " ∷ to_string_ex ep ∷ []))
                s1)
        else (aborted, s)

    -- What `send` does with a result: it throws, or goes on with what is left.
    unfoldable pub check_sent : Option Bool → SendResult → Action (Run W EndpointV4) ArrayView
    unfolding with_code error_code
    check_sent none res = throw (λ _. narrowing_error)
    check_sent (some done) res =
        throw_unless done
          (with_code (error_code res.result) (codes "Failed to send data. Details:  " ∷ []))
        >> pure res.remaining_data

    -- One turn of `send`.
    unfoldable pub send_once : ArrayView → Action (Run W EndpointV4) ArrayView
    unfolding raii_send tx_was_success check_sent
    send_once data_ = do res ← raii_send Y data_; check_sent (tx_was_success data_ res) res

    -- `send`; none if the fuel ends first.
    unfoldable pub send : ℕ → ArrayView → Run W EndpointV4 → Option (Outcome ⊤ × Run W EndpointV4)
    unfolding send_once empty
    send zero data_ s = none
    send (suc fuel) data_ s =
        let (r, s') = send_once data_ s in
        let rest : Option (Outcome ⊤ × Run W EndpointV4) = elim r [
          | ok remaining ↦ send fuel remaining s'
          | thrown e ↦ some (thrown e, s')
          | aborted ↦ some (aborted, s')
        ] in
        if empty data_ then some (ok tt, s) else rest

    -- The errors that `recv` does not report.
    abbrev pub is_no_data : ErrorCode → Bool
    is_no_data e = same e would_block || same e try_again || same e timeout

    unfoldable pub recv : ArrayView → Action (Run W EndpointV4) ArrayView
    unfolding raii_recv with_code
    recv buffer = do
      res ← raii_recv Y buffer
      elim (res.result) [
        | success n ↦ pure tt
        | failure e ↦
            throw_unless (is_no_data e)
              (with_code e (codes "Failed to receive data. Details:  " ∷ []))
      ]
      pure res.received_data
