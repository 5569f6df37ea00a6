-- ===== src/Net/Dgram/Throwing.antt =====
-- The members of `DgramSocket` that throw, its constructors, and `clearRxBuff`, of
-- src/mart-netlib/detail/socket_base.cpp and src/mart-netlib/detail/dgram_socket_base_impl.hpp.
use mart_common.Prelude.{ℕ, zero, suc, false, List, [], ◌∷◌, Option, none, some, if◌then◌else◌}
use mart_common.Prelude.Int.{ℤ}
use mart_common.Text.{Bytes, codes}
use mart_common.Containers.ArrayView.{ArrayView}
use mart_common.Net.Results.{ErrorCode, is_ok, ReturnValue, success, failure, succeeded, error_code}
use mart_common.Net.Enums.{datagram, default_protocol}
use mart_common.Net.Native.{System}
use mart_common.Net.PortLayer
use mart_common.Net.PortLayer.{Sockaddr}
use mart_common.Net.Socket
use mart_common.Net.Socket.{Process}
use mart_common.Net.Socket.System.{port_layer}
use mart_common.Net.Transfer.{Memory}
use mart_common.Net.Throws.{
  Exception, generic_nw_error, narrowing_error, Outcome, ok, thrown, aborted, Action, ⊤, ◌>>=◌,
  ◌>>◌, pure, throw, throw_unless, assert, make_error_message,
}
use mart_common.Net.HighLevel
use mart_common.Net.HighLevel.{
  SocketObject, Run, layer, alone, on_socket, on_system, last_error, is_valid, is_blocking,
  try_set_blocking, try_close, put_local, put_remote,
}
use mart_common.Net.Dgram.{
  EndpointType, tx_was_success, is_no_data, raii_send, raii_sendto, raii_recv, raii_recvfrom,
}

abbrev pub cleanup_error : Exception
cleanup_error = generic_nw_error (codes "Failed to set socket in non-blocking mode for ex cleanup")

module _ {W : Type 0} (Y : System W) {E : Type 0} where
  module _ (to_text_rep : ErrorCode → Bytes) where
    abbrev pub with_code : ErrorCode → List Bytes → Run W E → Exception
    unfolding make_error_message
    with_code e elements s = generic_nw_error (make_error_message to_text_rep e elements)

    unfoldable pub send : ArrayView → Action (Run W E) ⊤
    unfolding raii_send make_error_message error_code
    send data_ = do
      res ← raii_send Y data_
      throw_unless (succeeded res.result)
          (with_code (error_code res.result) (codes "Failed to send data. Details:  " ∷ []))

    -- What `recv` and `recvfrom` do with a result.
    abbrev pub throw_if_failed : ReturnValue ℤ → Action (Run W E) ⊤
    unfolding make_error_message is_no_data
    throw_if_failed (success n) = pure tt
    throw_if_failed (failure e) =
        throw_unless (is_no_data e) (with_code e (codes "Failed to receive data. Details:  " ∷ []))

    unfoldable pub recv : ArrayView → Action (Run W E) ArrayView
    unfolding raii_recv throw_if_failed
    recv buffer = do res ← raii_recv Y buffer; throw_if_failed res.result; pure res.received_data

    module _ (P : EndpointType E) where
      unfoldable pub bind : E → Action (Run W E) ⊤
      unfolding PortLayer.bind with_code
      bind ep s =
          let (e, s') = on_system Y (PortLayer.bind Y s.object.sock.handle (P.to_sock_addr ep)) s in
          if is_ok e
          then (ok tt, put_local ep s')
          else throw
              (with_code e (
                codes "Could not bind datagram socket to address \""
                ∷ P.to_string_ex ep
                ∷ codes "\""
                ∷ []))
              s'

      unfoldable pub connect : E → Action (Run W E) ⊤
      unfolding PortLayer.connect with_code
      connect ep s =
          let (e, s') =
            on_system Y (PortLayer.connect Y s.object.sock.handle (P.to_sock_addr ep)) s in
          if is_ok e
          then (ok tt, put_remote ep s')
          else throw
              (with_code e (
                codes "Could not connect datagram socket to address \""
                ∷ P.to_string_ex ep
                ∷ codes "\""
                ∷ []))
              s'

      unfoldable pub sendto : ArrayView → E → Action (Run W E) ⊤
      unfolding raii_sendto tx_was_success with_code error_code
      sendto data_ ep = do
        res ← raii_sendto Y data_ (P.to_sock_addr ep)
        elim (tx_was_success data_ res) [
          | none ↦ throw (λ _. narrowing_error)
          | some done ↦ throw_unless done (
              with_code (error_code res.result)
                (codes "Failed to send data to " ∷ P.to_string ep ∷ codes ". Details:  " ∷ []))
        ]

      unfoldable pub sendto_default : ArrayView → Action (Run W E) ⊤
      unfolding sendto
      sendto_default data_ s =
          (assert (P.valid s.object.ep_remote) >> sendto data_ s.object.ep_remote) s

      unfoldable pub recvfrom : ArrayView → Action (Run W E) (ArrayView × E)
      unfolding raii_recvfrom throw_if_failed
      recvfrom buffer = do
        r ← raii_recvfrom Y buffer P.abi_default
        throw_if_failed r.0.result
        pure (r.0.received_data, P.of_sock_addr r.1)

      -- `close` of DgramSocket.
      unfoldable pub close : Action (Run W E) ⊤
      unfolding HighLevel.close
      close s = HighLevel.close Y to_text_rep (put_remote P.default_ (put_local P.default_ s))

      -- `DgramSocket()`: without a handle the constructor throws, which destroys the socket.
      unfoldable pub make : Memory → W → Outcome (Run W E) × W
      unfolding Socket.open_ last_error Socket.is_valid try_close
      make m w =
          let (e, p) =
            Socket.open_ (port_layer Y P.domain datagram default_protocol) (alone Socket.invalid w)
              0 in
          let r : Run W E = record {
            object = record { sock = p.socks 0; ep_local = P.default_; ep_remote = P.default_ };
            memory = m;
            system = p.system;
          } in
          if is_valid Y r then (ok r, r.system) else (
            thrown (last_error Y to_text_rep (codes "Could not create socket." ∷ []) r),
            (try_close Y r).1.system,
          )

      -- How a constructor ends by the body that ran after the delegated one.
      unfoldable pub finished : Outcome ⊤ × Run W E → Outcome (Run W E) × W
      unfolding try_close
      finished (ok _, s) = (ok s, s.system)
      finished (thrown e, s) = (thrown e, (try_close Y s).1.system)
      finished (aborted, s) = (aborted, s.system)

      -- `DgramSocket( local, remote )`: an exception destroys the object, which closes its handle.
      unfoldable pub make_connected : E → E → Memory → W → Outcome (Run W E) × W
      unfolding make bind connect finished
      make_connected local remote m w =
          let (r, w') = make m w in
          elim r [
            | ok s ↦ finished ((bind local >> connect remote) s)
            | thrown e ↦ (thrown e, w')
            | aborted ↦ (aborted, w')
          ]

  -- The loop of `clearRxBuff`; none if the fuel ends first.
  unfoldable pub clear_loop : ℕ → ArrayView → Run W E → Option (Outcome ⊤ × Run W E)
  unfolding raii_recv
  clear_loop zero buffer_view s = none
  clear_loop (suc fuel) buffer_view s =
      let (r, s') = raii_recv Y buffer_view s in
      let rest = clear_loop fuel buffer_view s' in
      elim r [
        | ok res ↦ if succeeded res.result then rest else some (ok tt, s')
        | thrown e ↦ some (thrown e, s')
        | aborted ↦ some (aborted, s')
      ]

  -- `clearRxBuff`, whose buffer of 64 bytes stands at `stack`; `BlockingRestorer` sets the old mode
  -- at the end, also after an exception.
  unfoldable pub clear_rx_buff : ℕ → ℕ → Run W E → Option (Outcome ⊤ × Run W E)
  unfolding is_blocking try_set_blocking clear_loop
  clear_rx_buff fuel stack s =
      let was_blocking = is_blocking Y s in
      let (done, s') = try_set_blocking Y false s in
      let rest = clear_loop fuel (record { data_ = stack; size = 64 }) s' in
      if done
      then elim rest [
        | none ↦ none
        | some (r, s'') ↦ some (r, (try_set_blocking Y was_blocking s'').1)
      ]
      else some (thrown cleanup_error, (try_set_blocking Y was_blocking s').1)
