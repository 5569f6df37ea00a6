-- ===== src/Net/Tcp/Acceptor.antt =====
-- `tcp::Acceptor` of include/mart-netlib/tcp.hpp, alone with the system. The asserts are switched
-- on: `aborted` is a failed one.
use mart_common.Prelude.{ℕ, Bool, true, false, ◌&&◌, List, [], ◌∷◌, if◌then◌else◌}
use mart_common.Prelude.Int.{ℤ}
use mart_common.Text.{Bytes, codes}
use mart_common.Net.Results.{ErrorCode, is_ok, ReturnValue, success, failure}
use mart_common.Net.Enums.{inet, stream, default_protocol, tx, rx}
use mart_common.Net.Native.{System}
use mart_common.Net.PortLayer
use mart_common.Net.PortLayer.{Sockaddr}
use mart_common.Net.Sockaddrs.{default_sockaddr_in, to_sock_addr_in, endpoint_of}
use mart_common.Net.Endpoint.{EndpointV4, default_endpoint}
use mart_common.Net.Socket
use mart_common.Net.Socket.{RaiiSocket, Process}
use mart_common.Net.Socket.System.{port_layer}
use mart_common.Net.Timeouts.{try_set_timeout}
use mart_common.Net.Throws.{
  Exception, generic_nw_error, Outcome, ok, thrown, aborted, Action, ⊤, ◌>>◌, throw, call,
  make_error_message,
}
use mart_common.Net.HighLevel.{SocketObject, layer, alone}
use mart_common.Net.Tcp
use mart_common.Net.Tcp.{get_sock_address}

-- `Acceptor::State`.
pub data State : Type 0 where
  opened bound listening : State

pub record Acceptor : Type 0 where
  pub socket_handle : RaiiSocket
  pub ep_local : EndpointV4
  pub state : State

abbrev pub is_opened : State → Bool
is_opened opened = true
is_opened _ = false

abbrev pub is_bound : State → Bool
is_bound bound = true
is_bound _ = false

abbrev pub is_listening : State → Bool
is_listening listening = true
is_listening _ = false

module _ {W : Type 0} (Y : System W) where
  abbrev pub S : Type 0
  S = Acceptor × W

  abbrev pub on_system : {A : Type 0} → (W → A × W) → S → A × S
  on_system f (a, w) = let (r, w') = f w in (r, (a, w'))

  abbrev pub on_socket : {A : Type 0} → (Process W → A × Process W) → S → A × S
  on_socket f (a, w) =
      let (r, p) = f (alone a.socket_handle w) in
      (r, (record a { socket_handle = p.socks 0 }, p.system))

  unfoldable pub is_valid : Acceptor → W → Bool
  unfolding Socket.is_valid
  is_valid a w = Socket.is_valid (layer Y) (alone a.socket_handle w) 0

  unfoldable pub try_bind : EndpointV4 → Action S Bool
  unfolding PortLayer.bind to_sock_addr_in
  try_bind ep s =
      let (a, w) = s in
      let (result, w') = PortLayer.bind Y a.socket_handle.handle (to_sock_addr_in ep) w in
      if is_opened a.state
      then (if is_ok result
          then (ok true, (record a { ep_local = ep; state = bound }, w'))
          else (ok false, (a, w')))
      else (aborted, s)

  unfoldable pub try_listen : ℤ → Action S Bool
  unfolding PortLayer.listen
  try_listen backlog s =
      let (a, w) = s in
      let (result, w') = PortLayer.listen Y a.socket_handle.handle backlog w in
      if is_bound a.state
      then (if is_ok result
          then (ok true, (record a { state = listening }, w'))
          else (ok false, (a, w')))
      else (aborted, s)

  -- What `RaiiSocket::accept( Sockaddr& )` does with a result.
  unfoldable pub from_result : Acceptor → ReturnValue ℕ → Sockaddr → W → (RaiiSocket × Sockaddr) × S
  unfolding Socket.from_handle
  from_result a (success h) addr w =
      let p = Socket.from_handle (layer Y) (alone Socket.invalid w) 0 h in
      ((p.socks 0, addr), (a, p.system))
  from_result a (failure e) addr w = ((Socket.invalid, addr), (a, w))

  -- `RaiiSocket::accept( Sockaddr& )`: a new socket object and the address.
  unfoldable pub raii_accept : S → (RaiiSocket × Sockaddr) × S
  unfolding PortLayer.accept from_result
  raii_accept (a, w) =
      let (r, w') = PortLayer.accept Y a.socket_handle.handle default_sockaddr_in w in
      from_result a r.0 r.1 w'

  -- The end of `try_accept` and `accept`: the connection, or a new socket that is not connected,
  -- after which the accepted one is destroyed.
  unfoldable pub accepted : S → SocketObject EndpointV4 × S
  unfolding raii_accept get_sock_address endpoint_of Tcp.make Socket.is_valid Socket.close
  accepted s =
      let (r, s1) = raii_accept s in
      let (sock, addr) = r in
      let (a, w1) = s1 in
      let (res, w2) = get_sock_address Y sock.handle w1 in
      let (fresh, w3) = Tcp.make Y w2 in
      if Socket.is_valid (layer Y) (alone sock w2) 0 && is_ok res.0
      then (record { sock = sock; ep_local = res.1; ep_remote = endpoint_of addr }, (a, w2))
      else (fresh, (a, (Socket.close (layer Y) (alone sock w3) 0).1.system))

  unfoldable pub try_accept : Action S (SocketObject EndpointV4)
  unfolding accepted Socket.set_blocking
  try_accept s =
      let (_, s1) = on_socket (λ p. Socket.set_blocking (layer Y) p 0 false) s in
      if is_listening (s.0).state then call accepted s1 else (aborted, s)

  unfoldable pub accept : ℤ → Action S (SocketObject EndpointV4)
  unfolding accepted Socket.set_blocking try_set_timeout
  accept timeout s =
      let (_, s1) = on_socket (λ p. Socket.set_blocking (layer Y) p 0 true) s in
      let (_, s2) = on_system (try_set_timeout Y (s1.0).socket_handle.handle rx timeout) s1 in
      let (_, s3) = on_system (try_set_timeout Y (s2.0).socket_handle.handle tx timeout) s2 in
      call accepted s3

  -- `operator=( Acceptor&& )` of two acceptors: what they are afterwards. The state of the target
  -- is not assigned.
  unfoldable pub move_assign : Acceptor → Acceptor → W → (Acceptor × Acceptor) × W
  unfolding Socket.close default_endpoint
  move_assign target source w =
      let w' = (Socket.close (layer Y) (alone target.socket_handle w) 0).1.system in
      (
        (
          record {
            socket_handle = source.socket_handle;
            ep_local = source.ep_local;
            state = target.state;
          },
          record {
            socket_handle = record { handle = mart_common.Prelude.none; blocking = true };
            ep_local = default_endpoint;
            state = source.state;
          },
        ),
        w',
      )

  module _ (text : ErrorCode → Bytes) (to_string_ex : EndpointV4 → Bytes) where
    abbrev pub with_code : ErrorCode → List Bytes → S → Exception
    unfolding make_error_message
    with_code e elements s = generic_nw_error (make_error_message text e elements)

    unfoldable pub bind : EndpointV4 → Action S ⊤
    unfolding PortLayer.bind to_sock_addr_in with_code
    bind ep s =
        let (a, w) = s in
        let (result, w') = PortLayer.bind Y a.socket_handle.handle (to_sock_addr_in ep) w in
        if is_opened a.state
        then (if is_ok result
            then (ok tt, (record a { ep_local = ep; state = bound }, w'))
            else throw
                (with_code result
                  (codes "Could not bind tcp acceptor to address " ∷ to_string_ex ep ∷ []))
                (a, w'))
        else (aborted, s)

    unfoldable pub listen : ℤ → Action S ⊤
    unfolding PortLayer.listen with_code
    listen backlog s =
        let (a, w) = s in
        let (result, w') = PortLayer.listen Y a.socket_handle.handle backlog w in
        if is_bound a.state
        then (if is_ok result
            then (ok tt, (record a { state = listening }, w'))
            else throw
                (with_code result (
                  codes "Tcp acceptor could not start to listen on address "
                  ∷ to_string_ex a.ep_local
                  ∷ []))
                (a, w'))
        else (aborted, s)

    -- `Acceptor()`, and `Acceptor( local, backlog )`, whose exceptions destroy the acceptor.
    unfoldable pub make : W → Outcome Acceptor × W
    unfolding Socket.open_ Socket.close is_valid with_code default_endpoint
    make w =
        let (e, p) =
          Socket.open_ (port_layer Y inet stream default_protocol) (alone Socket.invalid w) 0 in
        let a : Acceptor = record {
          socket_handle = p.socks 0;
          ep_local = default_endpoint;
          state = opened;
        } in
        if is_valid a p.system then (ok a, p.system) else (
          thrown (
              with_code (PortLayer.get_last_socket_error Y p.system)
                (codes "Could not create tcp acceptor." ∷ []) (a, p.system)),
          (Socket.close (layer Y) (alone a.socket_handle p.system) 0).1.system,
        )

    unfoldable pub finished : Outcome ⊤ × S → Outcome Acceptor × W
    unfolding Socket.close
    finished (ok _, s) = (ok s.0, s.1)
    finished (thrown e, s) =
        (thrown e, (Socket.close (layer Y) (alone (s.0).socket_handle s.1) 0).1.system)
    finished (aborted, s) = (aborted, s.1)

    unfoldable pub make_listening : EndpointV4 → ℤ → W → Outcome Acceptor × W
    unfolding make bind listen finished
    make_listening local backlog w =
        let (r, w') = make w in
        elim r [
          | ok a ↦ finished ((bind local >> listen backlog) (a, w'))
          | thrown e ↦ (thrown e, w')
          | aborted ↦ (aborted, w')
        ]
