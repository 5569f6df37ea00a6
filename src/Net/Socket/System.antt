-- ===== src/Net/Socket/System.antt =====
-- The functions of src/mart-netlib/port_layer.cpp as the interface that RaiiSocket calls.
use mart_common.Prelude.{ℕ, ◌≡◌, ap, ◌∙◌, Bool, Option, none, some, arith}
use mathlib.Core.Path.{subst}
use mart_common.Prelude.Int.{ℤ}
use mart_common.Net.Results.{ErrorCode, success, failure}
use mart_common.Net.Enums.{Domain, TransportType, Protocol}
use mart_common.Net.Native.{System, OpensNew, OpensAndCloses, fd}
use mart_common.Net.PortLayer.{
  get_appropriate_error_code, make_handle, blocking_flags, set_blocking, socket, close_socket,
  accept_only,
}
use mart_common.Net.Socket.{PortLayer, IsSystem}

module _ {W : Type 0} (Y : System W) (domain : Domain) (type_ : TransportType) (p : Protocol) where
  -- The functions, with the arguments that a constructor gives to `socket`.
  abbrev pub port_layer : PortLayer W
  port_layer = record {
    is_open = Y.is_open;
    close_socket = close_socket Y;
    open_socket = socket Y domain type_ p;
    accept_on = accept_only Y;
    make_blocking = set_blocking Y;
  }

module _ {W : Type 0} (Y : System W) where
  pub code-still : (r : ℤ × W) → (get_appropriate_error_code Y r).1 ≡ r.1
  unfolding get_appropriate_error_code
  code-still r = ground arith

  make_handle-success : (o : Option ℕ) (v : W) (h : ℕ) → make_handle Y o v ≡ success h → o ≡ some h
  unfolding make_handle
  make_handle-success o v h e = ground arith

  make_handle-failure :
      (o : Option ℕ) (v : W) (c : ErrorCode) → make_handle Y o v ≡ failure c → o ≡ none
  unfolding make_handle
  make_handle-failure o v c e = ground arith

  set_blocking-still :
      (O : OpensAndCloses Y) (o : Option ℕ) (b : Bool) (w : W) (k : ℕ)
      → Y.is_open (set_blocking Y o b w).1 k ≡ Y.is_open w k
  unfolding set_blocking
  set_blocking-still O o b w k =
      let (flags, v) = Y.get_flags (fd o) w in
      ap (λ u. Y.is_open u k) (code-still (Y.set_flags (fd o) (blocking_flags b flags) v))
      ∙ O.set_flags_still v (fd o) (blocking_flags b flags) k
      ∙ O.get_flags_still w (fd o) k

  pub close_socket-still : (o : Option ℕ) (w : W) → (close_socket Y o w).1 ≡ (Y.close_ (fd o) w).1
  unfolding close_socket
  close_socket-still o w = code-still (Y.close_ (fd o) w)

  -- The functions of the port layer keep what RaiiSocket relies on, for every system that opens
  -- and closes handles as its manual says: a new handle was not open before and nothing else
  -- changes, a failed call changes no handle, a close closes its own, and a flag none.
  pub port_layer-IsSystem :
      (domain : Domain) (type_ : TransportType) (p : Protocol)
      → OpensAndCloses Y
      → IsSystem (port_layer Y domain type_ p)
  unfolding socket accept_only
  port_layer-IsSystem domain type_ p O = record {
    opens_new = λ w h e.
        subst (λ o. OpensNew Y w o (socket Y domain type_ p w).1)
          (make_handle-success _ (socket Y domain type_ p w).1 h e) (O.socket_new w _ _ _);
    fails_still = λ w c e.
        subst (λ o. OpensNew Y w o (socket Y domain type_ p w).1)
          (make_handle-failure _ (socket Y domain type_ p w).1 c e) (O.socket_new w _ _ _);
    accepts_new = λ w o h e.
        subst (λ a. OpensNew Y w a (accept_only Y o w).1)
          (make_handle-success _ (accept_only Y o w).1 h e) (O.accept_new w (fd o));
    refuses_still = λ w o c e.
        subst (λ a. OpensNew Y w a (accept_only Y o w).1)
          (make_handle-failure _ (accept_only Y o w).1 c e) (O.accept_new w (fd o));
    closes = λ w h. (
      ap (λ v. Y.is_open v h) (close_socket-still (some h) w) ∙ (O.close_own w h).0,
      λ k ne. ap (λ v. Y.is_open v k) (close_socket-still (some h) w) ∙ (O.close_own w h).1 k ne,
    );
    closes_nothing =
        λ w k. ap (λ v. Y.is_open v k) (close_socket-still none w) ∙ O.close_invalid w k;
    flags_only = λ w o b k. set_blocking-still O o b w k;
  }
