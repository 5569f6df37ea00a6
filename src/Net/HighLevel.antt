-- ===== src/Net/HighLevel.antt =====
-- `HighLevelSocketBase` of include/mart-netlib/detail/socket_base.hpp and
-- src/mart-netlib/detail/socket_base.cpp, which DgramSocket and tcp::Socket extend: the members
-- that start with `try_` and those that throw. An object runs alone with its memory and system.
use mart_common.Prelude.{ℕ, Bool, List, [], ◌∷◌, ◌++◌, if◌then◌else◌}
use mart_common.Prelude.Int.{ℤ, pos, negsuc, ◌==ℤ◌}
use mart_common.Text.{Bytes, codes}
use mart_common.Text.Decimal
use mart_common.Net.Results.{ErrorCode, is_ok}
use mart_common.Net.Enums.{Direction, tx, rx, unspec, invalid_type, default_protocol}
use mart_common.Net.Native.{System}
use mart_common.Net.PortLayer.{get_last_socket_error}
use mart_common.Net.Socket
use mart_common.Net.Socket.{RaiiSocket, PortLayer, Process}
use mart_common.Net.Socket.System.{port_layer}
use mart_common.Net.Timeouts
use mart_common.Net.Transfer.{Memory}
use mart_common.Net.Throws.{
  Exception, generic_nw_error, Action, ⊤, ◌>>=◌, pure, throw, call, throw_unless,
  make_error_message,
}

-- A socket object with the endpoints that the classes on top of it keep.
pub record SocketObject (E : Type 0) : Type 0 where
  pub sock : RaiiSocket
  pub ep_local : E
  pub ep_remote : E

pub record Run (W E : Type 0) : Type 0 where
  pub object : SocketObject E
  pub memory : Memory
  pub system : W

-- `to_string` of a time, which is a number of microseconds.
unfoldable pub duration_text : ℤ → Bytes
duration_text (pos n) = Decimal.to_string n ++ codes "us"
duration_text (negsuc n) = b'-' ∷ Decimal.to_string (ℕ.suc n) ++ codes "us"

-- The members of RaiiSocket on the object: a process with no other one.
abbrev pub alone : {W : Type 0} → RaiiSocket → W → Process W
alone r w = record { socks = λ _. r; system = w }

module _ {W E : Type 0} where
  abbrev pub put_local : E → Run W E → Run W E
  put_local ep s = record s { object = record s.object { ep_local = ep } }

  abbrev pub put_remote : E → Run W E → Run W E
  put_remote ep s = record s { object = record s.object { ep_remote = ep } }

-- The arguments are used by a constructor only.
abbrev pub layer : {W : Type 0} → System W → PortLayer W
layer Y = port_layer Y unspec invalid_type default_protocol

module _ {W : Type 0} (Y : System W) {E : Type 0} where
  abbrev pub on_socket : {A : Type 0} → (Process W → A × Process W) → Run W E → A × Run W E
  on_socket f s =
      let (a, p) = f (alone s.object.sock s.system) in
      (a, record s { object = record s.object { sock = p.socks 0 }; system = p.system })

  abbrev pub on_system : {A : Type 0} → (W → A × W) → Run W E → A × Run W E
  on_system f s = let (a, w) = f s.system in (a, record s { system = w })

  unfoldable pub is_valid : Run W E → Bool
  unfolding Socket.is_valid
  is_valid s = Socket.is_valid (layer Y) (alone s.object.sock s.system) 0

  unfoldable pub is_blocking : Run W E → Bool
  unfolding Socket.is_blocking
  is_blocking s = Socket.is_blocking (layer Y) (alone s.object.sock s.system) 0

  -- `try_set_tx_timeout` and `try_set_rx_timeout`, by the direction.
  unfoldable pub try_set_timeout : Direction → ℤ → Run W E → Bool × Run W E
  unfolding Timeouts.try_set_timeout
  try_set_timeout d timeout s =
      on_system (Timeouts.try_set_timeout Y s.object.sock.handle d timeout) s

  unfoldable pub try_get_timeout : Direction → Run W E → ℤ × Run W E
  unfolding Timeouts.try_get_timeout
  try_get_timeout d s = on_system (Timeouts.try_get_timeout Y s.object.sock.handle d) s

  unfoldable pub try_set_blocking : Bool → Run W E → Bool × Run W E
  unfolding Socket.set_blocking
  try_set_blocking should_block s =
      let (e, s') = on_socket (λ p. Socket.set_blocking (layer Y) p 0 should_block) s in
      (is_ok e, s')

  unfoldable pub try_close : Run W E → Bool × Run W E
  unfolding Socket.close
  try_close s = let (e, s') = on_socket (λ p. Socket.close (layer Y) p 0) s in (is_ok e, s')

  module _ (to_text_rep : ErrorCode → Bytes) where
    -- `generic_nw_error` with the last error of the system.
    unfoldable pub last_error : List Bytes → Run W E → Exception
    unfolding make_error_message
    last_error elements s =
        generic_nw_error
          (make_error_message to_text_rep (get_last_socket_error Y s.system) elements)

    -- `set_tx_timeout` and `set_rx_timeout`.
    unfoldable pub set_timeout : Direction → ℤ → Action (Run W E) ⊤
    unfolding try_set_timeout last_error duration_text
    set_timeout d timeout = do
      done ← call (try_set_timeout d timeout)
      throw_unless done (
          last_error (
            elim d [
              | tx ↦ codes "Could  not set tx_timeout to "
              | rx ↦ codes "Could not set rx_timeout to "
            ]
            ∷ duration_text timeout
            ∷ codes " on socket"
            ∷ []))

    -- `get_tx_timeout` and `get_rx_timeout`.
    unfoldable pub get_timeout : Direction → Action (Run W E) ℤ
    unfolding try_get_timeout last_error
    get_timeout d = do
      t ← call (try_get_timeout d)
      if t ==ℤ negsuc 0
          then throw (
              last_error (
                elim d [
                  | tx ↦ codes "Could not determine tx_timeout on socket"
                  | rx ↦ codes "Could not determine rx_timeout on socket"
                ]
                ∷ []))
          else pure t

    unfoldable pub set_blocking : Bool → Action (Run W E) ⊤
    unfolding try_set_blocking last_error
    set_blocking should_block = do
      done ← call (try_set_blocking should_block)
      throw_unless done (
          last_error (
            codes "Could not switch blocking mode to "
            ∷ (if should_block then codes "true" else codes "false")
            ∷ codes " on socket"
            ∷ []))

    unfoldable pub close : Action (Run W E) ⊤
    unfolding try_close last_error
    close = do
      done ← call try_close
      throw_unless done (last_error (codes "Could not close socket" ∷ []))
