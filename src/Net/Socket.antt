-- ===== src/Net/Socket.antt =====
-- The socket handle of include/mart-netlib/RaiiSocket.hpp, over the interface `PortLayer` of the
-- functions of include/mart-netlib/port_layer.hpp that it calls; the state `W` of the system also
-- says which handles are open. Socket.System fills the interface.
pub mod System
pub mod Handles
pub mod Ownership
mod Tests
use mart_common.Prelude.{
  ℕ, ◌≡◌, ◌≢◌, Bool, true, false, ◌&&◌, Option, none, some, ◌==◌, if◌then◌else◌,
}
use mart_common.Prelude.Threads.{update}
use mart_common.Net.Results.{ErrorCode, ok, is_ok, ReturnValue, success, failure, error_code}

-- `RaiiSocket`; no handle stands for `handle_t::Invalid`.
pub record RaiiSocket : Type 0 where
  pub handle : Option ℕ
  pub blocking : Bool

abbrev pub invalid : RaiiSocket
invalid = record { handle = none; blocking = true }

pub record PortLayer (W : Type 0) : Type 0 where
  pub is_open : W → ℕ → Bool
  pub close_socket : Option ℕ → W → ErrorCode × W
  pub open_socket : W → ReturnValue ℕ × W
  pub accept_on : Option ℕ → W → ReturnValue ℕ × W
  pub make_blocking : Option ℕ → Bool → W → ErrorCode × W

-- What the library relies on: a new handle was not open before and nothing else changes, a close
-- closes its handle and no other, and setting a flag opens and closes nothing.
pub record IsSystem {W : Type 0} (L : PortLayer W) : Type 0 where
  pub opens_new :
      (w : W) (h : ℕ)
      → (L.open_socket w).0 ≡ success h
      → (L.is_open w h ≡ false)
        × (L.is_open (L.open_socket w).1 h ≡ true)
        × ((k : ℕ) → k ≢ h → L.is_open (L.open_socket w).1 k ≡ L.is_open w k)
  pub fails_still :
      (w : W) (e : ErrorCode)
      → (L.open_socket w).0 ≡ failure e
      → (k : ℕ) → L.is_open (L.open_socket w).1 k ≡ L.is_open w k
  pub accepts_new :
      (w : W) (o : Option ℕ) (h : ℕ)
      → (L.accept_on o w).0 ≡ success h
      → (L.is_open w h ≡ false)
        × (L.is_open (L.accept_on o w).1 h ≡ true)
        × ((k : ℕ) → k ≢ h → L.is_open (L.accept_on o w).1 k ≡ L.is_open w k)
  pub refuses_still :
      (w : W) (o : Option ℕ) (e : ErrorCode)
      → (L.accept_on o w).0 ≡ failure e
      → (k : ℕ) → L.is_open (L.accept_on o w).1 k ≡ L.is_open w k
  pub closes :
      (w : W) (h : ℕ)
      → (L.is_open (L.close_socket (some h) w).1 h ≡ false)
        × ((k : ℕ) → k ≢ h → L.is_open (L.close_socket (some h) w).1 k ≡ L.is_open w k)
  pub closes_nothing : (w : W) (k : ℕ) → L.is_open (L.close_socket none w).1 k ≡ L.is_open w k
  pub flags_only :
      (w : W) (o : Option ℕ) (b : Bool) (k : ℕ)
      → L.is_open (L.make_blocking o b w).1 k ≡ L.is_open w k

-- All socket objects and the system.
pub record Process (W : Type 0) : Type 0 where
  pub socks : ℕ → RaiiSocket
  pub system : W

module _ {W : Type 0} (L : PortLayer W) where
  abbrev pub put : Process W → ℕ → RaiiSocket → Process W
  put s i r = record s { socks = update s.socks i r }

  -- `_setBlocking_uncached` and `set_blocking` of the socket `i`.
  unfoldable pub set_blocking_uncached : Process W → ℕ → Bool → ErrorCode × Process W
  set_blocking_uncached s i should_block =
      let (res, w) = L.make_blocking (s.socks i).handle should_block s.system in
      let t : Process W = record s { system = w } in
      if is_ok res
      then (res, put t i (record { handle = (s.socks i).handle; blocking = should_block }))
      else (res, t)

  unfoldable pub set_blocking : Process W → ℕ → Bool → ErrorCode × Process W
  unfolding set_blocking_uncached
  set_blocking s i should_block = elim ((s.socks i).blocking) [
    | true ↦ if should_block then (ok, s) else set_blocking_uncached s i should_block
    | false ↦ if should_block then set_blocking_uncached s i should_block else (ok, s)
  ]

  unfoldable pub is_valid : Process W → ℕ → Bool
  is_valid s i = elim ((s.socks i).handle) [ none ↦ false | some _ ↦ true ]

  unfoldable pub is_blocking : Process W → ℕ → Bool
  unfolding is_valid
  is_blocking s i = (s.socks i).blocking && is_valid s i

  -- `close`, which is also the destructor.
  unfoldable pub close : Process W → ℕ → ErrorCode × Process W
  close s i =
      let (ret, w) = L.close_socket (s.socks i).handle s.system in
      (
        ret,
        put (record s { system = w }) i (record { handle = none; blocking = (s.socks i).blocking }),
      )

  unfoldable pub release : Process W → ℕ → Option ℕ × Process W
  release s i =
      ((s.socks i).handle, put s i (record { handle = none; blocking = (s.socks i).blocking }))

  -- `RaiiSocket( RaiiSocket&& )`: `i` is the new object.
  unfoldable pub move_construct : Process W → ℕ → ℕ → Process W
  move_construct s i j = put (put s j (record { handle = none; blocking = false })) i (s.socks j)

  -- `operator=( RaiiSocket&& )`.
  unfoldable pub move_assign : Process W → ℕ → ℕ → Process W
  unfolding close
  move_assign s i j =
      let t = (close s i).1 in
      put (put t j (record { handle = none; blocking = true })) i (t.socks j)

  -- `RaiiSocket( handle_t )`.
  unfoldable pub from_handle : Process W → ℕ → ℕ → Process W
  unfolding set_blocking_uncached
  from_handle s i h =
      (set_blocking_uncached (put s i (record { handle = some h; blocking = true })) i true).1

  -- `RaiiSocket( Domain, TransportType )`, which is `_open`; `i` is the new object.
  unfoldable pub open_ : Process W → ℕ → ErrorCode × Process W
  unfolding from_handle error_code
  open_ s i =
      let (res, w) = L.open_socket s.system in
      (
        error_code res,
        elim res [
          | success h ↦ from_handle (record s { system = w }) i h
          | failure e ↦ put (record s { system = w }) i invalid
        ],
      )

  -- `accept`: `i` is the new object.
  unfoldable pub accept : Process W → ℕ → ℕ → Process W
  unfolding from_handle
  accept s listener i =
      let (res, w) = L.accept_on (s.socks listener).handle s.system in
      elim res [
        | success h ↦ from_handle (record s { system = w }) i h
        | failure e ↦ put (record s { system = w }) i invalid
      ]
