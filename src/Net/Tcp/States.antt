-- ===== src/Net/Tcp/States.antt =====
-- The states of an acceptor.
use mart_common.Prelude.{ℕ, ◌+◌, ◌≤◌, ◌≡◌, ◌≢◌, refl, ap, false, if◌then◌else◌}
use mart_common.Prelude.Int.{ℤ}
use mart_common.Text.{Bytes}
use mart_common.Net.Results.{ErrorCode}
use mart_common.Net.Endpoint.{EndpointV4}
use mart_common.Net.Native.{System}
use mart_common.Net.PortLayer
use mart_common.Net.Socket
use mart_common.Net.Socket.{RaiiSocket}
use mart_common.Net.Throws.{call, aborted}
use mart_common.Net.HighLevel.{layer}
use mart_common.Net.Tcp.Acceptor.{
  State, opened, bound, listening, Acceptor, S, try_bind, try_listen, bind, listen, try_accept,
  accept, accepted, move_assign, is_listening, on_socket,
}

-- The order that the states are passed in.
abbrev pub rank : State → ℕ
rank opened = 0
rank bound = 1
rank listening = 2

module _ {W : Type 0} (Y : System W) (text : ErrorCode → Bytes) (show : EndpointV4 → Bytes) where
  -- A call that does not end the program, and the state after it.
  pub data Step : S Y → S Y → Type 0 where
    by_bind :
        (ep : EndpointV4) (s : S Y)
        → (bind Y text show ep s).0 ≢ aborted
        → Step s (bind Y text show ep s).1
    by_try_bind :
        (ep : EndpointV4) (s : S Y) → (try_bind Y ep s).0 ≢ aborted → Step s (try_bind Y ep s).1
    by_listen :
        (n : ℤ) (s : S Y) → (listen Y text show n s).0 ≢ aborted → Step s (listen Y text show n s).1
    by_try_listen : (n : ℤ) (s : S Y) → (try_listen Y n s).0 ≢ aborted → Step s (try_listen Y n s).1
    by_try_accept : (s : S Y) → (try_accept Y s).0 ≢ aborted → Step s (try_accept Y s).1
    by_accept : (t : ℤ) (s : S Y) → (accept Y t s).0 ≢ aborted → Step s (accept Y t s).1

  pub data Reach : S Y → S Y → Type 0 where
    start : (s : S Y) → Reach s s
    then_ : {s t u : S Y} → Reach s t → Step t u → Reach s u

  -- What one call may change: the state goes on by one at most.
  record Changes (s t : S Y) : Type 0 where
    by_one : rank (t.0).state ≤ rank (s.0).state + 1
    rank_le : rank (s.0).state ≤ rank (t.0).state
    handle_same : (t.0).socket_handle.handle ≡ (s.0).socket_handle.handle
    fixed : rank (s.0).state ≢ 0 → (t.0).ep_local ≡ (s.0).ep_local
    unbound : rank (t.0).state ≡ 0 → (t.0).ep_local ≡ (s.0).ep_local

  -- What any number of calls may change.
  pub record Advances (s t : S Y) : Type 0 where
    pub passes_bound :
        (s.0).state ≡ opened
        → (t.0).state ≡ listening
        → (u : S Y) × ((u.0).state ≡ bound) × Reach s u × Reach u t
    pub rank_le : rank (s.0).state ≤ rank (t.0).state
    pub handle_same : (t.0).socket_handle.handle ≡ (s.0).socket_handle.handle
    pub fixed : rank (s.0).state ≢ 0 → (t.0).ep_local ≡ (s.0).ep_local
    pub unbound : rank (t.0).state ≡ 0 → (t.0).ep_local ≡ (s.0).ep_local

  -- An acceptor that listens and is move-assigned to one that was never bound hands its handle
  -- over but not its state: `try_accept` of the target fails its assertion.
  pub try_accept-move_assign :
      (target source : Acceptor) (w : W)
      → target.state ≡ opened
      → source.state ≡ listening
      → let (both, w') = move_assign Y target source w in
        ((both.0).socket_handle.handle ≡ source.socket_handle.handle)
        × ((try_accept Y (both.0, w')).0 ≡ aborted)
  unfolding move_assign try_accept
  try_accept-move_assign target source w e _ = (
    refl,
    ap
        (λ b.
          (if b
            then call (accepted Y) (s1 target source w)
            else (aborted, moved target source w)).0)
        (ap is_listening e),
  )
    where
      moved : Acceptor → Acceptor → W → S Y
      moved target source w = let (both, w') = move_assign Y target source w in (both.0, w')

      s1 : Acceptor → Acceptor → W → S Y
      s1 target source w =
          (on_socket Y (λ p. Socket.set_blocking (layer Y) p 0 false) (moved target source w)).1
