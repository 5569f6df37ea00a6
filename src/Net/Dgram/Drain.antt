-- ===== src/Net/Dgram/Drain.antt =====
-- `clearRxBuff` returns.
use mart_common.Prelude.{
  ℕ, zero, suc, ◌%◌, ◌^◌, ◌<◌, ◌≡◌, inl, inr, refl, ap, ◌∙◌, Bool, false, Option, some,
  if◌then◌else◌, Bool-cases, arith,
}
use mathlib.Core.Path.{subst}
use mart_common.Prelude.Int.{ℤ, pos}
use mart_common.Containers.ArrayView.{ArrayView}
use mart_common.Net.Results.{ErrorCode, ReturnValue, succeeded, success, failure}
use mart_common.Net.Native.{System, Transfers, Handle, fd}
use mart_common.Net.Socket
use mart_common.Net.PortLayer
use mart_common.Net.PortLayer.{blocking_flags}
use mart_common.Net.Socket.{Process}
use mart_common.Net.Socket.System.{code-still}
use mart_common.Net.Transfer.{RecvResult}
use mart_common.Net.Throws.{Outcome, ok, thrown, aborted, ⊤}
use mart_common.Net.HighLevel.{Run, layer, alone, is_blocking, try_set_blocking}
use mart_common.Net.Dgram.{raii_recv}
use mart_common.Net.Dgram.Receive.{after, raii_recv_lem}
use mart_common.Net.Dgram.Throwing.{cleanup_error, clear_loop, clear_rx_buff}

-- A system in which no more datagrams arrive: how many wait, which each receive that succeeds
-- makes fewer, and which the flags of a socket do not change.
pub record Drains {W : Type 0} (Y : System W) (pending : W → ℕ) : Type 0 where
  pub recv_fewer :
      (w : W) (h : ℤ) (len flags n : ℕ)
      → (Y.recv_ h len flags w).0.0 ≡ some n
      → pending (Y.recv_ h len flags w).1 < pending w
  pub get_flags_same : (w : W) (h : ℤ) → pending (Y.get_flags h w).1 ≡ pending w
  pub set_flags_same : (w : W) (h : ℤ) (n : ℕ) → pending (Y.set_flags h n w).1 ≡ pending w

module _ {W : Type 0} (Y : System W) (pending : W → ℕ) (D : Drains Y pending) where
  port-pending :
      (o : Handle) (b : Bool) (w : W) → pending (PortLayer.set_blocking Y o b w).1 ≡ pending w
  unfolding PortLayer.set_blocking
  port-pending o b w =
      let (flags, v) = Y.get_flags (fd o) w in
      ap pending (code-still Y (Y.set_flags (fd o) (blocking_flags b flags) v))
      ∙ D.set_flags_same v (fd o) (blocking_flags b flags)
      ∙ D.get_flags_same w (fd o)

  uncached-pending :
      (b : Bool) (p : Process W)
      → pending (Socket.set_blocking_uncached (layer Y) p 0 b).1.system ≡ pending p.system
  unfolding Socket.set_blocking_uncached
  uncached-pending b p = ground (arith, port-pending (p.socks 0).handle b p.system)

module _ {W : Type 0} (Y : System W) (T : Transfers Y) (pending : W → ℕ) (D : Drains Y pending)
    {E : Type 0} where
  -- One turn of the loop.
  clear_loop_step :
      (fuel : ℕ) (v : ArrayView) (s : Run W E) (r : RecvResult)
      → raii_recv Y v s ≡ (ok r, after Y v s)
      → clear_loop Y (suc fuel) v s ≡ (
          if succeeded r.result
          then clear_loop Y fuel v (after Y v s)
          else some (ok tt, after Y v s))
  unfolding clear_loop
  clear_loop_step fuel v s r q =
      ap
        (λ (m : Outcome RecvResult × Run W E).
          let (o, s') = m in
          let rest = clear_loop Y fuel v s' in
          elim o [
            | ok res ↦ if succeeded res.result then rest else some (ok tt, s')
            | thrown e ↦ some (thrown e, s')
            | aborted ↦ some (aborted, s')
          ])
        q

  after-fewer :
      (v : ArrayView) (s : Run W E) (n : ℕ)
      → v.size < 2 ^ 31
      → (Y.recv_ (fd s.object.sock.handle) v.size 0 s.system).0.0 ≡ some n
      → pending (after Y v s).system < pending s.system
  unfolding after
  after-fewer v s n fits e =
      subst (λ k. pending (Y.recv_ (fd s.object.sock.handle) k 0 s.system).1 < pending s.system)
        {x = v.size} {y = v.size % 2 ^ 32} (omega arith)
        (D.recv_fewer s.system (fd s.object.sock.handle) v.size 0 n e)

  -- As many turns as receives succeed, then one that fails.
  clear_loop_total :
      (fuel : ℕ) (v : ArrayView) (s : Run W E)
      → v.size < 2 ^ 31
      → pending s.system < fuel
      → (s' : Run W E) × (clear_loop Y fuel v s ≡ some (ok tt, s')) × (s'.object ≡ s.object)
  unfolding clear_loop after
  clear_loop_total zero v s fits h = absurd (omega arith)
  clear_loop_total (suc fuel) v s fits h =
      let (r, q, c) = raii_recv_lem Y T v s fits in
      elim c [
        | inl (n, e, res, _) ↦
            let (s', found, same_) =
              clear_loop_total fuel v (after Y v s) fits
                (omega (arith, after-fewer v s n fits e)) in
            (s', clear_loop_step fuel v s r q ∙ taken fuel v s r.result n res ∙ found, same_)
        | inr (e, res, _) ↦
            (after Y v s, clear_loop_step fuel v s r q ∙ left fuel v s r.result _ res, refl)
      ]
    where
      turn : ℕ → ArrayView → Run W E → ReturnValue ℤ → Option (Outcome ⊤ × Run W E)
      turn fuel v s z =
          if succeeded z then clear_loop Y fuel v (after Y v s) else some (ok tt, after Y v s)

      taken :
          (fuel : ℕ) (v : ArrayView) (s : Run W E) (z : ReturnValue ℤ) (n : ℕ)
          → z ≡ success (pos n)
          → turn fuel v s z ≡ clear_loop Y fuel v (after Y v s)
      taken fuel v s z n e = ap (turn fuel v s) e

      left :
          (fuel : ℕ) (v : ArrayView) (s : Run W E) (z : ReturnValue ℤ) (c : ErrorCode)
          → z ≡ failure c
          → turn fuel v s z ≡ some (ok tt, after Y v s)
      left fuel v s z c e = ap (turn fuel v s) e

  flags-pending :
      (b : Bool) (s : Run W E) → pending (try_set_blocking Y b s).1.system ≡ pending s.system
  unfolding try_set_blocking Socket.set_blocking
  flags-pending b s = ground (arith, uncached-pending Y pending D b (alone s.object.sock s.system))

  -- If no more datagrams arrive, `clearRxBuff` returns: for a fuel above the number of datagrams
  -- that wait it has a result. It throws if and only if the socket cannot be switched to
  -- non-blocking mode, and it never ends the program.
  pub clear_rx_buff_total :
      (fuel stack : ℕ) (s : Run W E)
      → pending s.system < fuel
      → (s' : Run W E) × (clear_rx_buff Y fuel stack s
          ≡ some ((if (try_set_blocking Y false s).0 then ok tt else thrown cleanup_error), s'))
  unfolding clear_rx_buff
  clear_rx_buff_total fuel stack s h = elim (Bool-cases (try_set_blocking Y false s).0) [
    | inl done ↦
        let (s', found, _) =
          clear_loop_total fuel (record { data_ = stack; size = 64 }) (try_set_blocking Y false s).1
            (omega arith) (omega (arith, flags-pending false s)) in
        ((try_set_blocking Y (is_blocking Y s) s').1, rw (done, found) refl)
    | inr failed ↦
        ((try_set_blocking Y (is_blocking Y s) (try_set_blocking Y false s).1).1, rw failed refl)
  ]
