-- ===== src/Net/Dgram/Errors.antt =====
-- The members that throw against those that start with `try_`.
use mart_common.Prelude.{
  ℕ, [], ◌∷◌, if◌then◌else◌, Bool-cases, ℕ_discrete, ap, ◌∙◌, ◌≡◌, ◌≢◌, ◌⊎◌, inl, inr, refl, Bool,
  true, false, ◌<◌, ◌^◌, none, some, arith,
}
use mart_common.Prelude.Int.{ℤ, pos, negsuc, ◌==ℤ◌}
use mart_common.Text.{Bytes, codes}
use mart_common.Containers.ArrayView.{ArrayView, null, elements}
use mart_common.Net.Results.{ErrorCode, is_ok, ReturnValue, failure, succeeded, error_code}
use mart_common.Net.Enums.{Direction, tx, rx}
use mart_common.Net.Native.{System, Transfers, fd}
use mart_common.Net.PortLayer.{get_last_socket_error, close_socket, get_appropriate_error_code}
use mart_common.Net.Transfer.{RecvResult, SendResult}
use mart_common.Net.Throws.{
  throw_unless, throw, Exception, Outcome, ok, thrown, aborted, ⊤, ◌>>=◌, ◌>>◌, pure,
}
use mart_common.Net.Socket
use mart_common.Net.HighLevel
use mart_common.Net.HighLevel.{Run, on_system, try_get_timeout, try_close, put_local, put_remote}
use mart_common.Net.Dgram.{
  EndpointType, try_bind, try_connect, raii_send, try_send, raii_recv, try_recv, is_no_data,
}
use mart_common.Net.Dgram.Receive.{after, raii_recv_lem}
use mart_common.Net.Dgram.Throwing.{bind, connect, send, close, recv, throw_if_failed, with_code}

-- A call that throws just where the other reports a failure, and leaves the same state.
abbrev pub Agrees : {S : Type 0} → Outcome ⊤ × S → Bool × S → Type 0
Agrees r t =
    (r.1 ≡ t.1)
    × (((t.0 ≡ true) × (r.0 ≡ ok tt)) ⊎ ((t.0 ≡ false) × (e : Exception) × (r.0 ≡ thrown e)))

-- The same for a call that returns whether it succeeded.
abbrev pub Reports : {S : Type 0} → Outcome ⊤ × S → Outcome Bool × S → Type 0
Reports r (ok b, t) = Agrees r (b, t)
Reports r (thrown e, t) = (r.0 ≡ thrown e) × (r.1 ≡ t)
Reports r (aborted, t) = (r.0 ≡ aborted) × (r.1 ≡ t)

-- The same for a call that returns a time, or -1 if it fails.
abbrev pub Read : {S : Type 0} → Outcome ℤ × S → ℤ × S → Type 0
Read r t =
    (r.1 ≡ t.1)
    × (((t.0 ≢ negsuc 0) × (r.0 ≡ ok t.0))
        ⊎ ((t.0 ≡ negsuc 0) × (e : Exception) × (r.0 ≡ thrown e)))

abbrev pub reported : {S : Type 0} → ErrorCode × S → Bool × S
reported r = (is_ok r.0, r.1)

module _ {W : Type 0} (Y : System W) {E : Type 0} (P : EndpointType E)
    (text : ErrorCode → Bytes) where
  call-Agrees : (m : Bool × Run W E) (e : Run W E → Exception) → Agrees (throw_unless m.0 e m.1) m
  call-Agrees (true, s) e = (refl, inl (refl, refl))
  call-Agrees (false, s) e = (refl, inr (refl, e s, refl))

  sent-Reports :
      (v : ArrayView) (s : Run W E) (t : Outcome SendResult × Run W E)
      → Reports
          ((◌>>=◌
              (λ _. t)
              (λ res. throw_unless (succeeded res.result) (
                with_code Y text
                  (error_code res.result)
                  (codes "Failed to send data. Details:  " ∷ []))))
            s)
          ((◌>>=◌ (λ _. t) (λ r. pure (succeeded r.result))) s)
  sent-Reports v s (ok r, t) = call-Agrees (succeeded r.result, t) _
  sent-Reports v s (thrown e, t) = (refl, refl)
  sent-Reports v s (aborted, t) = (refl, refl)

  get_timeout-Read :
      (d : Direction) (s : Run W E) (t : ℤ × Run W E)
      → Read
          ((◌>>=◌
              (λ _. (ok t.0, t.1))
              (λ z.
                if z ==ℤ negsuc 0
                then throw (
                    HighLevel.last_error Y text (
                      elim d [
                        | tx ↦ codes "Could not determine tx_timeout on socket"
                        | rx ↦ codes "Could not determine rx_timeout on socket"
                      ]
                      ∷ []))
                else pure z))
            s)
          t
  get_timeout-Read d s (t, s') = elim (Bool-cases (t ==ℤ negsuc 0)) [
    | inl same_ ↦ rw same_ (refl, inr (ground (arith, same_), _, refl))
    | inr differ ↦ rw differ (refl, inl (λ e. ground (arith, e, differ), refl))
  ]

  closed :
      (s : Run W E)
      → let call = Y.close_ (fd s.object.sock.handle) s.system in
        Agrees (close Y text P s) (
          is_ok (get_appropriate_error_code Y call).0,
          record s {
            object = record {
              sock = record { handle = none; blocking = s.object.sock.blocking };
              ep_local = P.default_;
              ep_remote = P.default_;
            };
            system = call.1;
          },
        )
  unfolding close HighLevel.close try_close Socket.close close_socket get_appropriate_error_code
      ℕ_discrete
  closed s = elim (Bool-cases ((Y.close_ (fd s.object.sock.handle) s.system).0 ==ℤ pos 0)) [
    | inl fine ↦ rw fine (refl, inl (refl, refl))
    | inr failed ↦ rw failed (call-Agrees (_, _) _)
  ]

  -- `bind`, `connect` and `send` throw exactly where the member that starts with `try_` reports a
  -- failure, and leave the same state; a failed `bind` or `connect` leaves the endpoints as they
  -- were. `get_tx_timeout` and `get_rx_timeout` throw exactly where the member that starts with
  -- `try_` returns -1, and return the same time otherwise. `close` throws exactly where the one
  -- close of the handle gives an error code; the socket has no handle and the default endpoints
  -- after it, whether it throws or not.
  pub throwing-Agrees :
      (ep : E) (v : ArrayView) (d : Direction) (s : Run W E)
      → Agrees (bind Y text P ep s) (reported (try_bind Y P ep s))
        × Agrees (connect Y text P ep s) (reported (try_connect Y P ep s))
        × Reports (send Y text v s) (try_send Y v s)
        × (is_ok (try_bind Y P ep s).0 ≡ false → (try_bind Y P ep s).1.object ≡ s.object)
        × (is_ok (try_connect Y P ep s).0 ≡ false → (try_connect Y P ep s).1.object ≡ s.object)
        × Read (HighLevel.get_timeout Y text d s) (try_get_timeout Y d s)
        × (let call = Y.close_ (fd s.object.sock.handle) s.system in
            Agrees (close Y text P s) (
              is_ok (get_appropriate_error_code Y call).0,
              record s {
                object = record {
                  sock = record { handle = none; blocking = s.object.sock.blocking };
                  ep_local = P.default_;
                  ep_remote = P.default_;
                };
                system = call.1;
              },
            ))
  unfolding bind try_bind connect try_connect send try_send HighLevel.get_timeout
  throwing-Agrees ep v d s = (
    ground arith,
    ground arith,
    sent-Reports v s (raii_send Y v s),
    λ e. ground (arith, e),
    λ e. ground (arith, e),
    get_timeout-Read d s (try_get_timeout Y d s),
    closed s,
  )

module _ {W : Type 0} (Y : System W) (T : Transfers Y) {E : Type 0} (text : ErrorCode → Bytes) where
  -- For a buffer of fewer than 2 ^ 31 bytes, `try_recv` returns the bytes that the system has
  -- received, or a view of nothing if it fails. `recv` does the same, but throws if the system
  -- fails with an error other than those for no data.
  pub recv-try_recv :
      (v : ArrayView) (s : Run W E)
      → v.size < 2 ^ 31
      → let (o, bs) = (Y.recv_ (fd s.object.sock.handle) v.size 0 s.system).0 in
        (r : ArrayView) × (s' : Run W E) × (try_recv Y v s ≡ (ok r, s'))
        × (((n : ℕ) × (o ≡ some n) × (elements s'.memory r ≡ bs) × (recv Y text v s ≡ (ok r, s')))
            ⊎ ((o ≡ none)
                × (r ≡ null)
                × (is_no_data (get_last_socket_error Y s'.system) ≡ true
                    → recv Y text v s ≡ (ok r, s'))
                × (is_no_data (get_last_socket_error Y s'.system) ≡ false
                    → (e : Exception) × (recv Y text v s ≡ (thrown e, s')))))
  unfolding try_recv recv
  recv-try_recv v s fits =
      let (r, q, c) = raii_recv_lem Y T v s fits in
      (
        r.received_data,
        after Y v s,
        ap (λ m. (◌>>=◌ (λ _. m) (λ z. pure z.received_data)) s) q,
        elim c [
          | inl (n, e, res, shown) ↦
              inl (n, e, shown, full r q ∙ ap (λ z. tail z r.received_data) res)
          | inr (e, res, none_) ↦ inr (
            e,
            none_,
            λ quiet.
                full r q ∙ ap (λ z. tail z r.received_data) res ∙ no_data err r.received_data quiet,
            λ loud. (
              (failed err r.received_data loud).0,
              full r q ∙ ap (λ z. tail z r.received_data) res ∙ (failed err r.received_data loud).1,
            ),
          )
        ],
      )
    where
      err : ErrorCode
      err = get_last_socket_error Y (after Y v s).system

      tail : ReturnValue ℤ → ArrayView → Outcome ArrayView × Run W E
      tail res a = (throw_if_failed Y text res >> pure a) (after Y v s)

      full :
          (r : RecvResult)
          → raii_recv Y v s ≡ (ok r, after Y v s)
          → recv Y text v s ≡ tail r.result r.received_data
      full r q =
          ap
            (λ m. (◌>>=◌ (λ _. m) (λ z. throw_if_failed Y text z.result >> pure z.received_data)) s)
            q

      no_data :
          (e : ErrorCode) (a : ArrayView)
          → is_no_data e ≡ true
          → tail (failure e) a ≡ (ok a, after Y v s)
      no_data e a quiet = rw quiet refl

      failed :
          (e : ErrorCode) (a : ArrayView)
          → is_no_data e ≡ false
          → (x : Exception) × (tail (failure e) a ≡ (thrown x, after Y v s))
      failed e a loud = (
        with_code Y text e (codes "Failed to receive data. Details:  " ∷ []) (after Y v s),
        rw loud refl,
      )
