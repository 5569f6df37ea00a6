-- ===== src/Net/Dgram/Receive.antt =====
-- What a receive of RaiiSocket does to the object that calls it.
use mart_common.Prelude.{ℕ, ◌^◌, ◌<◌, ◌≡◌, ◌⊎◌, inl, inr, refl, ap, none, some}
use mart_common.Prelude.Int.{pos}
use mart_common.Containers.ArrayView.{ArrayView, null, elements}
use mart_common.Net.Results.{success, failure}
use mart_common.Net.Native.{System, Transfers, fd}
use mart_common.Net.PortLayer.{get_last_socket_error}
use mart_common.Net.Transfer
use mart_common.Net.Transfer.{RecvResult}
use mart_common.Net.Transfer.Cuts.{recv_lem}
use mart_common.Net.Throws.{ok}
use mart_common.Net.HighLevel.{Run}
use mart_common.Net.Dgram.{or_abort, raii_recv}

module _ {W : Type 0} (Y : System W) {E : Type 0} where
  -- The state after it.
  unfoldable pub after : ArrayView → Run W E → Run W E
  unfolding Transfer.recv
  after v s =
      let (_, m, w) = Transfer.recv Y s.memory s.object.sock.handle v 0 s.system in
      record s { memory = m; system = w }

module _ {W : Type 0} (Y : System W) (T : Transfers Y) {E : Type 0} where
  pub raii_recv_lem :
      (v : ArrayView) (s : Run W E)
      → v.size < 2 ^ 31
      → let (o, bs) = (Y.recv_ (fd s.object.sock.handle) v.size 0 s.system).0 in
        let s' = after Y v s in
        (r : RecvResult) × (raii_recv Y v s ≡ (ok r, s'))
        × (((n : ℕ) × (o ≡ some n)
              × (r.result ≡ success (pos n))
              × (elements s'.memory r.received_data ≡ bs))
            ⊎ ((o ≡ none)
                × (r.result ≡ failure (get_last_socket_error Y s'.system))
                × (r.received_data ≡ null)))
  unfolding raii_recv after
  raii_recv_lem v s fits = elim (recv_lem Y T s.memory s.object.sock.handle v 0 s.system fits) [
    | inl (n, e, _, r, q, res, shown, _) ↦
        (r, ap (λ o. or_abort o (after Y v s)) q, inl (n, e, res, shown))
    | inr (inl (n, _, _, flagged, _)) ↦ absurd (flagged refl)
    | inr (inr (e, r, q, res, none_)) ↦
        (r, ap (λ o. or_abort o (after Y v s)) q, inr (e, res, none_))
  ]
