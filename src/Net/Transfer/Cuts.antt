-- ===== src/Net/Transfer/Cuts.antt =====
-- What is left after a send and what has come in after a receive.
use Prim.Native.Nat.{bit_and, bit_or}
use mart_common.Prelude.{
  ℕ, zero, suc, ◌+◌, ◌%◌, ◌^◌, ◌≤◌, ◌<◌, ◌≡◌, ◌≢◌, ◌⊎◌, Bool-cases, ltb, ltb→lt, ltb-false→le, [],
  ◌∷◌, inl, inr, refl, sym, ap, ◌∙◌, none, some, drop, length, take_all, Option, Option-cases,
  arith,
}
use mathlib.Core.Path.{subst}
use mart_common.Prelude.Int.{pos}
use mart_common.Prelude.Threads.{update, update_self, update_ne}
use mart_common.Text.{Bytes}
use mart_common.Containers.ArrayView.{ArrayView, null, sub_64, read, elements, subview}
use mart_common.Containers.ArrayView.Subviews.{
  sub_64_le, read-cong, read-drop, subview-some, subview_from-some,
}
use mart_common.Net.Results.{ErrorCode, success, failure}
use mart_common.Net.Native.{System, Transfers, Handle, fd, msg_trunc}
use mart_common.Net.PortLayer
use mart_common.Net.PortLayer.{get_last_socket_error, make_size, native_len, msg_nosignal}
use mart_common.Net.Transfer.{Memory, write, SendResult, RecvResult, sent, received, send, recv}

pub length-read : (m : Memory) (a n : ℕ) → length (read m a n) ≡ n
length-read m a zero = refl
length-read m a (suc n) = ap suc (length-read m (a + 1) n)

make_size_fits :
    {W : Type 0} (Y : System W) (n : ℕ) (w : W)
    → n < 2 ^ 31
    → make_size Y (some n) w ≡ success (pos n)
unfolding make_size
make_size_fits Y n w h = ground arith

sent-success :
    (m : Memory) (v : ArrayView) (n : ℕ)
    → v.size < 2 ^ 31
    → n ≤ v.size
    → (r : SendResult) × (sent v (success (pos n)) ≡ some r)
      × (r.result ≡ success (pos n))
      × (elements m r.remaining_data ≡ drop n (elements m v))
unfolding sent
sent-success m v n h l = (
  _,
  rw (sz, subview_from-some v n (record { fits = omega arith }) (omega arith)),
  refl,
  read-cong m _ _ _ _ refl (sub_64_le v.size n l (omega arith))
      ∙ sym (read-drop m n v.data_ v.size),
)
  where
    sz : n % 2 ^ 64 ≡ n
    sz = omega arith

write-below : (m : Memory) (bs : Bytes) (a k : ℕ) → k < a → write m a bs k ≡ m k
unfolding write
write-below m [] a k h = refl
write-below m (b ∷ bs) a k h =
    write-below (update m a b) bs (a + 1) k (omega arith) ∙ update_ne m a k b (omega arith)

write-above : (m : Memory) (bs : Bytes) (a k : ℕ) → a + length bs ≤ k → write m a bs k ≡ m k
unfolding write
write-above m [] a k h = refl
write-above m (b ∷ bs) a k h =
    write-above (update m a b) bs (a + 1) k (omega arith) ∙ update_ne m a k b (omega arith)

read-write : (m : Memory) (bs : Bytes) (a : ℕ) → read (write m a bs) a (length bs) ≡ bs
unfolding write
read-write m [] a = refl
read-write m (b ∷ bs) a =
    ap (λ c. c ∷ read (write (update m a b) (a + 1) bs) (a + 1) (length bs))
      (write-below (update m a b) bs (a + 1) a (omega arith) ∙ update_self m a b)
    ∙ ap (◌∷◌ b) (read-write (update m a b) bs (a + 1))

received-success :
    (m : Memory) (v : ArrayView) (bs : Bytes)
    → v.size < 2 ^ 31
    → length bs ≤ v.size
    → (r : RecvResult) × (received v (success (pos (length bs))) ≡ some r)
      × (r.result ≡ success (pos (length bs)))
      × (elements (write m v.data_ bs) r.received_data ≡ bs)
unfolding received
received-success m v bs h l = (
  record {
    received_data = record { data_ = v.data_ + 0; size = length bs };
    result = success (pos (length bs));
  },
  rw (sz, subview-some v 0 (length bs) (omega arith)),
  refl,
  read-cong (write m v.data_ bs) _ v.data_ _ (length bs) (omega arith) refl
      ∙ read-write m bs v.data_,
)
  where
    sz : length bs % 2 ^ 64 ≡ length bs
    sz = omega arith

sent-failure :
    (m : Memory) (v : ArrayView) (e : ErrorCode)
    → v.size < 2 ^ 31
    → (r : SendResult) × (sent v (failure e) ≡ some r)
      × (r.result ≡ failure e)
      × (elements m r.remaining_data ≡ elements m v)
unfolding sent
sent-failure m v e h = (
  record {
    remaining_data = record { data_ = v.data_ + 0; size = sub_64 v.size 0 };
    result = failure e;
  },
  rw (subview_from-some v 0 (record { fits = omega arith }) (omega arith)),
  refl,
  read-cong m (v.data_ + 0) v.data_ (sub_64 v.size 0) v.size (omega arith) (omega arith),
)

module _ {W : Type 0} (Y : System W) (T : Transfers Y) where
  -- For a view of fewer than 2 ^ 31 bytes, `send` never ends the program. If the system takes n
  -- bytes, the result is n and the remaining data is the view without its first n bytes; if it
  -- refuses, the result is its error and all data remains.
  pub send_lem :
      (m : Memory) (h : Handle) (v : ArrayView) (flags : ℕ) (w : W)
      → v.size < 2 ^ 31
      → let (o, w') = Y.send_ (fd h) (elements m v) (bit_or flags msg_nosignal) w in
        (r : SendResult) × (send Y m h v flags w ≡ (some r, w'))
        × (((n : ℕ) × (o ≡ some n)
              × (n ≤ v.size)
              × (r.result ≡ success (pos n))
              × (elements m r.remaining_data ≡ drop n (elements m v)))
            ⊎ ((o ≡ none)
                × (r.result ≡ failure (get_last_socket_error Y w'))
                × (elements m r.remaining_data ≡ elements m v)))
  unfolding send PortLayer.send native_len
  send_lem m h v flags w fits = elim (Option-cases out.0) [
    | inl e ↦
        let (r, q, res, left) = sent-failure m v (get_last_socket_error Y out.1) fits in
        (
          r,
          step ∙ ap (λ z. (sent v (make_size Y z out.1), out.1)) e ∙ ap (λ z. (z, out.1)) q,
          inr (e, res, left),
        )
    | inr (n, e) ↦
        let le : n ≤ v.size =
          subst (λ k. n ≤ k) (length-read m v.data_ v.size)
            (T.send_le w (fd h) (elements m v) _ n e) in
        let (r, q, res, left) = sent-success m v n fits le in
        (
          r,
          step
              ∙ ap (λ z. (sent v (make_size Y z out.1), out.1)) e
              ∙ ap (λ z. (sent v z, out.1)) (make_size_fits Y n out.1 (omega arith))
              ∙ ap (λ z. (z, out.1)) q,
          inl (n, e, le, res, left),
        )
  ]
    where
      out : Option ℕ × W
      out = Y.send_ (fd h) (elements m v) (bit_or flags msg_nosignal) w

      step : send Y m h v flags w ≡ (sent v (make_size Y out.0 out.1), out.1)
      step =
          ap
            (λ bs.
              let (r, w') = Y.send_ (fd h) bs (bit_or flags msg_nosignal) w in
              (sent v (make_size Y r w'), w'))
            (take_all (native_len (length (elements m v))) (elements m v)
              (omega (arith, length-read m v.data_ v.size)))

  pub recv_lem :
      (m : Memory) (h : Handle) (v : ArrayView) (flags : ℕ) (w : W)
      → v.size < 2 ^ 31
      → let (o, bs) = (Y.recv_ (fd h) v.size flags w).0 in
        let (a, m', w') = recv Y m h v flags w in
        ((n : ℕ) × (o ≡ some n)
          × (n ≤ v.size)
          × (r : RecvResult) × (a ≡ some r)
          × (r.result ≡ success (pos n))
          × (elements m' r.received_data ≡ bs)
          × ((k : ℕ) → (k < v.data_) ⊎ (v.data_ + n ≤ k) → m' k ≡ m k))
        ⊎ ((n : ℕ) × (o ≡ some n)
            × (v.size < n)
            × (bit_and flags msg_trunc ≢ 0)
            × (n < 2 ^ 31 → a ≡ none))
        ⊎ ((o ≡ none)
            × (r : RecvResult) × (a ≡ some r)
            × (r.result ≡ failure (get_last_socket_error Y w'))
            × (r.received_data ≡ null))
  unfolding recv PortLayer.recv native_len received
  recv_lem m h v flags w fits = subst Cases (sym step) (elim (Option-cases out.0.0) [
    | inl e ↦ inr (
        inr (
          e,
          record { received_data = null; result = failure (get_last_socket_error Y out.1) },
          ap (λ o. received v (make_size Y o out.1)) e,
          refl,
          refl,
        ))
    | inr (n, e) ↦ elim (Bool-cases (ltb v.size n)) [
      | inl more ↦
          let over = ltb→lt v.size n more in
          inr (
            inl (
              n,
              e,
              over,
              λ plain. absurd (omega (arith, over, T.recv_le w (fd h) v.size flags n plain e)),
              λ small.
                  ap (λ o. received v (make_size Y o out.1)) e
                  ∙ ap (received v) (make_size_fits Y n out.1 small)
                  ∙ too_many n over small,
            ))
      | inr less ↦
          let le = ltb-false→le v.size n less in
          let len : length out.0.1 ≡ n =
            T.recv_written w (fd h) v.size flags n e ∙ omega (arith, le) in
          let (r, q, res, shown) = received-success m v out.0.1 fits (omega (arith, len, le)) in
          inl (
            n,
            e,
            le,
            r,
            ap (λ o. received v (make_size Y o out.1)) e
                ∙ ap (received v) (make_size_fits Y n out.1 (omega (arith, le, fits)))
                ∙ ap (λ k. received v (success (pos k))) (sym len)
                ∙ q,
            res ∙ ap (λ k. success (pos k)) len,
            shown,
            λ k far. kept k n len far,
          )
    ]
  ])
    where
      out : (Option ℕ × Bytes) × W
      out = Y.recv_ (fd h) v.size flags w

      Cases : Option RecvResult × Memory × W → Type 0
      Cases t =
          ((n : ℕ) × (out.0.0 ≡ some n)
            × (n ≤ v.size)
            × (r : RecvResult) × (t.0 ≡ some r)
            × (r.result ≡ success (pos n))
            × (elements t.1 r.received_data ≡ out.0.1)
            × ((k : ℕ) → (k < v.data_) ⊎ (v.data_ + n ≤ k) → t.1 k ≡ m k))
          ⊎ ((n : ℕ) × (out.0.0 ≡ some n)
              × (v.size < n)
              × (bit_and flags msg_trunc ≢ 0)
              × (n < 2 ^ 31 → t.0 ≡ none))
          ⊎ ((out.0.0 ≡ none)
              × (r : RecvResult) × (t.0 ≡ some r)
              × (r.result ≡ failure (get_last_socket_error Y t.2))
              × (r.received_data ≡ null))

      step :
          recv Y m h v flags w
          ≡ (received v (make_size Y out.0.0 out.1), write m v.data_ out.0.1, out.1)
      step =
          ap
            (λ k.
              let (r, w') = Y.recv_ (fd h) k flags w in
              (received v (make_size Y r.0 w'), write m v.data_ r.1, w'))
            {x = native_len v.size} {y = v.size} (omega arith)

      too_many : (n : ℕ) → v.size < n → n < 2 ^ 31 → received v (success (pos n)) ≡ none
      too_many n over small = rw (fits_64 n small, subview) (ground (arith, over, small))
        where
          fits_64 : (n : ℕ) → n < 2 ^ 31 → n % 2 ^ 64 ≡ n
          fits_64 n small = omega (arith, small)

      kept :
          (k n : ℕ)
          → length out.0.1 ≡ n
          → (k < v.data_) ⊎ (v.data_ + n ≤ k)
          → write m v.data_ out.0.1 k ≡ m k
      kept k n len (inl below) = write-below m out.0.1 v.data_ k below
      kept k n len (inr above) = write-above m out.0.1 v.data_ k (omega (arith, len, above))
