-- ===== src/Net/Tcp/Send.antt =====
-- What `tcp::Socket::send` sends, and when it throws.
use Prim.Native.Nat.{bit_or}
use mart_common.Prelude.{
  ℕ, zero, suc, ◌^◌, ◌≤◌, ◌<◌, ◌≡◌, ◌≢◌, ◌⊎◌, inl, inr, refl, sym, ap, ◌∙◌, Bool, true, false,
  Option, none, some, ◌==◌, drop, length, length-drop, eq→beq, ne→beq, ℕ_discrete, arith,
}
use mart_common.Prelude.Int.{ℤ, pos, ◌==ℤ◌}
use mart_common.Text.{Bytes}
use mart_common.Containers.ArrayView.{ArrayView, elements, empty}
use mart_common.Net.Results.{ErrorCode, ReturnValue, success, failure}
use mart_common.Net.Endpoint.{EndpointV4}
use mart_common.Net.Native.{System, Transfers, fd}
use mart_common.Net.PortLayer.{msg_nosignal}
use mart_common.Net.Transfer.{SendResult}
use mart_common.Net.Transfer.Cuts.{length-read, send_lem}
use mart_common.Net.Throws.{Exception, ok, thrown, ◌>>=◌}
use mart_common.Net.HighLevel.{Run}
use mart_common.Net.Dgram.{narrow_size, tx_was_success, or_abort, raii_send}
use mart_common.Net.Tcp.{check_sent, send_once, send}

narrow_size-some : (n : ℕ) → n < 2 ^ 31 → narrow_size n ≡ some (pos n)
unfolding narrow_size
narrow_size-some n h = ground arith

-- `_txWasSuccess` by its two parts.
judge : ReturnValue ℤ → Option ℤ → Option Bool
judge (success n) none = none
judge (success n) (some size) = some (size ==ℤ n)
judge (failure e) o = some false

tx-judge :
    (v : ArrayView) (r : SendResult) → tx_was_success v r ≡ judge r.result (narrow_size v.size)
unfolding tx_was_success judge
tx-judge v r = ground arith

module _ {W : Type 0} (Y : System W) where
  -- What the system does with the bytes of a view, and the state after it.
  abbrev pub took : ArrayView → Run W EndpointV4 → Option ℕ × W
  took v s =
      Y.send_ (fd s.object.sock.handle) (elements s.memory v) (bit_or 0 msg_nosignal) s.system

  abbrev pub sent_all : ArrayView → Run W EndpointV4 → Run W EndpointV4
  sent_all v s = record s { system = (took v s).1 }

module _ {W : Type 0} (Y : System W) (T : Transfers Y) (text : ErrorCode → Bytes)
    (to_string_ex : EndpointV4 → Bytes) where
  send_once-checked :
      (v : ArrayView) (s s' : Run W EndpointV4) (r : SendResult) (o : Option Bool)
      → raii_send Y v s ≡ (ok r, s')
      → tx_was_success v r ≡ o
      → send_once Y text to_string_ex v s ≡ check_sent Y text to_string_ex o r s'
  unfolding send_once
  send_once-checked v s s' r o q e =
      ap
        (λ m. (◌>>=◌ (λ _. m) (λ res. check_sent Y text to_string_ex (tx_was_success v res) res)) s)
        q
      ∙ ap (λ z. check_sent Y text to_string_ex z r s') e

  -- One turn, for a view of fewer than 2 ^ 31 bytes: all is sent, or it throws.
  send_once_lem :
      (v : ArrayView) (s : Run W EndpointV4)
      → v.size < 2 ^ 31
      → ((r : ArrayView) × ((took Y v s).0 ≡ some v.size)
          × (r.size ≡ 0)
          × (send_once Y text to_string_ex v s ≡ (ok r, sent_all Y v s)))
        ⊎ (((took Y v s).0 ≢ some v.size)
            × (e : Exception) × (send_once Y text to_string_ex v s ≡ (thrown e, sent_all Y v s)))
  unfolding check_sent raii_send judge
  send_once_lem v s fits =
      let (r, q, c) = send_lem Y T s.memory s.object.sock.handle v 0 s.system fits in
      let q' : raii_send Y v s ≡ (ok r, sent_all Y v s) =
        ap (λ p. or_abort p.0 (record s { system = p.1 })) q in
      elim c [
        | inl (n, e, le, res, left) ↦
            let judged : tx_was_success v r ≡ some (v.size == n) =
              tx-judge v r
              ∙ ap (λ z. judge z (narrow_size v.size)) res
              ∙ ap (judge (success (pos n))) (narrow_size-some v.size fits) in
            elim (ℕ_discrete v.size n) [
              | yes z ↦ inl (
                r.remaining_data,
                e ∙ ap some (sym z),
                nothing_left s v r n z left,
                send_once-checked v s (sent_all Y v s) r (some true) q'
                    (judged ∙ ap some (eq→beq v.size n z)),
              )
              | no ne ↦ inr (
                λ all. ne (ground (arith, e, all)),
                _,
                send_once-checked v s (sent_all Y v s) r (some false) q'
                    (judged ∙ ap some (ne→beq v.size n ne)),
              )
            ]
        | inr (e, res, _) ↦ inr (
          λ all. ground (arith, e, all),
          _,
          send_once-checked v s (sent_all Y v s) r (some false) q'
              (tx-judge v r ∙ ap (λ z. judge z (narrow_size v.size)) res),
        )
      ]
    where
      nothing_left :
          (s : Run W EndpointV4) (v : ArrayView) (r : SendResult) (n : ℕ)
          → v.size ≡ n
          → elements s.memory r.remaining_data ≡ drop n (elements s.memory v)
          → r.remaining_data.size ≡ 0
      nothing_left s v r n z left = omega (
        arith,
        length-read s.memory r.remaining_data.data_ r.remaining_data.size,
        ap length left,
        length-drop n (elements s.memory v),
        length-read s.memory v.data_ v.size,
      )

  -- For a view of fewer than 2 ^ 31 bytes, two turns are enough: `send` returns if the view is empty
  -- or the system takes all of it in one call, and throws otherwise, after one call. A system that
  -- takes a part only is an error too.
  pub send_total :
      (fuel : ℕ) (v : ArrayView) (s : Run W EndpointV4)
      → v.size < 2 ^ 31
      → 2 ≤ fuel
      → ((v.size ≡ 0) × (send Y text to_string_ex fuel v s ≡ some (ok tt, s)))
        ⊎ ((v.size ≢ 0)
            × ((took Y v s).0 ≡ some v.size)
            × (send Y text to_string_ex fuel v s ≡ some (ok tt, sent_all Y v s)))
        ⊎ ((v.size ≢ 0)
            × ((took Y v s).0 ≢ some v.size)
            × (e : Exception) × (send Y text to_string_ex fuel v s
                ≡ some (thrown e, sent_all Y v s)))
  unfolding send empty
  send_total zero v s fits enough = absurd (omega arith)
  send_total (suc zero) v s fits enough = absurd (omega arith)
  send_total (suc (suc fuel)) v s fits enough = elim (ℕ_discrete v.size 0) [
    | yes none_ ↦ inl (none_, rw (eq→beq v.size 0 none_) refl)
    | no more ↦ elim (send_once_lem v s fits) [
      | inl (r, all, gone, q) ↦ inr (
          inl (
            more,
            all,
            rw (ne→beq v.size 0 more, q, eq→beq r.size 0 gone) (ap (λ p. some (ok tt, p.1)) q),
          ))
      | inr (part, e, q) ↦
          inr (inr (more, part, e, rw (ne→beq v.size 0 more, q) (ap (λ p. some (thrown e, p.1)) q)))
    ]
  ]
