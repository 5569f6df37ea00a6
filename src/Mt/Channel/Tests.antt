-- ===== src/Mt/Channel/Tests.antt =====
-- Two values sent, one of them received.
use mart_common.Prelude.{ℕ, ◌≡◌, refl, true, false, [], ◌∷◌, ◌++◌, some}
use mart_common.Mt.Channel.{
  Channel, Received, send, try_receive, take_front, receive, wakes, System, Reach, here, next,
  sends, tries,
}
use mart_common.Mt.Channel.Order.{Reach-order}

abbrev after : System ℕ
after = record {
  channel = record { fifo = 8 ∷ []; cancel = false };
  sent = 7 ∷ 8 ∷ [];
  left = 7 ∷ [];
}

after-Reach : Reach after
unfolding send try_receive take_front
after-Reach = next (next (next here (sends 7)) (sends 8)) (tries 7 after.channel refl)

Reach-order_example :
    (after.sent ≡ after.left ++ after.channel.fifo)
    × (wakes after.channel ≡ true → (r : Received ℕ × Channel ℕ) × (receive after.channel ≡ some r))
Reach-order_example = Reach-order after-Reach
