-- ===== src/Net/Dgram/Tests.antt =====
-- A datagram socket on the simulated system.
use mart_common.Prelude.{
  ℕ, ◌≡◌, ◌⊎◌, refl, true, false, [], ◌∷◌, Option, none, some, if◌then◌else◌, arith,
}
use mart_common.Prelude.Int.{pos}
use mart_common.Text.{Bytes, codes}
use mart_common.Containers.ArrayView.{ArrayView, null, elements}
use mart_common.Net.Results.{ErrorCode, is_ok}
use mart_common.Net.Enums.{rx}
use mart_common.Net.Simulated.{
  World, quiet, simulated, simulated-OpensAndCloses, simulated-Transfers, pending, simulated-fewer,
}
use mart_common.Net.Udp.{un_endpoint}
use mart_common.Net.PortLayer.{get_appropriate_error_code}
use mart_common.Net.Throws.{Exception, ok, thrown}
use mart_common.Net.HighLevel
use mart_common.Net.HighLevel.{Run, try_set_blocking, try_get_timeout}
use mart_common.Net.Dgram.{try_bind, try_connect, try_send, try_recv, is_no_data}
use mart_common.Net.Dgram.Throwing.{
  bind, connect, send, close, recv, make_connected, clear_rx_buff, cleanup_error,
}
use mart_common.Net.Dgram.Errors.{Agrees, Reports, Read, reported, throwing-Agrees, recv-try_recv}
use mart_common.Net.Dgram.Drain.{Drains, clear_rx_buff_total}
use mart_common.Net.Dgram.Construct.{Clean, make_connected-Clean}

abbrev text : ErrorCode → Bytes
text e = codes "error"

abbrev socket_with : World → Run World Bytes
socket_with w = record {
  object = record {
    sock = record { handle = some 3; blocking = true };
    ep_local = codes "/tmp/a";
    ep_remote = codes "/tmp/b";
  };
  memory = λ k. 0;
  system = w;
}

abbrev waiting_two : World
waiting_two = record {
  next = 4;
  live = λ k. true;
  waiting = (7 ∷ 8 ∷ []) ∷ (9 ∷ []) ∷ [];
  option = [];
}

abbrev view : ArrayView
view = record { data_ = 100; size = 8 }

throwing-Agrees_example :
    let s = socket_with quiet in
    let ep = codes "/tmp/c" in
    Agrees (bind simulated text un_endpoint ep s) (reported (try_bind simulated un_endpoint ep s))
    × Agrees
        (connect simulated text un_endpoint ep s)
        (reported (try_connect simulated un_endpoint ep s))
    × Reports (send simulated text view s) (try_send simulated view s)
    × (is_ok (try_bind simulated un_endpoint ep s).0 ≡ false
        → (try_bind simulated un_endpoint ep s).1.object ≡ s.object)
    × (is_ok (try_connect simulated un_endpoint ep s).0 ≡ false
        → (try_connect simulated un_endpoint ep s).1.object ≡ s.object)
    × Read (HighLevel.get_timeout simulated text rx s) (try_get_timeout simulated rx s)
    × Agrees (close simulated text un_endpoint s) (
      true,
      record {
        object = record {
          sock = record { handle = none; blocking = true };
          ep_local = [];
          ep_remote = [];
        };
        memory = λ k. 0;
        system = (simulated.close_ (pos 3) quiet).1;
      },
    )
unfolding un_endpoint get_appropriate_error_code
throwing-Agrees_example =
    throwing-Agrees simulated un_endpoint text (codes "/tmp/c") view rx (socket_with quiet)

recv-try_recv_example :
    let s = socket_with waiting_two in
    (r : ArrayView) × (s' : Run World Bytes) × (try_recv simulated view s ≡ (ok r, s'))
    × (((n : ℕ) × (◌≡◌ {A = Option ℕ} (some 2) (some n))
          × (elements s'.memory r ≡ 7 ∷ 8 ∷ [])
          × (recv simulated text view s ≡ (ok r, s')))
        ⊎ ((◌≡◌ {A = Option ℕ} (some 2) none)
            × (r ≡ null)
            × (is_no_data (record { value = pos 11 }) ≡ true
                → recv simulated text view s ≡ (ok r, s'))
            × (is_no_data (record { value = pos 11 }) ≡ false
                → (e : Exception) × (recv simulated text view s ≡ (thrown e, s')))))
recv-try_recv_example =
    recv-try_recv simulated simulated-Transfers text view (socket_with waiting_two) (omega arith)

simulated-Drains : Drains simulated pending
simulated-Drains = record {
  recv_fewer = simulated-fewer;
  get_flags_same = λ w h. refl;
  set_flags_same = λ w h n. refl;
}

clear_rx_buff_total_example :
    let s = socket_with waiting_two in
    (s' : Run World Bytes) × (clear_rx_buff simulated 3 500 s
      ≡ some ((if (try_set_blocking simulated false s).0 then ok tt else thrown cleanup_error), s'))
clear_rx_buff_total_example =
    clear_rx_buff_total simulated simulated-Transfers pending simulated-Drains 3 500
      (socket_with waiting_two) (omega arith)

make_connected-Clean_example :
    Clean simulated simulated-OpensAndCloses un_endpoint text quiet
      (make_connected simulated text un_endpoint (codes "/tmp/a") (codes "/tmp/b") (λ k. 0) quiet)
make_connected-Clean_example =
    make_connected-Clean simulated simulated-OpensAndCloses un_endpoint text (codes "/tmp/a")
      (codes "/tmp/b") (λ k. 0) quiet
