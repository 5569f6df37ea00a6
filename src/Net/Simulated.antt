-- ===== src/Net/Simulated.antt =====
-- A system that computes, for examples: it numbers its handles, keeps the last option, and has a
-- list of datagrams that wait.
use mart_common.Prelude.{
  ℕ, suc, ◌≤◌, ◌<◌, min, ◌≡◌, refl, sym, ap, Bool, true, false, ◌&&◌, List, [], ◌∷◌, Option, none,
  some, ltb, take, length, length-take, arith,
}
use mart_common.Prelude.Int.{ℤ, pos, negsuc}
use mart_common.Prelude.Threads.{update, update_self, update_ne}
use mart_common.Text.{Bytes}
use mart_common.Net.Native.{in4, Timeval, System, OpensNew, OpensAndCloses, Transfers, StoresTimes}

pub record World : Type 0 where
  pub next : ℕ
  pub live : ℕ → Bool
  pub waiting : List Bytes
  pub option : Bytes

abbrev pub quiet : World
quiet = record { next = 3; live = λ k. false; waiting = []; option = [] }

abbrev bytes_of : Timeval → Bytes
bytes_of t = elim (t.tv_sec) [
  | pos s ↦ elim (t.tv_usec) [
    | pos u ↦ 0 ∷ s ∷ 0 ∷ u ∷ 0 ∷ 0 ∷ 0 ∷ 0 ∷ 0 ∷ 0 ∷ 0 ∷ 0 ∷ 0 ∷ 0 ∷ 0 ∷ 0 ∷ []
    | negsuc u ↦ 0 ∷ s ∷ 1 ∷ u ∷ 0 ∷ 0 ∷ 0 ∷ 0 ∷ 0 ∷ 0 ∷ 0 ∷ 0 ∷ 0 ∷ 0 ∷ 0 ∷ 0 ∷ []
  ]
  | negsuc s ↦ elim (t.tv_usec) [
    | pos u ↦ 1 ∷ s ∷ 0 ∷ u ∷ 0 ∷ 0 ∷ 0 ∷ 0 ∷ 0 ∷ 0 ∷ 0 ∷ 0 ∷ 0 ∷ 0 ∷ 0 ∷ 0 ∷ []
    | negsuc u ↦ 1 ∷ s ∷ 1 ∷ u ∷ 0 ∷ 0 ∷ 0 ∷ 0 ∷ 0 ∷ 0 ∷ 0 ∷ 0 ∷ 0 ∷ 0 ∷ 0 ∷ 0 ∷ []
  ]
]

abbrev signed : ℕ → ℕ → ℤ
signed ℕ.zero n = pos n
signed (suc _) n = negsuc n

abbrev time_of : Bytes → Timeval
time_of (a ∷ s ∷ b ∷ u ∷ _) = record { tv_sec = signed a s; tv_usec = signed b u }
time_of _ = record { tv_sec = pos 0; tv_usec = pos 0 }

abbrev opening : World → Option ℕ × World
opening w = (some w.next, record w { next = suc w.next; live = update w.live w.next true })

abbrev receive : List Bytes → ℕ → (Option ℕ × Bytes) × List Bytes
receive [] len = ((none, []), [])
receive (d ∷ q) len = ((some (min len (length d)), take len d), q)

abbrev pub simulated : System World
simulated = record {
  errno = λ w. pos 11;
  of_time = bytes_of;
  as_time = time_of;
  is_open = λ w k. ltb k w.next && w.live k;
  socket_ = λ d t p w. opening w;
  close_ = λ h w. elim h [
    | pos k ↦ (pos 0, record w { live = update w.live k false })
    | negsuc k ↦ (negsuc 0, w)
  ];
  get_flags = λ h w. (0, w);
  set_flags = λ h n w. (pos 0, w);
  setsockopt_ = λ h l o b w. (pos 0, record w { option = b });
  getsockopt_ = λ h l o w. ((pos 0, w.option, length w.option), w);
  getsockname_ = λ h a n w. ((pos 0, in4 16777343 36895, 16), w);
  bind_ = λ h a n w. (pos 0, w);
  connect_ = λ h a n w. (pos 0, w);
  listen_ = λ h n w. (pos 0, w);
  accept_ = λ h a n w. ((none, a, n), w);
  accept_only_ = λ h w. opening w;
  send_ = λ h b f w. (some (length b), w);
  sendto_ = λ h b f a n w. (some (length b), w);
  recv_ = λ h len f w. let (r, q) = receive w.waiting len in (r, record w { waiting = q });
  recvfrom_ = λ h len f a n w.
      let (r, q) = receive w.waiting len in
      ((r.0, r.1, in4 16777343 36895, 16), record w { waiting = q });
}

opens_next : (w : World) → OpensNew simulated w (opening w).0 (opening w).1
opens_next w = (
  ground arith,
  ground (arith, update_self w.live w.next true),
  λ k ne. rw (update_ne w.live w.next k true (λ z. ne (sym z))) (ground arith),
)

pub simulated-OpensAndCloses : OpensAndCloses simulated
simulated-OpensAndCloses = record {
  socket_new = λ w d t p. opens_next w;
  accept_new = λ w h. opens_next w;
  close_own = λ w h. (
    ground (arith, update_self w.live h false),
    λ k ne. ap (λ b. ltb k w.next && b) (update_ne w.live h k false (λ z. ne (sym z))),
  );
  close_invalid = λ w k. refl;
  get_flags_still = λ w h k. refl;
  set_flags_still = λ w h n k. refl;
  bind_still = λ w h a n k. refl;
  connect_still = λ w h a n k. refl;
}

receive_le :
    (q : List Bytes) (len n : ℕ)
    → (receive q len).0.0 ≡ some n
    → (n ≤ len) × (length (receive q len).0.1 ≡ min n len)
receive_le [] len n e = absurd (ground arith)
receive_le (d ∷ q) len n e = ground (arith, length-take len d)

pub simulated-Transfers : Transfers simulated
simulated-Transfers = record {
  send_le = λ w h b f n e. ground arith;
  recv_written = λ w h len flags n e. (receive_le w.waiting len n e).1;
  recv_le = λ w h len flags n _ e. (receive_le w.waiting len n e).0;
}

time_of-bytes_of : (t : Timeval) → time_of (bytes_of t) ≡ t
time_of-bytes_of t = ground arith

pub simulated-StoresTimes : StoresTimes simulated
simulated-StoresTimes = record {
  as_time-of_time = time_of-bytes_of;
  length-of_time = λ t. ground arith;
}

abbrev pub pending : World → ℕ
pending w = length w.waiting

receive_fewer :
    (q : List Bytes) (len n : ℕ)
    → (receive q len).0.0 ≡ some n
    → length (receive q len).1 < length q
receive_fewer [] len n e = absurd (ground arith)
receive_fewer (d ∷ q) len n e = omega arith

pub simulated-fewer :
    (w : World) (h : ℤ) (len f n : ℕ)
    → (simulated.recv_ h len f w).0.0 ≡ some n
    → pending (simulated.recv_ h len f w).1 < pending w
simulated-fewer w h len f n e = receive_fewer w.waiting len n e
