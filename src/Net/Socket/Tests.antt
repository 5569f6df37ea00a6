-- ===== src/Net/Socket/Tests.antt =====
-- A system that numbers its handles, and a process whose object 1 has the only one.
use mart_common.Prelude.{
  ℕ, suc, ◌≡◌, ◌≢◌, refl, sym, ap, Bool, true, false, ◌&&◌, none, some, ltb, ◌==◌, if◌then◌else◌,
  arith,
}
use mathlib.Core.Path.{subst}
use mart_common.Prelude.Threads.{update, update_self, update_ne}
use mart_common.Net.Results.{success, failure, ok}
use mart_common.Prelude.Int.{pos}
use mart_common.Net.Socket.{
  invalid, PortLayer, IsSystem, Process, set_blocking_uncached, close, move_construct, move_assign,
  open_, accept,
}
use mart_common.Net.Socket.Ownership.{IsOwned, operations-IsOwned}

-- The next handle, and the flags of those before it.
abbrev World : Type 0
World = ℕ × (ℕ → Bool)

abbrev counting : PortLayer World
counting = record {
  is_open = λ w k. ltb k w.0 && w.1 k;
  close_socket = λ o w. elim o [
    | none ↦ (record { value = pos 9 }, w)
    | some h ↦ (ok, (w.0, update w.1 h false))
  ];
  open_socket = λ w. (success w.0, (suc w.0, update w.1 w.0 true));
  accept_on = λ o w. (failure (record { value = pos 9 }), w);
  make_blocking = λ o b w. (ok, w);
}

abbrev OpensNew : World → ℕ → Type 0
OpensNew w h =
    (counting.is_open w h ≡ false)
    × (counting.is_open (counting.open_socket w).1 h ≡ true)
    × ((k : ℕ) → k ≢ h → counting.is_open (counting.open_socket w).1 k ≡ counting.is_open w k)

opens_next : (w : World) → OpensNew w w.0
opens_next w = (
  ground arith,
  ground (arith, update_self w.1 w.0 true),
  λ k ne. rw (update_ne w.1 w.0 k true (λ z. ne (sym z))) (ground arith),
)

same_handle : (h k : ℕ) → success h ≡ success k → h ≡ k
same_handle h k e = ground arith

counting-IsSystem : IsSystem counting
counting-IsSystem = record {
  opens_new = λ w h e. subst (OpensNew w) (same_handle w.0 h e) (opens_next w);
  fails_still = λ w c e. absurd (ground arith);
  accepts_new = λ w o h e. absurd (ground arith);
  refuses_still = λ w o c e k. refl;
  closes = λ w h. (
    ground (arith, update_self w.1 h false),
    λ k ne. ap (λ b. ltb k w.0 && b) (update_ne w.1 h k false (λ z. ne (sym z))),
  );
  closes_nothing = λ w k. refl;
  flags_only = λ w o b k. refl;
}

abbrev process : Process World
process = record {
  socks = λ i. if i == 1 then record { handle = some 0; blocking = true } else invalid;
  system = (1, λ k. true);
}

process-IsOwned : IsOwned counting process
process-IsOwned = record {
  unique = λ i j h p q. ground arith;
  live = λ i h p. ground arith;
  kept = λ h p. (1, ground arith);
}

operations-IsOwned_example :
    IsOwned counting (close counting process 2).1
    × IsOwned counting (move_assign counting process 2 1)
    × ((process.socks 2).handle ≡ none → IsOwned counting (move_construct counting process 2 1))
    × ((process.socks 2).handle ≡ none → IsOwned counting (open_ counting process 2).1)
    × ((process.socks 2).handle ≡ none → IsOwned counting (accept counting process 1 2))
    × IsOwned counting (set_blocking_uncached counting process 2 false).1
operations-IsOwned_example =
    operations-IsOwned counting counting-IsSystem process 2 1 false process-IsOwned (omega arith)
