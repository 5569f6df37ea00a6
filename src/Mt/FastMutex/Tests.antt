-- ===== src/Mt/FastMutex/Tests.antt =====
-- A run in which one thread holds the flag, a second one spins and a third one waits behind it.
use mart_common.Prelude.{ℕ, ◌≡◌, ◌≢◌, ◌⊎◌, refl, true, false, none, some, ℕ_discrete}
use mart_common.Mt.FastMutex.{
  blocked, spinning, try_wins, lock_slow, locks_mx, asserts, System, start, pick, Reach, here, next,
  spin_wins, clears, tests_unmarked, marks, tests_marked, unmarks,
}
use mart_common.Mt.FastMutex.Invariant.{holds}
use mart_common.Mt.FastMutex.Safety.{mutual_exclusion, no_lost_wait}

record Run : Type 0 where
  last : System
  reach : Reach last

-- Thread 0 is inside, thread 1 spins and thread 2 is blocked.
abbrev crowded : Run
unfolding start ℕ_discrete
crowded = record {
  last = _;
  reach =
      next
        (next
          (next (next (next here (pick 0 (try_wins refl))) (pick 0 asserts))
            (pick 1 (lock_slow refl)))
          (pick 1 (locks_mx refl)))
        (pick 2 (lock_slow refl));
}

-- Thread 0 has left, and thread 1 went in by way of the mutex and is about to unlock it.
abbrev leaving : Run
unfolding start ℕ_discrete
leaving = record {
  last = _;
  reach =
      next
        (next
          (next
            (next
              (next (next (next crowded.reach (pick 0 (tests_unmarked refl))) (pick 0 clears))
                (pick 1 (spin_wins refl)))
              (pick 1 marks))
            (pick 1 asserts))
          (pick 1 (tests_marked refl)))
        (pick 1 unmarks);
}

-- Thread 0 has just set the flag.
abbrev just_in : Run
unfolding start ℕ_discrete
just_in = record { last = _; reach = next here (pick 0 (try_wins refl)) }

mutual_exclusion_example : ◌≡◌ {A = ℕ} 0 0
unfolding start ℕ_discrete
mutual_exclusion_example = mutual_exclusion crowded.reach 0 0 refl refl

no_lost_wait_example :
    (crowded.last.pc 2 ≡ blocked
      → (crowded.last.mutex.mx ≡ none)
        ⊎ ((j : ℕ) × (crowded.last.mutex.mx ≡ some j)
            × ((crowded.last.pc j ≡ spinning) ⊎ (holds (crowded.last.pc j) ≡ true))))
    × (crowded.last.pc 2 ≡ spinning
        → (crowded.last.mutex.flag ≡ false)
          ⊎ ((j : ℕ) × (j ≢ 2) × (holds (crowded.last.pc j) ≡ true)))
no_lost_wait_example = no_lost_wait crowded.reach 2
