-- ===== src/Time/Tests.antt =====
-- Examples for the clocks.
use mart_common.Prelude.{◌+◌, ◌≡◌, refl, List, [], ◌∷◌, length}
use mart_common.Prelude.Int.{ℤ, pos, ◌+ℤ◌, ◌-ℤ◌, ◌*ℤ◌, ◌≤ℤ◌, int_laws}
use mart_common.Time.Timers.{Timer, remaining}
use mart_common.Time.Schedule.{
  Clock, SleepsLongEnough, PeriodicScheduler, in_ns, next_wake_time, invocation_cnt, make, sleep,
  runtime, run, run_lem,
}

-- A timer of 5 ms that is read 2 ms after its start.
abbrev five_ms : Timer
five_ms = record { start_time = pos 1_000_000; timeout = pos 5_000_000 }

remaining_ms : remaining 1_000_000 (pos 3_000_001) five_ms ≡ pos 2
unfolding remaining ◌-ℤ◌
remaining_ms = refl

-- A clock that is its own world; sleeping takes a nanosecond more than asked for.
abbrev clock : Clock ℤ
clock = record { now = λ w. w; sleep_for = λ d w. w +ℤ d +ℤ pos 1 }

clock-SleepsLongEnough : SleepsLongEnough clock
clock-SleepsLongEnough = record { long_enough = λ d w. longer w d }
  where
    longer : (w d : ℤ) → w +ℤ d ≤ℤ w +ℤ d +ℤ pos 1
    longer w d = omega int_laws

abbrev takes : ℤ → ℤ → ℤ
takes d w = w +ℤ d

-- Two bodies; the second takes longer than the interval of 2 us.
abbrev bodies : List (ℤ → ℤ)
bodies = takes (pos 500) ∷ takes (pos 3_000) ∷ []

run_lem_example :
    let s = (run clock bodies (make clock (pos 2) (pos 100)) (pos 100)).0 in
    (next_wake_time s ≡ pos 100 +ℤ in_ns (pos 2 *ℤ pos (invocation_cnt s)))
    × (invocation_cnt s ≡ length bodies + 1)
    × (runtime clock 1 s (pos 9_000) ≡ pos 9_000 -ℤ pos 100)
run_lem_example = run_lem clock bodies (pos 2) (pos 100) (pos 9_000)

abbrev every_2_us : PeriodicScheduler
every_2_us = record { interval = pos 2; last_invocation = pos 100; cnt = 0 }

-- A call at 600 returns at 2101.
sleeps : (sleep clock every_2_us (pos 600)).1 ≡ pos 2_101
unfolding sleep next_wake_time ◌+ℤ◌ ◌-ℤ◌ ◌*ℤ◌
sleeps = refl
