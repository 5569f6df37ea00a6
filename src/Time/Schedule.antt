-- ===== src/Time/Schedule.antt =====
-- `PeriodicScheduler` of include/mart-common/MartTime.h. The interval is in microseconds. The clock
-- and `std::this_thread::sleep_for` are parameters: `W` is the state of the world.
use mart_common.Prelude.{
  ℕ, ◌+◌, ◌*◌, ◌≡◌, ◌∙◌, ap, refl, if◌then◌else◌, List, [], ◌∷◌, length, arith, Bool-cases, inl,
  inr,
}
use mart_common.Prelude.Int.{
  ℤ, pos, pos_part, neg_part, ◌+ℤ◌, ◌-ℤ◌, ◌*ℤ◌, ◌≤ℤ◌, ltb_ℤ, int_laws, eq_of_parts, -ℤ_parts,
  +ℤ_parts,
}
use mart_common.Time.{duration_cast, cast_one}

pub record Clock (W : Type 0) : Type 0 where
  pub now : W → ℤ
  pub sleep_for : ℤ → W → W

-- Reading does not change the clock; a thread sleeps at least as long as it is told.
pub record SleepsLongEnough {W : Type 0} (C : Clock W) : Type 0 where
  pub long_enough : (d : ℤ) (w : W) → C.now w +ℤ d ≤ℤ C.now (C.sleep_for d w)

pub record PeriodicScheduler : Type 0 where
  pub interval : ℤ
  pub last_invocation : ℤ
  pub cnt : ℕ

-- Microseconds, in the unit of the clock.
abbrev pub in_ns : ℤ → ℤ
in_ns d = d *ℤ pos 1_000

unfoldable pub next_wake_time : PeriodicScheduler → ℤ
next_wake_time s = s.last_invocation +ℤ in_ns s.interval

unfoldable pub invocation_cnt : PeriodicScheduler → ℕ
invocation_cnt s = s.cnt + 1

unfoldable pub loop_cnt : PeriodicScheduler → ℕ
loop_cnt s = s.cnt

*ℤ_parts :
    (a b : ℤ)
    → pos_part (a *ℤ b) + (pos_part a * neg_part b + neg_part a * pos_part b)
      ≡ neg_part (a *ℤ b) + (pos_part a * pos_part b + neg_part a * neg_part b)
unfolding ◌*ℤ◌
*ℤ_parts a b = ground arith

add_assoc : (a b c : ℤ) → a +ℤ b +ℤ c ≡ a +ℤ (b +ℤ c)
add_assoc a b c = eq_of_parts _ _ (omega int_laws)

since : (a b d : ℤ) → a -ℤ (b +ℤ d) +ℤ d ≡ a -ℤ b
since a b d = eq_of_parts _ _ (omega int_laws)

at_start : (a i : ℤ) → a ≡ a +ℤ in_ns (i *ℤ pos 0)
at_start a i = eq_of_parts _ _ (
    omega (
      arith,
      +ℤ_parts a (in_ns (i *ℤ pos 0)),
      *ℤ_parts i (pos 0),
      *ℤ_parts (i *ℤ pos 0) (pos 1_000),
    ))

-- One interval more.
in_ns-suc : (i : ℤ) (c : ℕ) → in_ns (i *ℤ pos c) +ℤ in_ns i ≡ in_ns (i *ℤ pos (c + 1))
in_ns-suc i c = eq_of_parts _ _ (
    omega (
      arith,
      *ℤ_parts i (pos c),
      *ℤ_parts i (pos (c + 1)),
      *ℤ_parts (i *ℤ pos c) (pos 1_000),
      *ℤ_parts i (pos 1_000),
      *ℤ_parts (i *ℤ pos (c + 1)) (pos 1_000),
      +ℤ_parts (in_ns (i *ℤ pos c)) (in_ns i),
    ))

module _ {W : Type 0} (C : Clock W) where
  unfoldable pub make : ℤ → W → PeriodicScheduler
  make interval w = record { interval = interval; last_invocation = C.now w; cnt = 0 }

  unfoldable pub sleep : PeriodicScheduler → W → PeriodicScheduler × W
  unfolding next_wake_time
  sleep s w =
      let sleep_duration = next_wake_time s -ℤ C.now w in
      (
        record s { last_invocation = s.last_invocation +ℤ in_ns s.interval; cnt = s.cnt + 1 },
        if ltb_ℤ (pos 0) sleep_duration then C.sleep_for sleep_duration w else w,
      )

  unfoldable pub runtime : ℕ → PeriodicScheduler → W → ℤ
  runtime unit s w =
      duration_cast unit (C.now w -ℤ s.last_invocation +ℤ in_ns (s.interval *ℤ pos s.cnt))

  unfoldable pub remaining_interval_time : ℕ → PeriodicScheduler → W → ℤ
  unfolding next_wake_time
  remaining_interval_time unit s w = duration_cast unit (next_wake_time s -ℤ C.now w)

  -- A loop whose bodies change the world as the list says, each followed by `sleep`.
  unfoldable pub run : List (W → W) → PeriodicScheduler → W → PeriodicScheduler × W
  run [] s w = (s, w)
  run (body ∷ bodies) s w = let (s', w') = sleep s (body w) in run bodies s' w'

  -- No call of `sleep` returns before the wake time that it was called for.
  pub sleep_lem :
      SleepsLongEnough C → (s : PeriodicScheduler) (w : W) → next_wake_time s ≤ℤ C.now (sleep s w).1
  unfolding sleep
  sleep_lem H s w = elim (Bool-cases (ltb_ℤ (pos 0) d)) [
    | inl e ↦ rw e (
        ground
          (arith, H.long_enough d w, -ℤ_parts (next_wake_time s) (C.now w), +ℤ_parts (C.now w) d))
    | inr e ↦ rw e (ground (arith, -ℤ_parts (next_wake_time s) (C.now w)))
  ]
    where
      d : ℤ
      d = next_wake_time s -ℤ C.now w

  -- After `cnt` calls of `sleep`.
  abbrev pub Scheduled : ℤ → PeriodicScheduler → Type 0
  Scheduled start s = s.last_invocation ≡ start +ℤ in_ns (s.interval *ℤ pos s.cnt)

  sleep-Scheduled :
      (start : ℤ) (s : PeriodicScheduler) (w : W)
      → Scheduled start s
      → Scheduled start (sleep s w).0
  unfolding sleep
  sleep-Scheduled start s w h =
      ap (λ l. l +ℤ in_ns s.interval) h
      ∙ add_assoc start _ _
      ∙ ap (λ d. start +ℤ d) (in_ns-suc s.interval s.cnt)

  run-Scheduled :
      (bodies : List (W → W)) (start : ℤ) (s : PeriodicScheduler) (w : W)
      → Scheduled start s
      → let r = (run bodies s w).0 in
        Scheduled start r × (r.interval ≡ s.interval) × (r.cnt ≡ s.cnt + length bodies)
  unfolding run sleep
  run-Scheduled [] start s w h = (h, refl, omega arith)
  run-Scheduled (body ∷ bodies) start s w h =
      let (scheduled, same, count) =
        run-Scheduled bodies start (sleep s (body w)).0 (sleep s (body w)).1
          (sleep-Scheduled start s (body w) h) in
      (scheduled, same, count ∙ omega arith)

  -- Whatever the bodies of a loop and the sleeping take, the wake time stays on the grid that starts
  -- with the scheduler, and `runtime` is the time since then.
  pub run_lem :
      (bodies : List (W → W)) (interval : ℤ) (w w' : W)
      → let s = (run bodies (make interval w) w).0 in
        (next_wake_time s ≡ C.now w +ℤ in_ns (interval *ℤ pos (invocation_cnt s)))
        × (invocation_cnt s ≡ length bodies + 1)
        × (runtime 1 s w' ≡ C.now w' -ℤ C.now w)
  unfolding next_wake_time runtime make invocation_cnt
  run_lem bodies interval w w' = (
    ap (λ l. l +ℤ in_ns s.interval) h.0
        ∙ add_assoc start _ _
        ∙ ap (λ d. start +ℤ d) (in_ns-suc s.interval s.cnt)
        ∙ ap (λ i. start +ℤ in_ns (i *ℤ pos (s.cnt + 1))) h.1,
    ap (λ n. n + 1) h.2,
    cast_one _ ∙ ap (λ l. C.now w' -ℤ l +ℤ d) h.0 ∙ since (C.now w') start d,
  )
    where
      start : ℤ
      start = C.now w

      s : PeriodicScheduler
      s = (run bodies (make interval w) w).0

      d : ℤ
      d = in_ns (s.interval *ℤ pos s.cnt)

      h : Scheduled start s × (s.interval ≡ interval) × (s.cnt ≡ length bodies)
      h =
          let (scheduled, same, count) =
            run-Scheduled bodies start (make interval w) w (at_start start interval) in
          (scheduled, same, count ∙ omega arith)
