-- ===== src/Mt/FastMutex/Invariant.antt =====
-- Who holds the flag and who owns the mutex behind it; true at the start and kept by every step.
use mart_common.Prelude.{ℕ, ◌≡◌, ◌≢◌, ◌⊎◌, inl, inr, Bool, true, false, some, arith}
use mathlib.Core.Path.{subst, ap}
use mart_common.Prelude.{ℕ_discrete}
use mart_common.Prelude.Threads.{update, update_self, update_ne}
use mart_common.Mt.FastMutex.{
  FastMutex, Pc, outside, blocked, spinning, won, entered, critical, unmarking, unlocking, clearing,
  Move, try_wins, try_fails, lock_slow, locks_mx, spins, spin_wins, marks, asserts, tests_marked,
  tests_unmarked, unmarks, unlocks_mx, clears, System, start, Step, pick, Reach, here, next,
}

-- The places at which a thread holds the flag.
abbrev pub holds : Pc → Bool
holds outside = false
holds blocked = false
holds spinning = false
holds _ = true

-- The places at which it owns `_mx`, which depends on the mark only in the critical section.
abbrev pub owner : Bool → Pc → Bool
owner marked outside = false
owner marked blocked = false
owner marked spinning = true
owner marked won = true
owner marked entered = marked
owner marked critical = marked
owner marked unmarking = true
owner marked unlocking = true
owner marked clearing = false

-- The places at which the holder has not set the mark yet, or has cleared it.
abbrev pub unmarked : Pc → Bool
unmarked won = true
unmarked unlocking = true
unmarked clearing = true
unmarked _ = false

-- What is true of one thread `i` at `p`.
pub record Local (m : FastMutex) (i : ℕ) (p : Pc) : Type 0 where
  pub flagged : holds p ≡ true → m.flag ≡ true
  pub owns : owner m.mx_locked_by_me p ≡ true → m.mx ≡ some i
  pub owned : m.mx ≡ some i → owner m.mx_locked_by_me p ≡ true
  pub clean : unmarked p ≡ true → m.mx_locked_by_me ≡ false
  pub marked : p ≡ unmarking → m.mx_locked_by_me ≡ true

pub record IsValid (m : FastMutex) (pc : ℕ → Pc) : Type 0 where
  pub each : (i : ℕ) → Local m i (pc i)
  pub unique : (i j : ℕ) → holds (pc i) ≡ true → holds (pc j) ≡ true → i ≡ j
  pub quiet : m.flag ≡ false → m.mx_locked_by_me ≡ false
  pub held : m.flag ≡ true → (i : ℕ) × (holds (pc i) ≡ true)

start-IsValid : IsValid start.mutex start.pc
unfolding start
start-IsValid = record {
  each = λ i. ground arith;
  unique = λ i j h k. ground arith;
  quiet = λ h. ground arith;
  held = λ h. cc;
}

-- The thread that moves: its own facts afterwards.
Move-Local :
    {m m' : FastMutex} {me : ℕ} {p p' : Pc}
    → Move me m p m' p'
    → Local m me p
    → (m.flag ≡ false → m.mx_locked_by_me ≡ false)
    → Local m' me p'
Move-Local (try_wins h) l q = ground arith
Move-Local (try_fails h) l q = ground arith
Move-Local (lock_slow h) l q = ground arith
Move-Local (locks_mx h) l q = ground arith
Move-Local (spins h) l q = ground arith
Move-Local (spin_wins h) l q = ground arith
Move-Local marks l q = ground arith
Move-Local asserts l q = ground arith
Move-Local (tests_marked h) l q = ground arith
Move-Local (tests_unmarked h) l q = ground arith
Move-Local unmarks l q = ground arith
Move-Local unlocks_mx l q = ground arith
Move-Local clears l q = ground arith

-- What a move leaves of the facts of another thread `i` at `r`.
Move-others :
    {m m' : FastMutex} {me : ℕ} {p p' : Pc} (i : ℕ) (r : Pc)
    → Move me m p m' p'
    → me ≢ i
    → Local m me p
    → Local m i r
    → ¬ ((holds p ≡ true) × (holds r ≡ true))
    → (m.flag ≡ false → m.mx_locked_by_me ≡ false)
    → Local m' i r
Move-others i r (try_wins h) ne l k d q = ground (arith, d)
Move-others i r (try_fails h) ne l k d q = ground (arith, d)
Move-others i r (lock_slow h) ne l k d q = ground (arith, d)
Move-others i r (locks_mx h) ne l k d q = ground (arith, d)
Move-others i r (spins h) ne l k d q = ground (arith, d)
Move-others i r (spin_wins h) ne l k d q = ground (arith, d)
Move-others i r marks ne l k d q = ground (arith, d)
Move-others i r asserts ne l k d q = ground (arith, d)
Move-others i r (tests_marked h) ne l k d q = ground (arith, d)
Move-others i r (tests_unmarked h) ne l k d q = ground (arith, d)
Move-others i r unmarks ne l k d q = ground (arith, d)
Move-others i r unlocks_mx ne l k d q = ground (arith, d)
Move-others i r clears ne l k d q = ground (arith, d)

-- A thread comes to hold the flag only by finding it clear.
Move-holds :
    {m m' : FastMutex} {me : ℕ} {p p' : Pc}
    → Move me m p m' p'
    → holds p' ≡ true
    → (holds p ≡ true) ⊎ (m.flag ≡ false)
Move-holds (try_wins h) e = ground arith
Move-holds (try_fails h) e = ground arith
Move-holds (lock_slow h) e = ground arith
Move-holds (locks_mx h) e = ground arith
Move-holds (spins h) e = ground arith
Move-holds (spin_wins h) e = ground arith
Move-holds marks e = ground arith
Move-holds asserts e = ground arith
Move-holds (tests_marked h) e = ground arith
Move-holds (tests_unmarked h) e = ground arith
Move-holds unmarks e = ground arith
Move-holds unlocks_mx e = ground arith
Move-holds clears e = ground arith

Move-quiet :
    {m m' : FastMutex} {me : ℕ} {p p' : Pc}
    → Move me m p m' p'
    → Local m me p
    → (m.flag ≡ false → m.mx_locked_by_me ≡ false)
    → m'.flag ≡ false
    → m'.mx_locked_by_me ≡ false
Move-quiet (try_wins h) l q = ground arith
Move-quiet (try_fails h) l q = ground arith
Move-quiet (lock_slow h) l q = ground arith
Move-quiet (locks_mx h) l q = ground arith
Move-quiet (spins h) l q = ground arith
Move-quiet (spin_wins h) l q = ground arith
Move-quiet marks l q = ground arith
Move-quiet asserts l q = ground arith
Move-quiet (tests_marked h) l q = ground arith
Move-quiet (tests_unmarked h) l q = ground arith
Move-quiet unmarks l q = ground arith
Move-quiet unlocks_mx l q = ground arith
Move-quiet clears l q = ground arith

-- The flag is set after a move by the thread that moves, or stays set by another one.
Move-held :
    {m m' : FastMutex} {me : ℕ} {p p' : Pc}
    → Move me m p m' p'
    → Local m me p
    → m'.flag ≡ true
    → (holds p' ≡ true) ⊎ ((m.flag ≡ true) × (holds p ≡ false))
Move-held (try_wins h) l e = ground arith
Move-held (try_fails h) l e = ground arith
Move-held (lock_slow h) l e = ground arith
Move-held (locks_mx h) l e = ground arith
Move-held (spins h) l e = ground arith
Move-held (spin_wins h) l e = ground arith
Move-held marks l e = ground arith
Move-held asserts l e = ground arith
Move-held (tests_marked h) l e = ground arith
Move-held (tests_unmarked h) l e = ground arith
Move-held unmarks l e = ground arith
Move-held unlocks_mx l e = ground arith
Move-held clears l e = ground arith

-- The thread that moves and another one are not both left holding the flag.
Move-exclusive :
    {s : System} {m : FastMutex} {p : Pc} (me i : ℕ)
    → IsValid s.mutex s.pc
    → Move me s.mutex (s.pc me) m p
    → me ≢ i
    → holds p ≡ true
    → ¬ (holds (s.pc i) ≡ true)
Move-exclusive {s = s} me i v mv ne h k = elim (Move-holds mv h) [
  | inl held ↦ ne (v.unique me i held k)
  | inr free ↦ cc ((v.each i).flagged k)
]

Step-each : {s t : System} → Step s t → IsValid s.mutex s.pc → (i : ℕ) → Local t.mutex i (t.pc i)
Step-each {s} (pick me {m} {p} mv) v i = elim (ℕ_discrete me i) [
  | yes e ↦
      subst (λ k. Local m k (update s.pc me p k)) e
        (rw (update_self s.pc me p) (Move-Local mv (v.each me) v.quiet))
  | no ne ↦ rw (update_ne s.pc me i p ne) (
      Move-others i (s.pc i) mv ne (v.each me) (v.each i) (λ both. ne (v.unique me i both.0 both.1))
        v.quiet)
]

Step-unique :
    {s t : System}
    → Step s t
    → IsValid s.mutex s.pc
    → (i j : ℕ) → holds (t.pc i) ≡ true
    → holds (t.pc j) ≡ true
    → i ≡ j
Step-unique {s} (pick me {m} {p} mv) v i j h k =
    ground (arith, Move-exclusive {s = s} me i v mv, Move-exclusive {s = s} me j v mv, v.unique i j)

Step-held :
    {s t : System}
    → Step s t
    → IsValid s.mutex s.pc
    → t.mutex.flag ≡ true
    → (i : ℕ) × (holds (t.pc i) ≡ true)
Step-held {s} (pick me {m} {p} mv) v e = elim (Move-held mv (v.each me) e) [
  | inl now ↦ (me, rw (update_self s.pc me p) now)
  | inr (was, free) ↦
      let (j, h) = v.held was in
      (j, rw (update_ne s.pc me j p (λ same. cc (ap (λ k. holds (s.pc k)) same))) h)
]

-- Every step keeps the invariant.
pub Step-IsValid : {s t : System} → Step s t → IsValid s.mutex s.pc → IsValid t.mutex t.pc
Step-IsValid (pick me mv) v = record {
  each = Step-each (pick me mv) v;
  unique = Step-unique (pick me mv) v;
  quiet = Move-quiet mv (v.each me) v.quiet;
  held = Step-held (pick me mv) v;
}

pub Reach-IsValid : {s : System} → Reach s → IsValid s.mutex s.pc
Reach-IsValid here = start-IsValid
Reach-IsValid (next r st) = Step-IsValid st (Reach-IsValid r)
