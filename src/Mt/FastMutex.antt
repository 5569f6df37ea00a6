-- ===== src/Mt/FastMutex.antt =====
-- include/mart-common/experimental/mt/FastMutex.h: `FastMutexImpl` under any number of threads,
-- one access to shared memory at a time.
pub mod Invariant
pub mod Safety
mod Tests
use mart_common.Prelude.{ℕ, ◌≡◌, Bool, true, false, Option, none, some}
use mart_common.Prelude.Threads.{update}

-- `_flag`, the owner of `_mx` and `_mx_locked_by_me`.
pub record FastMutex : Type 0 where
  pub flag : Bool
  pub mx : Option ℕ
  pub mx_locked_by_me : Bool

-- Where a thread stands. `outside`: before `lock()`. `blocked`: `try_lock` failed, `_mx.lock()` is
-- next. `spinning`: it owns `_mx`. `won`: the spinning thread has set the flag. `entered`: before
-- the assertion of `lock()`. `critical`: between `lock()` and `unlock()`. `unmarking`, `unlocking`
-- and `clearing`: the three steps of `unlock()`.
pub data Pc : Type 0 where
  outside blocked spinning won entered critical unmarking unlocking clearing : Pc

-- What one thread `me` does next, with its effect on the mutex.
pub data Move (me : ℕ) (m : FastMutex) : Pc → FastMutex → Pc → Type 0 where
  -- `try_lock()`, alone or in `lock()`: `_flag.test_and_set()`.
  try_wins : m.flag ≡ false → Move me m outside (record m { flag = true }) entered
  try_fails : m.flag ≡ true → Move me m outside m outside
  lock_slow : m.flag ≡ true → Move me m outside m blocked
  locks_mx : m.mx ≡ none → Move me m blocked (record m { mx = some me }) spinning
  spins : m.flag ≡ true → Move me m spinning m spinning
  spin_wins : m.flag ≡ false → Move me m spinning (record m { flag = true }) won
  marks : Move me m won (record m { mx_locked_by_me = true }) entered
  -- The assertion `_flag.test_and_set()` of `lock()`, which also sets the flag.
  asserts : Move me m entered (record m { flag = true }) critical
  -- `unlock()`.
  tests_marked : m.mx_locked_by_me ≡ true → Move me m critical m unmarking
  tests_unmarked : m.mx_locked_by_me ≡ false → Move me m critical m clearing
  unmarks : Move me m unmarking (record m { mx_locked_by_me = false }) unlocking
  unlocks_mx : Move me m unlocking (record m { mx = none }) clearing
  clears : Move me m clearing (record m { flag = false }) outside

pub record System : Type 0 where
  pub mutex : FastMutex
  pub pc : ℕ → Pc

unfoldable pub start : System
start = record {
  mutex = record { flag = false; mx = none; mx_locked_by_me = false };
  pc = λ _. outside;
}

pub data Step (s : System) : System → Type 0 where
  pick :
      (me : ℕ) {m : FastMutex} {p : Pc}
      → Move me s.mutex (s.pc me) m p
      → Step s (record { mutex = m; pc = update s.pc me p })

pub data Reach : System → Type 0 where
  here : Reach start
  next : {s t : System} → Reach s → Step s t → Reach t
