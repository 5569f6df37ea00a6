-- ===== src/Containers/CircularBuffer.antt =====
-- include/mart-common/experimental/circular_buffer.h.
pub mod Refine
mod Tests
use mart_common.Prelude.{ℕ, ◌+◌, ◌-◌, ◌%◌, Bool, leb, ◌==◌, if◌then◌else◌}
use mart_common.Prelude.Threads.{update}

-- `circular_buffer<T, N>`; the capacity `N` is a parameter of the operations that use it.
pub record CircularBuffer {ℓ} (A : Type ℓ) : Type ℓ where
  pub slots : ℕ → A
  pub next_read : ℕ
  pub next_write : ℕ

abbrev pub next : ℕ → ℕ → ℕ
next N current = (current + 1) % N

module _ {ℓ} {A : Type ℓ} (N : ℕ) where
  unfoldable pub push_back : CircularBuffer A → A → CircularBuffer A
  push_back b value = record b {
    slots = update b.slots b.next_write value;
    next_write = next N b.next_write;
  }

  unfoldable pub pop_front : CircularBuffer A → A × CircularBuffer A
  pop_front b = let ti = b.next_read in (b.slots ti, record b { next_read = next N b.next_read })

  -- `operator[]`.
  unfoldable pub at : CircularBuffer A → ℕ → A
  at b i = b.slots ((b.next_read + i) % N)

  unfoldable pub size : CircularBuffer A → ℕ
  size b =
      if leb b.next_read b.next_write
      then b.next_write - b.next_read
      else b.next_write + N - b.next_read

  unfoldable pub empty : CircularBuffer A → Bool
  unfolding size
  empty b = size b == 0

-- The constructor: the slots are value-initialised to `a`.
unfoldable pub init {ℓ} : {A : Type ℓ} → A → CircularBuffer A
init a = record { slots = λ _. a; next_read = 0; next_write = 0 }
