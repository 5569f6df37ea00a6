-- ===== src/Mt/TrippleBuffer.antt =====
-- include/mart-common/mt/TrippleBuffer.h: one producer and one consumer over three slots.
pub mod System
pub mod Safety
mod Tests
use mart_common.Prelude.{ℕ, Bool, true, false, not, if◌then◌else◌}
use mart_common.Prelude.Threads.{update}

-- The struct `Index`, one atomic word.
pub record Index : Type 0 where
  pub idx : ℕ
  pub new_data : Bool

pub record TrippleBuffer {ℓ} (A : Type ℓ) : Type ℓ where
  pub slots : ℕ → A
  pub read_idx : Index
  pub write_idx : Index
  pub buffer_idx : Index

module _ {ℓ} {A : Type ℓ} where
  -- The constructor from a first value (the other one starts from `T{}`).
  unfoldable pub init : A → TrippleBuffer A
  init a = record {
    slots = λ _. a;
    read_idx = record { idx = 0; new_data = false };
    write_idx = record { idx = 1; new_data = false };
    buffer_idx = record { idx = 2; new_data = false };
  }

  -- What is read through `get_read_buffer()` and its variants.
  unfoldable pub get_read_buffer : TrippleBuffer A → A
  get_read_buffer t = t.slots t.read_idx.idx

  unfoldable pub get_write_buffer : TrippleBuffer A → A
  get_write_buffer t = t.slots t.write_idx.idx

  -- An assignment through the reference that `get_write_buffer()` returns.
  unfoldable pub write : TrippleBuffer A → A → TrippleBuffer A
  write t a = record t { slots = update t.slots t.write_idx.idx a }

  -- `write_idx` is the producer's own; the exchange is its one step on shared memory.
  unfoldable pub commit : TrippleBuffer A → TrippleBuffer A
  commit t = record t {
    write_idx = t.buffer_idx;
    buffer_idx = record { idx = t.write_idx.idx; new_data = true };
  }

  -- The load in `fetch_update`.
  unfoldable pub has_new_data : TrippleBuffer A → Bool
  has_new_data t = t.buffer_idx.new_data

  -- The rest of `fetch_update`, when the load saw new data.
  unfoldable pub exchange : TrippleBuffer A → TrippleBuffer A
  exchange t = record t {
    read_idx = t.buffer_idx;
    buffer_idx = record { idx = t.read_idx.idx; new_data = false };
  }

  unfoldable pub fetch_update : TrippleBuffer A → TrippleBuffer A × Bool
  unfolding has_new_data exchange
  fetch_update t = if not (has_new_data t) then (t, false) else (exchange t, true)
