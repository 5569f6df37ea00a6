-- ===== src/Mt/TrippleBuffer/System.antt =====
-- Producer and consumer interleaved, one access to shared memory at a time.
use mart_common.Prelude.{ℕ, ◌+◌, ◌≡◌, Bool, true, false, List, [], ◌∷◌}
use mart_common.Mt.TrippleBuffer.{
  TrippleBuffer, init, get_write_buffer, write, commit, has_new_data, exchange,
}

-- Beside the buffer: whether the consumer stands between the load and the exchange, and, for
-- the statements only, the values committed (newest first, the initial one last) and the number
-- of commits since the consumer last exchanged.
pub record System {ℓ} (A : Type ℓ) : Type ℓ where
  pub buffer : TrippleBuffer A
  pub fetching : Bool
  pub log : List A
  pub unseen : ℕ

module _ {ℓ} {A : Type ℓ} where
  unfoldable pub start : A → System A
  unfolding init
  start a = record { buffer = init a; fetching = false; log = a ∷ []; unseen = 0 }

  unfoldable pub committed : System A → System A
  unfolding commit get_write_buffer
  committed s = record s {
    buffer = commit s.buffer;
    log = get_write_buffer s.buffer ∷ s.log;
    unseen = s.unseen + 1;
  }

  unfoldable pub exchanged : System A → System A
  unfolding exchange
  exchanged s = record s { buffer = exchange s.buffer; fetching = false; unseen = 0 }

  -- The producer writes its slot or commits it at any time; the consumer loads, and exchanges
  -- if it saw new data.
  pub data Step : System A → System A → Type ℓ where
    writes : (s : System A) (a : A) → Step s (record s { buffer = write s.buffer a })
    commits : (s : System A) → Step s (committed s)
    sees :
        (s : System A)
        → s.fetching ≡ false
        → has_new_data s.buffer ≡ true
        → Step s (record s { fetching = true })
    misses : (s : System A) → s.fetching ≡ false → has_new_data s.buffer ≡ false → Step s s
    exchanges : (s : System A) → s.fetching ≡ true → Step s (exchanged s)

  pub data Reach (a : A) : System A → Type ℓ where
    here : Reach a (start a)
    next : {s t : System A} → Reach a s → Step s t → Reach a t
