-- ===== src/Mt/TrippleBuffer/Safety.antt =====
-- What holds whatever the interleaving.
use mart_common.Prelude.{◌<◌, ◌≡◌, ◌≢◌, true, some, ltb, get_elem?, arith}
use mart_common.Mt.TrippleBuffer.{get_read_buffer, write, has_new_data, fetch_update}
use mart_common.Mt.TrippleBuffer.System.{
  System, start, committed, exchanged, Step, writes, commits, sees, misses, exchanges, Reach, here,
  next,
}

module _ {A : Type 0} where
  -- The three indices are the three slots; the flag tells whether a commit waits; the waiting
  -- slot holds the last commit and the consumer's slot the last one that it fetched.
  pub record IsValid (s : System A) : Type 0 where
    pub read_in : s.buffer.read_idx.idx < 3
    pub write_in : s.buffer.write_idx.idx < 3
    pub buffer_in : s.buffer.buffer_idx.idx < 3
    pub read-ne-write : s.buffer.read_idx.idx ≢ s.buffer.write_idx.idx
    pub read-ne-buffer : s.buffer.read_idx.idx ≢ s.buffer.buffer_idx.idx
    pub write-ne-buffer : s.buffer.write_idx.idx ≢ s.buffer.buffer_idx.idx
    pub flag : has_new_data s.buffer ≡ ltb 0 s.unseen
    pub waiting : 0 < s.unseen → get_elem? s.log 0 ≡ some (s.buffer.slots s.buffer.buffer_idx.idx)
    pub reading : get_elem? s.log s.unseen ≡ some (get_read_buffer s.buffer)
    pub fetch : s.fetching ≡ true → 0 < s.unseen

  start-IsValid : (a : A) → IsValid (start a)
  unfolding start get_read_buffer has_new_data
  start-IsValid a = ground arith

  Step-IsValid : {s t : System A} → Step s t → IsValid s → IsValid t
  unfolding has_new_data get_read_buffer committed exchanged write
  Step-IsValid (writes s a) v = ground arith
  Step-IsValid (commits s) v = ground arith
  Step-IsValid (sees s f h) v = ground arith
  Step-IsValid (misses s f h) v = v
  Step-IsValid (exchanges s f) v = ground arith

  Reach-IsValid : {a : A} {s : System A} → Reach a s → IsValid s
  Reach-IsValid {a} here = start-IsValid a
  Reach-IsValid (next r st) = Step-IsValid st (Reach-IsValid r)

-- Whatever the interleaving, the slot that the producer writes is never the one that the consumer
-- reads, both lie in the array, and nothing that the producer writes changes what is read.
pub Reach-disjoint :
    {A : Type 0} {a : A} {s : System A}
    → Reach a s
    → (s.buffer.read_idx.idx ≢ s.buffer.write_idx.idx)
      × (s.buffer.read_idx.idx < 3)
      × (s.buffer.write_idx.idx < 3)
      × ((b : A) → get_read_buffer (write s.buffer b) ≡ get_read_buffer s.buffer)
unfolding get_read_buffer write
Reach-disjoint r =
    let v = Reach-IsValid r in (v.read-ne-write, v.read_in, v.write_in, λ b. ground arith)

-- In every reachable state the consumer's slot holds the initial value or a committed one, the
-- one that was the latest when it last exchanged: `unseen` commits ago.
pub Reach-reading :
    {A : Type 0} {a : A} {s : System A}
    → Reach a s
    → get_elem? s.log s.unseen ≡ some (get_read_buffer s.buffer)
Reach-reading r = (Reach-IsValid r).reading

-- `fetch_update` returns true exactly if something was committed since the last exchange; then
-- the consumer reads the latest commit, and otherwise the buffer is left as it was.
pub fetch_update-latest :
    {A : Type 0} {a : A} {s : System A}
    → Reach a s
    → ((fetch_update s.buffer).1 ≡ ltb 0 s.unseen)
      × (0 < s.unseen → get_elem? s.log 0 ≡ some (get_read_buffer (fetch_update s.buffer).0))
      × (s.unseen ≡ 0 → (fetch_update s.buffer).0 ≡ s.buffer)
unfolding fetch_update get_read_buffer
fetch_update-latest r =
    let v = Reach-IsValid r in
    (ground (arith, v.flag), λ p. ground (arith, v.flag, v.waiting), λ e. ground (arith, v.flag))

-- A commit between the consumer's load and its exchange is not lost: whatever is committed in
-- between, the exchange makes the consumer read the last commit.
pub exchange_latest :
    {A : Type 0} {a : A} {s : System A}
    → Reach a s
    → s.fetching ≡ true
    → get_elem? s.log 0 ≡ some (get_read_buffer (exchanged s).buffer)
unfolding exchanged get_read_buffer
exchange_latest r f = let v = Reach-IsValid r in v.waiting (v.fetch f)
