-- ===== src/Containers/DynArray.antt =====
-- `DynArrayTriv` of include/mart-common/experimental/DynArray.h. The heap has the blocks that are
-- allocated now, by their addresses; `none` as a result is undefined behaviour: a read or a write
-- outside of a block, or a block given back with another size than it was taken with.
pub mod Blocks
mod Tests
use mart_common.Prelude.{
  ℕ, zero, suc, ◌+◌, ◌==◌, ◌<◌, ◌≡◌, Bool, List, [], ◌∷◌, ◌++◌, Option, none, some, ◌>>=◌, ltb, leb,
  if◌then◌else◌, length, take, drop, replicate,
}
use mart_common.Prelude.Threads.{update}

pub record Heap (A : Type 0) : Type 0 where
  pub block : ℕ → Option (List A)
  -- the address of the next block
  pub next : ℕ

-- none is a null pointer.
pub record DynArray : Type 0 where
  pub data_ : Option ℕ
  pub size : ℕ

abbrev pub null : DynArray
null = record { data_ = none; size = 0 }

-- The new object and the one moved from.
unfoldable pub move_construct : DynArray → DynArray × DynArray
move_construct other = (other, null)

-- The object assigned to and the one moved from.
unfoldable pub move_assign : DynArray → DynArray → DynArray × DynArray
move_assign this other = (other, null)

module _ {A : Type 0} where
  -- `Alloc{}.allocate( n )`: what is in a new block is given as `junk`.
  abbrev pub allocate : A → ℕ → Heap A → ℕ × Heap A
  allocate junk n h = (
    h.next,
    record { block = update h.block h.next (some (replicate n junk)); next = h.next + 1 },
  )

  -- `Alloc{}.deallocate( p, n )`.
  abbrev pub deallocate : ℕ → ℕ → Heap A → Option (Heap A)
  deallocate p n h = do
    xs ← h.block p
    if length xs == n then some (record h { block = update h.block p none }) else none

  -- The first `n` elements from `p` on.
  abbrev pub read : Option ℕ → ℕ → Heap A → Option (List A)
  read none n h = if n == 0 then some [] else none
  read (some p) n h = do xs ← h.block p; if leb n (length xs) then some (take n xs) else none

  -- `std::copy` of the elements `ys` to `p`.
  abbrev pub write : List A → Option ℕ → Heap A → Option (Heap A)
  write ys none h = if length ys == 0 then some h else none
  write ys (some p) h = do
    xs ← h.block p
    if leb (length ys) (length xs)
        then some (record h { block = update h.block p (some (ys ++ drop (length ys) xs)) })
        else none

  -- `DynArrayTriv( size )`.
  unfoldable pub make : A → ℕ → Heap A → DynArray × Heap A
  make junk size h =
      let (p, h) = allocate junk size h in (record { data_ = some p; size = size }, h)

  -- From an initializer list, and from two iterators.
  unfoldable pub make_from : A → List A → Heap A → Option (DynArray × Heap A)
  unfolding make
  make_from junk init h = do
    let (a, h) = make junk (length init) h
    h ← write init a.data_ h
    some (a, h)

  unfoldable pub copy_construct : A → DynArray → Heap A → Option (DynArray × Heap A)
  unfolding make
  copy_construct junk other h = do
    let (a, h) = make junk other.size h
    ys ← read other.data_ other.size h
    h ← write ys a.data_ h
    some (a, h)

  unfoldable pub copy_assign : A → DynArray → DynArray → Heap A → Option (DynArray × Heap A)
  copy_assign junk this other h = do
    let (data_, h) =
        if ltb this.size other.size
        then (let (p, h) = allocate junk other.size h in (some p, h))
        else (this.data_, h)
    ys ← read other.data_ other.size h
    h ← write ys data_ h
    some (record { data_ = data_; size = other.size }, h)

  -- `append` of an object that is kept.
  unfoldable pub append : A → A → DynArray → Heap A → Option (DynArray × Heap A)
  unfolding make
  append junk t this h = do
    let (ret, h) = make junk (this.size + 1) h
    ys ← read this.data_ this.size h
    h ← write (ys ++ t ∷ []) ret.data_ h
    some (ret, h)

  unfoldable pub destroy : DynArray → Heap A → Option (Heap A)
  destroy this h = elim this.data_ [ none ↦ some h | some p ↦ deallocate p this.size h ]

  unfoldable pub elements : DynArray → Heap A → Option (List A)
  elements this h = read this.data_ this.size h
