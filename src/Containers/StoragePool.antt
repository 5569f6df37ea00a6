-- ===== src/Containers/StoragePool.antt =====
-- include/mart-common/experimental/StoragePool.h and RefCntPtr.h: the slots of an object store
-- and the counted pointers to them. Slots are numbered from 1, 0 is `nullptr`.
pub mod Counted
pub mod Pointers
pub mod Allocation
mod Tests
use mart_common.Prelude.{
  ℕ, zero, suc, ◌+◌, Bool, true, false, List, [], ◌∷◌, Option, none, some, ◌==◌, if◌then◌else◌,
  get_or, set,
}
use mart_common.Prelude.Threads.{update}

-- The value of `StorageSlot::cnt`: `free` is -1, `used n` is n.
pub data Cnt : Type 0 where
  free : Cnt
  used : ℕ → Cnt

-- The slots, whether each holds an object, and all the `RcPtr` that there are; a pointer that has
-- been destroyed stays in the list as a null pointer.
pub record Pool : Type 0 where
  pub cnt : ℕ → Cnt
  pub alive : ℕ → Bool
  pub ptrs : List ℕ

-- `cnt.fetch_add( 1 )` and `cnt.fetch_sub( 1 )`; -1 is never decremented.
abbrev pub increment : Cnt → Cnt
increment free = used 0
increment (used n) = used (suc n)

abbrev pub decrement : Cnt → Cnt
decrement free = free
decrement (used zero) = free
decrement (used (suc n)) = used n

abbrev pub is_one : Cnt → Bool
is_one free = false
is_one (used n) = n == 1

abbrev pub is_free : Cnt → Bool
is_free free = true
is_free (used n) = false

-- `StorageSlot::rcInc` and `rcDec`: the object is destroyed with its last pointer.
unfoldable pub rc_inc : Pool → ℕ → Pool
rc_inc p k = record p { cnt = update p.cnt k (increment (p.cnt k)) }

unfoldable pub rc_dec : Pool → ℕ → Pool
rc_dec p k =
    if is_one (p.cnt k)
    then record p { cnt = update p.cnt k free; alive = update p.alive k false }
    else record p { cnt = update p.cnt k (decrement (p.cnt k)) }

-- `RcPtr::_condInc` and `_condDec` of a pointer to `k`.
unfoldable pub cond_inc : Pool → ℕ → Pool
unfolding rc_inc
cond_inc p k = if k == 0 then p else rc_inc p k

unfoldable pub cond_dec : Pool → ℕ → Pool
unfolding rc_dec
cond_dec p k = if k == 0 then p else rc_dec p k

-- The pointer number `i`.
abbrev pub ptr : Pool → ℕ → ℕ
ptr p i = get_or p.ptrs i 0

abbrev pub point : Pool → ℕ → ℕ → Pool
point p i k = record p { ptrs = set p.ptrs i k }

abbrev pub new_ptr : Pool → ℕ → Pool
new_ptr p k = record p { ptrs = k ∷ p.ptrs }

-- `RcPtr( E* )`, and `RcPtr( const RcPtr& )` from the pointer `j`.
unfoldable pub construct_ptr : Pool → ℕ → Pool
unfolding cond_inc
construct_ptr p k = cond_inc (new_ptr p k) k

unfoldable pub copy_construct : Pool → ℕ → Pool
unfolding construct_ptr
copy_construct p j = construct_ptr p (ptr p j)

-- `RcPtr( RcPtr&& )`: the old pointer gives its value to the new one.
unfoldable pub move_construct : Pool → ℕ → Pool
move_construct p j = new_ptr (point p j 0) (ptr p j)

-- `operator=( const RcPtr& )`.
unfoldable pub copy_assign : Pool → ℕ → ℕ → Pool
unfolding cond_inc cond_dec
copy_assign p i j = point (cond_dec (cond_inc p (ptr p j)) (ptr p i)) i (ptr p j)

-- `operator=( RcPtr&& )`.
unfoldable pub move_assign : Pool → ℕ → ℕ → Pool
unfolding cond_dec
move_assign p i j = point (point (cond_dec p (ptr p i)) j 0) i (ptr p j)

-- `reset`: the pointer made from `e` is the newest, so the others are one further.
unfoldable pub reset : Pool → ℕ → ℕ → Pool
unfolding construct_ptr move_assign
reset p i e = move_assign (construct_ptr p e) (suc i) 0

unfoldable pub destroy_ptr : Pool → ℕ → Pool
unfolding cond_dec
destroy_ptr p i = point (cond_dec p (ptr p i)) i 0

-- `ObjectStore_Base::alloc` over the slots from `k` on, `n` of them: the first that is free,
-- reserved by the compare-exchange.
unfoldable pub find_free : (ℕ → Cnt) → ℕ → ℕ → Option ℕ
find_free c k zero = none
find_free c k (suc n) = if is_free (c k) then some k else find_free c (k + 1) n

unfoldable pub alloc : ℕ → Pool → Option (ℕ × Pool)
unfolding find_free
alloc size p = elim (find_free p.cnt 1 size) [
  | none ↦ none
  | some k ↦ some (k, record p { cnt = update p.cnt k (used 0) })
]

-- `construct` and `constructMutable`: the new object, and a new pointer to it.
unfoldable pub construct : ℕ → Pool → Option Pool
unfolding alloc construct_ptr
construct size p = elim (alloc size p) [
  | none ↦ none
  | some (k, q) ↦ some (construct_ptr (record q { alive = update q.alive k true }) k)
]
