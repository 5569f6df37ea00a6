-- ===== src/Containers/Link.antt =====
-- include/mart-common/experimental/link.h. Links and targets are addressed by numbers, 0 is
-- `nullptr`. The asserts are switched off, as in a release build, so that the functions return.
pub mod Counts
pub mod Invariant
pub mod Links
pub mod Assign
pub mod Copies
pub mod Targets
mod Tests
use mart_common.Prelude.{
  ℕ, Bool, true, false, List, [], ◌∷◌, map, Option, none, some, ◌==◌, if◌then◌else◌,
}
use mart_common.Prelude.Threads.{update}

-- The memory: `_target` of each `LinkBase`, and the array `_back_ptrs` of each `LinkTargetBase`.
pub record Heap : Type 0 where
  pub target : ℕ → ℕ
  pub back_ptrs : ℕ → List ℕ

-- `std::find` and the write to the element found.
unfoldable pub replace : ℕ → ℕ → List ℕ → Option (List ℕ)
replace old_addr new_addr [] = none
replace old_addr new_addr (x ∷ xs) =
    if x == old_addr
    then some (new_addr ∷ xs)
    else elim (replace old_addr new_addr xs) [ none ↦ none | some ys ↦ some (x ∷ ys) ]

-- `LinkTargetBase::update_back_ref`.
unfoldable pub update_back_ref : Heap → ℕ → ℕ → ℕ → Bool × Heap
unfolding replace
update_back_ref h t old_addr new_addr = elim (replace old_addr new_addr (h.back_ptrs t)) [
  | none ↦ (false, h)
  | some xs ↦ (true, record h { back_ptrs = update h.back_ptrs t xs })
]

unfoldable pub add_back_ref : Heap → ℕ → ℕ → Bool × Heap
unfolding update_back_ref
add_back_ref h t new_addr = update_back_ref h t 0 new_addr

unfoldable pub remove_back_ref : Heap → ℕ → ℕ → Bool × Heap
unfolding update_back_ref
remove_back_ref h t old_addr = update_back_ref h t old_addr 0

abbrev pub set_target : Heap → ℕ → ℕ → Heap
set_target h l t = record h { target = update h.target l t }

-- `if( _target ) { _target->remove_back_ref( this ); }`
unfoldable pub remove_if_linked : Heap → ℕ → Heap
unfolding remove_back_ref
remove_if_linked h this =
    if h.target this == 0 then h else (remove_back_ref h (h.target this) this).1

-- `_target = std::exchange( other._target, nullptr )`, and the update of the target.
unfoldable pub take_over : Heap → ℕ → ℕ → Heap
unfolding update_back_ref
take_over h this other =
    let t = h.target other in
    let g = set_target (set_target h other 0) this t in
    if t == 0 then g else (update_back_ref g t other this).1

-- `LinkBase( LinkBase&& )`.
unfoldable pub move_construct : Heap → ℕ → ℕ → Heap
unfolding take_over
move_construct h this other = take_over h this other

-- `LinkBase( const LinkBase& )`.
unfoldable pub copy_construct : Heap → ℕ → ℕ → Heap
unfolding add_back_ref
copy_construct h this other =
    let g = set_target h this 0 in
    let t = h.target other in
    if t == 0
    then g
    else (let (added, k) = add_back_ref g t this in if added then set_target k this t else k)

unfoldable pub move_assign : Heap → ℕ → ℕ → Heap
unfolding remove_if_linked take_over
move_assign h this other = take_over (remove_if_linked h this) this other

unfoldable pub copy_assign : Heap → ℕ → ℕ → Heap
unfolding remove_if_linked add_back_ref
copy_assign h this other =
    let g = remove_if_linked h this in
    let t = g.target other in
    let k = set_target g this t in if t == 0 then k else (add_back_ref k t this).1

-- `Link::disconnect` and `Link::connect`.
unfoldable pub disconnect : Heap → ℕ → Bool × Heap
unfolding remove_back_ref
disconnect h this =
    if h.target this == 0
    then (false, h)
    else (true, set_target (remove_back_ref h (h.target this) this).1 this 0)

unfoldable pub connect : Heap → ℕ → ℕ → Bool × Heap
unfolding add_back_ref disconnect
connect h this t =
    let (added, g) = add_back_ref h t this in
    if added then (true, set_target (disconnect g this).1 this t) else (false, g)

-- The loops over the back pointers of a target: each link that is there gets the target `t`.
unfoldable pub retarget_all : List ℕ → ℕ → (ℕ → ℕ) → ℕ → ℕ
retarget_all [] t f = f
retarget_all (x ∷ xs) t f = retarget_all xs t (if x == 0 then f else update f x t)

-- `~LinkTargetBase`; the array is gone with the target.
unfoldable pub destroy_target : Heap → ℕ → Heap
unfolding retarget_all
destroy_target h t = record {
  target = retarget_all (h.back_ptrs t) 0 h.target;
  back_ptrs = update h.back_ptrs t [];
}

abbrev pub fill_null : List ℕ → List ℕ
fill_null xs = map (λ _. 0) xs

unfoldable pub sever_all_links : Heap → ℕ → Heap
sever_all_links h t = record h { back_ptrs = update h.back_ptrs t (fill_null (h.back_ptrs t)) }

-- `LinkTarget( LinkTarget&& )` and its assignment run the same statements.
unfoldable pub move_target : Heap → ℕ → ℕ → Heap
unfolding retarget_all
move_target h this other =
    let moved = update h.back_ptrs this (h.back_ptrs other) in
    let b = update moved other (fill_null (moved other)) in
    record { target = retarget_all (b this) this h.target; back_ptrs = b }
