-- ===== src/Containers/StoragePool/Pointers.antt =====
-- The operations of the pointers keep every slot counted.
use mart_common.Prelude.{
  ℕ, zero, suc, ◌+◌, ◌<◌, ◌≡◌, ◌≢◌, refl, sym, ap, ◌∙◌, false, not, List, [], ◌∷◌, ◌==◌, get_or,
  set, length, ℕ_discrete, ne→beq, eq→beq, arith,
}
use mart_common.Containers.Link.Counts.{count, one}
use mart_common.Containers.StoragePool.{
  Pool, rc_inc, rc_dec, cond_inc, cond_dec, ptr, new_ptr, construct_ptr, copy_construct,
  move_construct, copy_assign, move_assign, destroy_ptr,
}
use mart_common.Containers.StoragePool.Counted.{
  IsCounted, IsValid, IsCounted-ext, rc_inc_lem, rc_dec_lem,
}

count-set :
    (xs : List ℕ) (i v k : ℕ)
    → i < length xs
    → count k (set xs i v) + one k (get_or xs i 0) ≡ count k xs + one k v
count-set [] i v k h = absurd (omega arith)
count-set (x ∷ xs) zero v k h = omega arith
count-set (x ∷ xs) (suc i) v k h = omega (arith, count-set xs i v k (omega arith))

count-get : (xs : List ℕ) (i : ℕ) → get_or xs i 0 ≢ 0 → 0 < count (get_or xs i 0) xs
count-get [] i h = absurd (h refl)
count-get (x ∷ xs) zero h = ground arith
count-get (x ∷ xs) (suc i) h = omega (arith, count-get xs i h)

get_or-set_ne : (xs : List ℕ) (i j v : ℕ) → i ≢ j → get_or (set xs j v) i 0 ≡ get_or xs i 0
get_or-set_ne [] i j v h = refl
get_or-set_ne (x ∷ xs) zero zero v h = absurd (h refl)
get_or-set_ne (x ∷ xs) zero (suc j) v h = refl
get_or-set_ne (x ∷ xs) (suc i) zero v h = refl
get_or-set_ne (x ∷ xs) (suc i) (suc j) v h = get_or-set_ne xs i j v (λ e. h (ap suc e))

get_or-set_self : (xs : List ℕ) (i v : ℕ) → i < length xs → get_or (set xs i v) i 0 ≡ v
get_or-set_self [] i v h = absurd (omega arith)
get_or-set_self (x ∷ xs) zero v h = refl
get_or-set_self (x ∷ xs) (suc i) v h = get_or-set_self xs i v (omega arith)

length-set : (xs : List ℕ) (i v : ℕ) → length (set xs i v) ≡ length xs
length-set [] i v = refl
length-set (x ∷ xs) zero v = refl
length-set (x ∷ xs) (suc i) v = ap suc (length-set xs i v)

cond_inc_lem :
    (p : Pool) (x : ℕ) (f : ℕ → ℕ)
    → IsCounted p f
    → (x ≢ 0 → 0 < f x)
    → IsCounted (cond_inc p x) (λ k. f k + one k x)
unfolding cond_inc
cond_inc_lem p x f c l = elim (ℕ_discrete x 0) [
  | yes null ↦
      rw (eq→beq x 0 null, cond_inc)
        (IsCounted-ext p f (λ k. f k + one k x) (λ k nk. ground arith) c)
  | no ne ↦ rw (ne→beq x 0 ne, cond_inc) (rc_inc_lem p x f c (l ne) ne)
]

cond_dec_lem :
    (p : Pool) (x : ℕ) (f g : ℕ → ℕ)
    → IsCounted p f
    → ((k : ℕ) → k ≢ 0 → g k + one k x ≡ f k)
    → IsCounted (cond_dec p x) g
unfolding cond_dec
cond_dec_lem p x f g c e = elim (ℕ_discrete x 0) [
  | yes null ↦
      rw (eq→beq x 0 null, cond_dec) (IsCounted-ext p f g (λ k nk. ground (arith, e k nk)) c)
  | no ne ↦ rw (ne→beq x 0 ne, cond_dec) (rc_dec_lem p x f g c e ne)
]

cond_inc-ptrs : (p : Pool) (x : ℕ) → (cond_inc p x).ptrs ≡ p.ptrs
unfolding cond_inc rc_inc
cond_inc-ptrs p x = ground arith

cond_dec-ptrs : (p : Pool) (x : ℕ) → (cond_dec p x).ptrs ≡ p.ptrs
unfolding cond_dec rc_dec
cond_dec-ptrs p x = ground arith

module _ (p : Pool) (v : IsValid p) where
  linked : (j : ℕ) → ptr p j ≢ 0 → 0 < count (ptr p j) p.ptrs
  linked j = count-get p.ptrs j

  copy_assign-IsValid : (i j : ℕ) → i < length p.ptrs → IsValid (copy_assign p i j)
  unfolding copy_assign
  copy_assign-IsValid i j h =
      let q : Pool = cond_dec (cond_inc p (ptr p j)) (ptr p i) in
      let e : q.ptrs ≡ p.ptrs =
        cond_dec-ptrs (cond_inc p (ptr p j)) (ptr p i) ∙ cond_inc-ptrs p (ptr p j) in
      IsCounted-ext q (λ k. count k (set p.ptrs i (ptr p j)))
        (λ k. count k (set q.ptrs i (ptr p j)))
        (λ k _. ap (λ xs. count k (set xs i (ptr p j))) (sym e))
        (cond_dec_lem (cond_inc p (ptr p j)) (ptr p i) (λ k. count k p.ptrs + one k (ptr p j))
          (λ k. count k (set p.ptrs i (ptr p j)))
          (cond_inc_lem p (ptr p j) (λ k. count k p.ptrs) v (linked j))
          (λ k _. count-set p.ptrs i (ptr p j) k h))

  -- One pointer gives `x` up, whatever it is set to that counts the same.
  give_up :
      (i x : ℕ) (xs : List ℕ)
      → ((k : ℕ) → k ≢ 0 → count k xs + one k x ≡ count k p.ptrs)
      → IsCounted (cond_dec p x) (λ k. count k xs)
  give_up i x xs e = cond_dec_lem p x (λ k. count k p.ptrs) (λ k. count k xs) v e

  destroy_ptr-IsValid : (i : ℕ) → i < length p.ptrs → IsValid (destroy_ptr p i)
  unfolding destroy_ptr
  destroy_ptr-IsValid i h =
      IsCounted-ext (cond_dec p (ptr p i)) (λ k. count k (set p.ptrs i 0)) _
        (λ k _. ap (λ xs. count k (set xs i 0)) (sym (cond_dec-ptrs p (ptr p i))))
        (give_up i (ptr p i) (set p.ptrs i 0) (λ k nk. count-set p.ptrs i 0 k h ∙ ground arith))

  move_counts :
      (i j k : ℕ)
      → i < length p.ptrs
      → j < length p.ptrs
      → i ≢ j
      → k ≢ 0
      → count k (set (set p.ptrs j 0) i (ptr p j)) + one k (ptr p i) ≡ count k p.ptrs
  move_counts i j k hi hj ne nk =
      let a : ptr p i ≡ get_or (set p.ptrs j 0) i 0 = sym (get_or-set_ne p.ptrs i j 0 ne) in
      let b = count-set (set p.ptrs j 0) i (ptr p j) k (omega (arith, length-set p.ptrs j 0)) in
      let c = count-set p.ptrs j 0 k hj in let z : one k 0 ≡ 0 = ground arith in rw a (omega arith)

  move_assign-IsValid :
      (i j : ℕ) → i < length p.ptrs → j < length p.ptrs → i ≢ j → IsValid (move_assign p i j)
  unfolding move_assign
  move_assign-IsValid i j hi hj ne =
      IsCounted-ext (cond_dec p (ptr p i)) (λ k. count k (set (set p.ptrs j 0) i (ptr p j))) _
        (λ k _. ap (λ xs. count k (set (set xs j 0) i (ptr p j))) (sym (cond_dec-ptrs p (ptr p i))))
        (give_up i (ptr p i) (set (set p.ptrs j 0) i (ptr p j)) (λ k. move_counts i j k hi hj ne))

  construct_ptr-IsValid : (x : ℕ) → (x ≢ 0 → 0 < count x p.ptrs) → IsValid (construct_ptr p x)
  unfolding construct_ptr
  construct_ptr-IsValid x l =
      IsCounted-ext (cond_inc (new_ptr p x) x) (λ k. count k p.ptrs + one k x) _
        (λ k _. omega arith ∙ ap (count k) (sym (cond_inc-ptrs (new_ptr p x) x)))
        (cond_inc_lem (new_ptr p x) x (λ k. count k p.ptrs) v l)

  -- Copying, moving and destroying pointers, by construction or assignment, keeps every slot
  -- counted, so that its object is there as long as a pointer to it is, and no longer. A move
  -- assignment is meant to be from another pointer.
  pub pointers-IsValid :
      (i j : ℕ)
      → i < length p.ptrs
      → j < length p.ptrs
      → IsValid (copy_construct p j)
        × IsValid (move_construct p j)
        × IsValid (copy_assign p i j)
        × (i ≢ j → IsValid (move_assign p i j))
        × IsValid (destroy_ptr p i)
  unfolding copy_construct move_construct
  pointers-IsValid i j hi hj = (
    construct_ptr-IsValid (ptr p j) (linked j),
    IsCounted-ext p (λ k. count k p.ptrs) (λ k. count k (ptr p j ∷ set p.ptrs j 0))
        (λ k nk. ground (arith, count-set p.ptrs j 0 k hj)) v,
    copy_assign-IsValid i j hi,
    λ ne. move_assign-IsValid i j hi hj ne,
    destroy_ptr-IsValid i hi,
  )

-- A pointer that is moved to itself gives its object up and still leads there.
pub move_assign_self :
    (p : Pool) (i : ℕ)
    → IsValid p
    → i < length p.ptrs
    → ptr p i ≢ 0
    → (ptr (move_assign p i i) i ≡ ptr p i)
      × (count (ptr p i) p.ptrs ≡ 1 → (move_assign p i i).alive (ptr p i) ≡ false)
unfolding move_assign
move_assign_self p i v h ne =
    let q : Pool = cond_dec p (ptr p i) in
    let e : length q.ptrs ≡ length p.ptrs = ap length (cond_dec-ptrs p (ptr p i)) in
    (
      get_or-set_self (set q.ptrs i 0) i (ptr p i) (omega (arith, length-set q.ptrs i 0)),
      λ last.
          (give_up p v i (ptr p i) (set p.ptrs i 0)
            (λ k nk. count-set p.ptrs i 0 k h ∙ ground arith) (ptr p i) ne).1
          ∙ ap (λ n. not (n == 0)) {x = count (ptr p i) (set p.ptrs i 0)} {y = 0}
              (ground (arith, count-set p.ptrs i 0 (ptr p i) h)),
    )
