-- ===== src/Containers/CircularBuffer/Refine.antt =====
-- The buffer against the queue of the elements that it holds, and where it stops being one.
use mart_common.Prelude.{
  ℕ, zero, suc, ◌+◌, ◌-◌, ◌%◌, ◌≤◌, ◌<◌, ◌≡◌, ◌≢◌, ◌⊎◌, inl, inr, refl, sym, ap, ◌∙◌, true, List,
  [], ◌∷◌, ◌++◌, ◌==◌, length, get_elem?, some, dec_lt, arith,
}
use mathlib.Core.Path.{ap₂}
use native.Mathlib.Nat.{mod_self, mod-add-mod, mod-eq_of_lt, mod-eq-sub-mod}
use mart_common.Prelude.Threads.{update, update_self, update_ne}
use mart_common.Containers.CircularBuffer.{CircularBuffer, push_back, pop_front, at, size, empty}

add-mod-inside : (N h k : ℕ) → h < N → suc k < N → (h + suc k) % N ≢ h
add-mod-inside N h k hh hk = elim (dec_lt (h + suc k) N) [
  | yes short ↦ omega (arith, mod-eq_of_lt short)
  | no long ↦ omega (
    arith,
    mod-eq-sub-mod {n = h + suc k} {m = N} (omega arith),
    mod-eq_of_lt {n = h + suc k - N} {m = N} (omega arith),
  )
]

-- Going on from the next index is going one further.
shift : (N h n : ℕ) → ((h + 1) % N + n) % N ≡ (h + suc n) % N
shift N h n = rw mod-add-mod (ap (λ k. k % N) (omega arith))

next-cases :
    (N i : ℕ) → i < N → ((i + 1 < N) × ((i + 1) % N ≡ i + 1)) ⊎ ((i + 1 ≡ N) × ((i + 1) % N ≡ 0))
next-cases N i h = elim (dec_lt (i + 1) N) [
  | yes inside ↦ inl (inside, mod-eq_of_lt inside)
  | no last ↦ let e : i + 1 ≡ N = omega arith in inr (e, rw e (mod_self N))
]

wrapped_index : (N r w : ℕ) → w < r → r < N → (r + (w + N - r)) % N ≡ w
wrapped_index N r w h hr =
    let e : r + (w + N - r) ≡ w + N = omega arith in
    rw e (mod-eq-sub-mod {n = w + N} {m = N} (omega arith) ∙ rw back (mod-eq_of_lt (omega arith)))
  where
    back : w + N - N ≡ w
    back = omega arith

straight_index : (N r w : ℕ) → r ≤ w → w < N → (r + (w - r)) % N ≡ w
straight_index N r w h hw = let e : r + (w - r) ≡ w = omega arith in rw e (mod-eq_of_lt hw)

module _ {A : Type 0} (N : ℕ) where
  -- Both indices lie in the array.
  pub record IsValid (b : CircularBuffer A) : Type 0 where
    pub read_in : b.next_read < N
    pub write_in : b.next_write < N

  -- The `n` elements from index `h` on, round the end of the array.
  window : (ℕ → A) → ℕ → ℕ → List A
  window f h zero = []
  window f h (suc n) = f h ∷ window f ((h + 1) % N) n

  pub contents : CircularBuffer A → List A
  contents b = window b.slots b.next_read (size N b)

  length-window : (f : ℕ → A) (h n : ℕ) → length (window f h n) ≡ n
  unfolding window
  length-window f h zero = refl
  length-window f h (suc n) = ap suc (length-window f ((h + 1) % N) n)

  get_elem?-window :
      (f : ℕ → A) (h n i : ℕ) → h < N → i < n → get_elem? (window f h n) i ≡ some (f ((h + i) % N))
  unfolding window
  get_elem?-window f h zero i hh hi = absurd (omega arith)
  get_elem?-window f h (suc n) zero hh hi =
      let plain : h + 0 ≡ h = omega arith in rw (plain, mod-eq_of_lt hh)
  get_elem?-window f h (suc n) (suc i) hh hi =
      get_elem?-window f ((h + 1) % N) n i (omega arith) (omega arith)
      ∙ ap (λ k. some (f k)) (shift N h i)

  window-push :
      (f : ℕ → A) (a : A) (h n i : ℕ)
      → h < N
      → n < N
      → i ≡ (h + n) % N
      → window (update f i a) h (suc n) ≡ window f h n ++ a ∷ []
  unfolding window
  window-push f a h zero i hh hn e =
      let plain : h + 0 ≡ h = omega arith in
      let same : i ≡ h = e ∙ ap (λ k. k % N) plain ∙ mod-eq_of_lt hh in rw (same, update_self f h a)
  window-push f a h (suc n) i hh hn e =
      ap₂ ◌∷◌ (update_ne f i h a (λ same. add-mod-inside N h n hh hn (sym e ∙ same)))
        (window-push f a ((h + 1) % N) n i (omega arith) (omega arith) (e ∙ sym (shift N h n)))

  write_index : (b : CircularBuffer A) → IsValid b → b.next_write ≡ (b.next_read + size N b) % N
  unfolding size
  write_index b v =
      ground
        (arith, straight_index N b.next_read b.next_write, wrapped_index N b.next_read b.next_write)

  size-lt : (b : CircularBuffer A) → IsValid b → size N b < N
  unfolding size
  size-lt b v = ground arith

  -- The size after a push, short of the capacity.
  size-push_back :
      (b : CircularBuffer A) (a : A)
      → IsValid b
      → size N b + 1 < N
      → size N (push_back N b a) ≡ suc (size N b)
  unfolding size push_back
  size-push_back b a v h = ground (arith, next-cases N b.next_write v.write_in)

  size-pop_front :
      (b : CircularBuffer A) → IsValid b → 0 < size N b → size N (pop_front N b).1 + 1 ≡ size N b
  unfolding size pop_front
  size-pop_front b v h = ground (arith, next-cases N b.next_read v.read_in)

  -- Pushing within the capacity, one slot always left free, appends to the elements held, keeps
  -- the invariant and counts one more.
  pub push_back_refines :
      (b : CircularBuffer A) (a : A)
      → IsValid b
      → size N b + 1 < N
      → IsValid (push_back N b a)
        × (size N (push_back N b a) ≡ suc (size N b))
        × (contents (push_back N b a) ≡ contents b ++ a ∷ [])
  unfolding contents push_back
  push_back_refines b a v h = (
    ground (arith, next-cases N b.next_write v.write_in),
    size-push_back b a v h,
    ap (window (update b.slots b.next_write a) b.next_read) (size-push_back b a v h)
        ∙ window-push b.slots a b.next_read (size N b) b.next_write v.read_in (omega arith)
            (write_index b v),
  )

  -- Popping from a buffer that is not empty returns the element at the front and leaves the rest.
  pub pop_front_refines :
      (b : CircularBuffer A)
      → IsValid b
      → 0 < size N b
      → IsValid (pop_front N b).1 × (contents b ≡ (pop_front N b).0 ∷ contents (pop_front N b).1)
  unfolding contents pop_front window
  pop_front_refines b v h = (
    ground (arith, next-cases N b.next_read v.read_in),
    ap (window b.slots b.next_read) {x = size N b} {y = suc (size N (pop_front N b).1)}
        (omega (arith, size-pop_front b v h)),
  )

  -- Indexing agrees with the elements held, and `empty` and `size` with their number.
  pub at_refines :
      (b : CircularBuffer A)
      → IsValid b
      → (length (contents b) ≡ size N b)
        × ((i : ℕ) → i < size N b → get_elem? (contents b) i ≡ some (at N b i))
        × (empty N b ≡ (size N b == 0))
  unfolding contents at empty
  at_refines b v = (
    length-window b.slots b.next_read (size N b),
    λ i. get_elem?-window b.slots b.next_read (size N b) i v.read_in,
    refl,
  )

  -- The capacity is N - 1 elements: pushing on to a buffer that holds N - 1 leaves it with size 0,
  -- so it reports itself empty and all elements are lost; popping from an empty one leaves N - 1.
  pub push_back_full :
      (b : CircularBuffer A) (a : A)
      → IsValid b
      → (size N b + 1 ≡ N → (size N (push_back N b a) ≡ 0) × (empty N (push_back N b a) ≡ true))
        × (size N b ≡ 0 → size N (pop_front N b).1 + 1 ≡ N)
  unfolding size push_back pop_front empty
  push_back_full b a v =
      ground (arith, next-cases N b.next_write v.write_in, next-cases N b.next_read v.read_in)
