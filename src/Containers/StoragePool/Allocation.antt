-- ===== src/Containers/StoragePool/Allocation.antt =====
-- Reserving a slot and making an object in it.
use mart_common.Prelude.{
  ℕ, zero, suc, ◌+◌, ◌≤◌, ◌<◌, ◌≡◌, ◌≢◌, ◌⊎◌, inl, inr, refl, sym, ap, ◌∙◌, true, false, not, ◌∷◌,
  none, some, ◌==◌, Bool-cases, Option-cases, ℕ_discrete, ne→beq, arith,
}
use mathlib.Core.Path.{subst}
use mart_common.Prelude.Threads.{update, update_self, update_ne}
use mart_common.Containers.Link.Counts.{count}
use mart_common.Containers.StoragePool.{
  Cnt, used, Pool, increment, is_free, rc_inc, cond_inc, new_ptr, construct_ptr, find_free, alloc,
  construct,
}
use mart_common.Containers.StoragePool.Counted.{state, IsValid}

find_free-here : (c : ℕ → Cnt) (k n : ℕ) → is_free (c k) ≡ true → find_free c k (suc n) ≡ some k
unfolding find_free
find_free-here c k n e = rw (e, find_free) refl

find_free-next :
    (c : ℕ → Cnt) (k n : ℕ) → is_free (c k) ≡ false → find_free c k (suc n) ≡ find_free c (k + 1) n
unfolding find_free
find_free-next c k n e = rw (e, find_free) refl

some_same : (k m : ℕ) → some k ≡ some m → k ≡ m
some_same k m e = ground arith

some-none : (k : ℕ) → some k ≡ none → ⊥
some-none k e = ground arith

find_free-found :
    (c : ℕ → Cnt) (k n m : ℕ)
    → find_free c k n ≡ some m
    → (k ≤ m) × (m < k + n) × (is_free (c m) ≡ true)
unfolding find_free
find_free-found c k zero m e = absurd (ground arith)
find_free-found c k (suc n) m e = elim (Bool-cases (is_free (c k))) [
  | inl here ↦
      let same : k ≡ m = some_same k m (sym (find_free-here c k n here) ∙ e) in
      (omega arith, omega arith, ap (λ i. is_free (c i)) (sym same) ∙ here)
  | inr used_one ↦
      let (lo, hi, f) = find_free-found c (k + 1) n m (sym (find_free-next c k n used_one) ∙ e) in
      (omega arith, omega arith, f)
]

find_free-none :
    (c : ℕ → Cnt) (k n m : ℕ) → find_free c k n ≡ none → k ≤ m → m < k + n → is_free (c m) ≡ false
unfolding find_free
find_free-none c k zero m e lo hi = absurd (omega arith)
find_free-none c k (suc n) m e lo hi = elim (Bool-cases (is_free (c k))) [
  | inl here ↦ absurd (some-none k (sym (find_free-here c k n here) ∙ e))
  | inr used_one ↦ elim (ℕ_discrete k m) [
    | yes same ↦ ap (λ i. is_free (c i)) (sym same) ∙ used_one
    | no later ↦
        find_free-none c (k + 1) n m (sym (find_free-next c k n used_one) ∙ e) (omega arith)
          (omega arith)
  ]
]

state-free : (n : ℕ) → is_free (state n) ≡ (n == 0)
state-free zero = ground arith
state-free (suc n) = ground arith

state-zero : (n : ℕ) → is_free (state n) ≡ true → n ≡ 0
state-zero zero e = refl
state-zero (suc n) e = absurd (ground arith)

-- The heap that `construct` makes of a free slot.
made : Pool → ℕ → Pool
made p k =
    construct_ptr (record p { cnt = update p.cnt k (used 0); alive = update p.alive k true }) k

construct-some :
    (size k : ℕ) (p : Pool) → find_free p.cnt 1 size ≡ some k → construct size p ≡ some (made p k)
unfolding construct alloc made
construct-some size k p e = rw (e, construct) refl

construct-none : (size : ℕ) (p : Pool) → find_free p.cnt 1 size ≡ none → construct size p ≡ none
unfolding construct alloc
construct-none size p e = rw (e, construct) refl

made-is :
    (p : Pool) (k : ℕ)
    → k ≢ 0
    → made p k
      ≡ rc_inc
          (new_ptr (record p { cnt = update p.cnt k (used 0); alive = update p.alive k true }) k)
          k
unfolding made construct_ptr cond_inc
made-is p k nk = rw (ne→beq k 0 nk, cond_inc) refl

abbrev MadeAt : Pool → ℕ → ℕ → Type 0
MadeAt p k i =
    (update (update p.cnt k (used 0)) k (increment (update p.cnt k (used 0) k)) i
      ≡ state (count i (k ∷ p.ptrs)))
    × (update p.alive k true i ≡ not (count i (k ∷ p.ptrs) == 0))

made_here : (p : Pool) (k : ℕ) → count k p.ptrs ≡ 0 → MadeAt p k k
made_here p k z = (
  update_self (update p.cnt k (used 0)) k (increment (update p.cnt k (used 0) k))
      ∙ ap increment (update_self p.cnt k (used 0))
      ∙ ap state {x = 1} {y = count k (k ∷ p.ptrs)} (ground arith),
  update_self p.alive k true ∙ ground arith,
)

made_elsewhere : (p : Pool) (k i : ℕ) → IsValid p → i ≢ 0 → k ≢ i → MadeAt p k i
made_elsewhere p k i v ni ne =
    let e : count i p.ptrs ≡ count i (k ∷ p.ptrs) = ground arith in
    (
      update_ne (update p.cnt k (used 0)) k i (increment (update p.cnt k (used 0) k)) ne
          ∙ update_ne p.cnt k i (used 0) ne
          ∙ (v i ni).0
          ∙ ap state e,
      update_ne p.alive k i true ne ∙ (v i ni).1 ∙ ap (λ n. not (n == 0)) e,
    )

made_counts : (p : Pool) (k i : ℕ) → IsValid p → count k p.ptrs ≡ 0 → i ≢ 0 → MadeAt p k i
made_counts p k i v z ni = elim (ℕ_discrete k i) [
  | yes same ↦ subst (MadeAt p k) same (made_here p k z)
  | no ne ↦ made_elsewhere p k i v ni ne
]

made-IsValid : (p : Pool) (k : ℕ) → IsValid p → k ≢ 0 → count k p.ptrs ≡ 0 → IsValid (made p k)
unfolding rc_inc
made-IsValid p k v nk z = subst IsValid (sym (made-is p k nk)) (λ i ni. made_counts p k i v z ni)

made-ptrs : (p : Pool) (k : ℕ) → k ≢ 0 → (made p k).ptrs ≡ k ∷ p.ptrs
unfolding rc_inc
made-ptrs p k nk = ap (λ q. q.ptrs) (made-is p k nk)

-- `construct` makes an object in a slot that held none, with one pointer to it, the new one, and
-- keeps every slot counted; it fails only if every slot of the store holds an object.
pub construct-IsValid :
    (size : ℕ) (p : Pool)
    → IsValid p
    → ((k : ℕ) × (q : Pool) × (construct size p ≡ some q)
        × (k ≢ 0)
        × (k ≤ size)
        × (p.alive k ≡ false)
        × (q.ptrs ≡ k ∷ p.ptrs)
        × IsValid q)
      ⊎ ((construct size p ≡ none) × ((k : ℕ) → k ≢ 0 → k ≤ size → p.alive k ≡ true))
construct-IsValid size p v = elim (Option-cases (find_free p.cnt 1 size)) [
  | inl e ↦ inr (
    construct-none size p e,
    λ k nk hk.
        let f = find_free-none p.cnt 1 size k e (omega arith) (omega arith) in
        (v k nk).1 ∙ ap not (sym (state-free (count k p.ptrs)) ∙ ap is_free (sym (v k nk).0) ∙ f),
  )
  | inr (k, e) ↦
      let (lo, hi, f) = find_free-found p.cnt 1 size k e in
      let nk : k ≢ 0 = omega arith in
      let z : count k p.ptrs ≡ 0 = state-zero (count k p.ptrs) (ap is_free (sym (v k nk).0) ∙ f) in
      inl (
        k,
        made p k,
        construct-some size k p e,
        nk,
        omega arith,
        (v k nk).1 ∙ ap (λ n. not (n == 0)) z,
        made-ptrs p k nk,
        made-IsValid p k v nk z,
      )
]
