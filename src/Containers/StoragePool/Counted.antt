-- ===== src/Containers/StoragePool/Counted.antt =====
-- What the counts are to say, and what the elementary steps do to them.
use mart_common.Prelude.{
  ℕ, zero, suc, ◌+◌, ◌<◌, ◌≡◌, ◌≢◌, refl, sym, ap, ◌∙◌, true, false, not, ◌==◌, ℕ_discrete, arith,
}
use mathlib.Core.Path.{subst}
use mart_common.Prelude.Threads.{update, update_self, update_ne}
use mart_common.Containers.Link.Counts.{count, one}
use mart_common.Containers.StoragePool.{
  Cnt, free, used, Pool, increment, decrement, is_one, rc_inc, rc_dec,
}

-- The count of a slot with `n` pointers.
abbrev pub state : ℕ → Cnt
state zero = free
state (suc n) = used (suc n)

-- The slots are counted as `f` says, and hold an object if and only if that is not 0.
abbrev pub IsCounted : Pool → (ℕ → ℕ) → Type 0
IsCounted p f = (k : ℕ) → k ≢ 0 → (p.cnt k ≡ state (f k)) × (p.alive k ≡ not (f k == 0))

-- Every slot counts the pointers to it, and holds an object exactly while there are some.
abbrev pub IsValid : Pool → Type 0
IsValid p = IsCounted p (λ k. count k p.ptrs)

increment-state : (n : ℕ) → 0 < n → increment (state n) ≡ state (suc n)
increment-state zero h = absurd (omega arith)
increment-state (suc n) h = refl

decrement-state :
    (n : ℕ) → 0 < n → (decrement (state (suc n)) ≡ state n) × (is_one (state (suc n)) ≡ false)
decrement-state zero h = absurd (omega arith)
decrement-state (suc n) h = (refl, ground arith)

pub IsCounted-ext :
    (p : Pool) (f g : ℕ → ℕ) → ((k : ℕ) → k ≢ 0 → f k ≡ g k) → IsCounted p f → IsCounted p g
IsCounted-ext p f g e c k nk = rw (sym (e k nk)) (c k nk)

pub rc_inc_lem :
    (p : Pool) (x : ℕ) (f : ℕ → ℕ)
    → IsCounted p f
    → 0 < f x
    → x ≢ 0
    → IsCounted (rc_inc p x) (λ k. f k + one k x)
unfolding rc_inc
rc_inc_lem p x f c l nx k nk = elim (ℕ_discrete x k) [
  | yes same ↦ rw (sym same) (
    update_self p.cnt x (increment (p.cnt x))
        ∙ ap increment (c x nx).0
        ∙ increment-state (f x) l
        ∙ ap state {x = suc (f x)} {y = f x + one x x} (ground arith),
    (c x nx).1 ∙ ground arith,
  )
  | no ne ↦ (
    update_ne p.cnt x k (increment (p.cnt x)) ne
        ∙ (c k nk).0
        ∙ ap state {x = f k} {y = f k + one k x} (ground arith),
    (c k nk).1 ∙ ground arith,
  )
]

rc_dec-last :
    (p : Pool) (x : ℕ)
    → is_one (p.cnt x) ≡ true
    → rc_dec p x ≡ record p { cnt = update p.cnt x free; alive = update p.alive x false }
unfolding rc_dec
rc_dec-last p x e = rw (e, rc_dec) refl

rc_dec-more :
    (p : Pool) (x : ℕ)
    → is_one (p.cnt x) ≡ false
    → rc_dec p x ≡ record p { cnt = update p.cnt x (decrement (p.cnt x)) }
unfolding rc_dec
rc_dec-more p x e = rw (e, rc_dec) refl

dec_last :
    (p : Pool) (x : ℕ) (f g : ℕ → ℕ)
    → IsCounted p f
    → ((k : ℕ) → k ≢ 0 → g k + one k x ≡ f k)
    → x ≢ 0
    → f x ≡ 1
    → IsCounted (record p { cnt = update p.cnt x free; alive = update p.alive x false }) g
dec_last p x f g c e nx l k nk = elim (ℕ_discrete x k) [
  | yes same ↦
      let z : g x ≡ 0 = ground (arith, e x nx) in
      rw (sym same) (
        update_self p.cnt x free ∙ ap state (sym z),
        update_self p.alive x false ∙ ap (λ n. not (n == 0)) (sym z),
      )
  | no ne ↦
      let z : f k ≡ g k = ground (arith, e k nk) in
      (
        update_ne p.cnt x k free ne ∙ (c k nk).0 ∙ ap state z,
        update_ne p.alive x k false ne ∙ (c k nk).1 ∙ ap (λ n. not (n == 0)) z,
      )
]

dec_more :
    (p : Pool) (x : ℕ) (f g : ℕ → ℕ)
    → IsCounted p f
    → ((k : ℕ) → k ≢ 0 → g k + one k x ≡ f k)
    → x ≢ 0
    → 0 < g x
    → IsCounted (record p { cnt = update p.cnt x (decrement (p.cnt x)) }) g
dec_more p x f g c e nx l k nk = elim (ℕ_discrete x k) [
  | yes same ↦
      let z : f x ≡ suc (g x) = ground (arith, e x nx) in
      rw (sym same) (
        update_self p.cnt x (decrement (p.cnt x))
            ∙ ap decrement ((c x nx).0 ∙ ap state z)
            ∙ (decrement-state (g x) l).0,
        (c x nx).1 ∙ ground arith,
      )
  | no ne ↦
      let z : f k ≡ g k = ground (arith, e k nk) in
      (
        update_ne p.cnt x k (decrement (p.cnt x)) ne ∙ (c k nk).0 ∙ ap state z,
        (c k nk).1 ∙ ap (λ n. not (n == 0)) z,
      )
]

-- A pointer to `x` less: the object goes with the last one.
pub rc_dec_lem :
    (p : Pool) (x : ℕ) (f g : ℕ → ℕ)
    → IsCounted p f
    → ((k : ℕ) → k ≢ 0 → g k + one k x ≡ f k)
    → x ≢ 0
    → IsCounted (rc_dec p x) g
rc_dec_lem p x f g c e nx =
    let z : f x ≡ suc (g x) = ground (arith, e x nx) in
    elim (ℕ_discrete (g x) 0) [
      | yes last ↦
          let one_left : f x ≡ 1 = omega arith in
          subst (λ q. IsCounted q g)
            (sym (rc_dec-last p x (ap is_one ((c x nx).0 ∙ ap state one_left))))
            (dec_last p x f g c e nx one_left)
      | no more ↦
          subst (λ q. IsCounted q g)
            (sym (
              rc_dec-more p x
                (ap is_one ((c x nx).0 ∙ ap state z) ∙ (decrement-state (g x) (omega arith)).1)))
            (dec_more p x f g c e nx (omega arith))
    ]
