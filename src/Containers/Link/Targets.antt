-- ===== src/Containers/Link/Targets.antt =====
-- What happens to the links when their target is destroyed, moved or told to sever them.
use mart_common.Prelude.{
  ℕ, ◌≡◌, ◌≢◌, refl, ap, sym, ◌∙◌, List, [], ◌∷◌, ◌==◌, if◌then◌else◌, ℕ_discrete, ne→beq, eq→beq,
  arith,
}
use mart_common.Prelude.Threads.{update, update_self, update_ne}
use mart_common.Containers.Link.{
  Heap, retarget_all, destroy_target, fill_null, sever_all_links, move_target,
}
use mart_common.Containers.Link.Counts.{count}
use mart_common.Containers.Link.Invariant.{IsConsistent}

retarget_all-null :
    (xs : List ℕ) (t x k : ℕ) (f : ℕ → ℕ)
    → x ≡ 0
    → retarget_all (x ∷ xs) t f k ≡ retarget_all xs t f k
unfolding retarget_all
retarget_all-null xs t x k f e = rw (eq→beq x 0 e, retarget_all) refl

retarget_all-link :
    (xs : List ℕ) (t x k : ℕ) (f : ℕ → ℕ)
    → x ≢ 0
    → retarget_all (x ∷ xs) t f k ≡ retarget_all xs t (update f x t) k
unfolding retarget_all
retarget_all-link xs t x k f ne = rw (ne→beq x 0 ne, retarget_all) refl

-- The links among the back pointers get the target, the others keep theirs.
retarget_all_lem :
    (xs : List ℕ) (t k : ℕ) (f : ℕ → ℕ)
    → k ≢ 0
    → retarget_all xs t f k ≡ (if count k xs == 0 then f k else t)
unfolding retarget_all
retarget_all_lem [] t k f nk = refl
retarget_all_lem (x ∷ xs) t k f nk = elim (ℕ_discrete x 0) [
  | yes null ↦ retarget_all-null xs t x k f null ∙ retarget_all_lem xs t k f nk ∙ ground arith
  | no link ↦
      retarget_all-link xs t x k f link ∙ retarget_all_lem xs t k (update f x t) nk ∙ ground arith
]

count-fill_null : (k : ℕ) (xs : List ℕ) → k ≢ 0 → count k (fill_null xs) ≡ 0
count-fill_null k [] nk = refl
count-fill_null k (x ∷ xs) nk = ground (arith, count-fill_null k xs)

-- The target of a link once those that lead to `t` lead to `u`.
abbrev pub redirect : ℕ → ℕ → ℕ → ℕ
redirect t u v = if v == t then u else v

retarget-redirect :
    (h : Heap) (t u k : ℕ)
    → IsConsistent h
    → t ≢ 0
    → k ≢ 0
    → retarget_all (h.back_ptrs t) u h.target k ≡ redirect t u (h.target k)
retarget-redirect h t u k c nt nk =
    retarget_all_lem (h.back_ptrs t) u k h.target nk ∙ ground (arith, c t k nt nk)

-- When a target is destroyed, the links that led to it have none, the others keep theirs, and
-- both sides stay consistent.
pub destroy_target_lem :
    (h : Heap) (t : ℕ)
    → IsConsistent h
    → t ≢ 0
    → ((k : ℕ) → k ≢ 0 → (destroy_target h t).target k ≡ redirect t 0 (h.target k))
      × IsConsistent (destroy_target h t)
unfolding destroy_target
destroy_target_lem h t c nt = (
  λ k nk. retarget-redirect h t 0 k c nt nk,
  λ u k nu nk. rw (retarget-redirect h t 0 k c nt nk) (elim (ℕ_discrete t u) [
    | yes same ↦ rw (sym same, update_self h.back_ptrs t []) (ground arith)
    | no ne ↦ rw (update_ne h.back_ptrs t u [] ne) (c u k nu nk ∙ ground arith)
  ]),
)

moved_back : Heap → ℕ → ℕ → ℕ → List ℕ
moved_back h this other =
    let moved = update h.back_ptrs this (h.back_ptrs other) in
    update moved other (fill_null (moved other))

moved_back-this :
    (h : Heap) (this other : ℕ) → this ≢ other → moved_back h this other this ≡ h.back_ptrs other
unfolding moved_back
moved_back-this h this other ne =
    update_ne (update h.back_ptrs this (h.back_ptrs other)) other this _ (λ e. ne (sym e))
    ∙ update_self h.back_ptrs this (h.back_ptrs other)

count-moved_back :
    (h : Heap) (this other u k : ℕ)
    → this ≢ other
    → k ≢ 0
    → count k (moved_back h this other u) ≡ (
        if u == this
        then count k (h.back_ptrs other)
        else if u == other
        then 0
        else count k (h.back_ptrs u))
unfolding moved_back
count-moved_back h this other u k ne nk = elim (ℕ_discrete u this) [
  | yes here ↦ rw (eq→beq u this here) (
      ap (λ v. count k (moved_back h this other v)) here
      ∙ ap (count k) (moved_back-this h this other ne))
  | no elsewhere ↦ elim (ℕ_discrete u other) [
    | yes there ↦
        rw (ne→beq u this elsewhere, eq→beq u other there)
          (ap (λ v. count k (moved_back h this other v)) there
            ∙ ap (count k) (update_self (update h.back_ptrs this (h.back_ptrs other)) other _)
            ∙ count-fill_null k _ nk)
    | no third ↦
        rw (ne→beq u this elsewhere, ne→beq u other third)
          (ap (count k) (
            update_ne (update h.back_ptrs this (h.back_ptrs other)) other u _ (λ e. third (sym e))
            ∙ update_ne h.back_ptrs this u _ (λ e. elsewhere (sym e))))
  ]
]

move_target-target :
    (h : Heap) (this other k : ℕ)
    → IsConsistent h
    → other ≢ 0
    → this ≢ other
    → k ≢ 0
    → (move_target h this other).target k ≡ redirect other this (h.target k)
unfolding move_target moved_back
move_target-target h this other k c no' ne nk =
    ap (λ xs. retarget_all xs this h.target k) (moved_back-this h this other ne)
    ∙ retarget-redirect h other this k c no' nk

-- When a target is moved, by construction or assignment, the links to the old place follow it.
-- Both sides stay consistent if no link led to the new place before. A link that did, as an
-- assignment allows, still leads there, but the target has no back pointer to it any more.
pub move_target_lem :
    (h : Heap) (this other : ℕ)
    → IsConsistent h
    → this ≢ 0
    → other ≢ 0
    → this ≢ other
    → ((k : ℕ) → k ≢ 0 → (move_target h this other).target k ≡ redirect other this (h.target k))
      × (((k : ℕ) → k ≢ 0 → h.target k ≢ this) → IsConsistent (move_target h this other))
      × ((k : ℕ)
          → k ≢ 0
          → h.target k ≡ this
          → ((move_target h this other).target k ≡ this)
            × (count k ((move_target h this other).back_ptrs this) ≡ 0))
unfolding move_target moved_back
move_target_lem h this other c nt no' ne = (
  λ k nk. move_target-target h this other k c no' ne nk,
  λ free u k nu nk.
      count-moved_back h this other u k ne nk
      ∙ rw (move_target-target h this other k c no' ne nk)
          (ground (arith, c other k no' nk, c u k nu nk, free k nk)),
  λ k nk led. (
    move_target-target h this other k c no' ne nk ∙ ground arith,
    count-moved_back h this other this k ne nk ∙ ground (arith, c other k no' nk),
  ),
)

-- Severing all links of a target clears its back pointers only: the links still lead to it, and
-- the target has no back pointer to them any more.
pub sever_all_links_lem :
    (h : Heap) (t k : ℕ)
    → k ≢ 0
    → ((sever_all_links h t).target k ≡ h.target k)
      × (count k ((sever_all_links h t).back_ptrs t) ≡ 0)
unfolding sever_all_links
sever_all_links_lem h t k nk = (
  refl,
  ap (count k) (update_self h.back_ptrs t (fill_null (h.back_ptrs t)))
      ∙ count-fill_null k (h.back_ptrs t) nk,
)
