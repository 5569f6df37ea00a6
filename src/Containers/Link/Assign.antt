-- ===== src/Containers/Link/Assign.antt =====
-- Moving links.
use mart_common.Prelude.{
  ℕ, ◌≡◌, ◌≢◌, refl, ap, sym, ◌∙◌, ◌==◌, if◌then◌else◌, ℕ_discrete, ne→beq, eq→beq, arith,
}
use mathlib.Core.Path.{ap₂, subst}
use mart_common.Prelude.Threads.{
  update, update_self, update_ne, update_same, update_twice, update_swap,
}
use mart_common.Containers.Link.{
  Heap, set_target, update_back_ref, remove_if_linked, take_over, move_construct, move_assign,
  disconnect,
}
use mart_common.Containers.Link.Counts.{Changed, update_back_ref-found}
use mart_common.Containers.Link.Invariant.{linked-count, IsConsistent}
use mart_common.Containers.Link.Links.{disconnect_lem, IsConsistent-ext}

-- The heap in the middle of a move: `other` has given its target up, `this` has got it.
abbrev handed_over : Heap → ℕ → ℕ → Heap
handed_over h this other = set_target (set_target h other 0) this (h.target other)

handed_consistent :
    (h g : Heap) (this other : ℕ)
    → IsConsistent h
    → this ≢ 0
    → other ≢ 0
    → this ≢ other
    → h.target this ≡ 0
    → h.target other ≢ 0
    → Changed (handed_over h this other) (h.target other) other this g
    → IsConsistent g
handed_consistent h g this other c nt no' ne e linked d u k nu nk =
    rw (d.targets) (elim (ℕ_discrete this k) [
      | yes same ↦ ground (arith, d.counts u k, c u k nu nk, ap h.target same)
      | no other_link ↦ elim (ℕ_discrete other k) [
        | yes same ↦ ground (arith, d.counts u k, c u k nu nk, ap h.target same)
        | no third ↦ ground (arith, d.counts u k, c u k nu nk)
      ]
    ])

handed_nothing :
    (f : ℕ → ℕ) (this other : ℕ)
    → this ≢ other
    → f this ≡ 0
    → f other ≡ 0
    → update (update f other 0) this (f other) ≡ f
handed_nothing f this other ne e null =
    update_same (update f other 0) this (f other)
      (update_ne f other this 0 (λ z. ne (sym z)) ∙ e ∙ sym null)
    ∙ update_same f other 0 null

take_over_lem :
    (h : Heap) (this other : ℕ)
    → IsConsistent h
    → this ≢ 0
    → other ≢ 0
    → this ≢ other
    → h.target this ≡ 0
    → IsConsistent (take_over h this other)
      × ((take_over h this other).target ≡ update (update h.target other 0) this (h.target other))
unfolding take_over
take_over_lem h this other c nt no' ne e = elim (ℕ_discrete (h.target other) 0) [
  | yes null ↦
      rw (eq→beq (h.target other) 0 null, take_over)
        (
          IsConsistent-ext h (handed_over h this other) refl
              (λ k _. ap (λ f. f k) (sym (handed_nothing h.target this other ne e null))) c,
          refl,
        )
  | no linked ↦
      let (g, e2, d) =
        update_back_ref-found (handed_over h this other) (h.target other) other this
          (linked-count h other (h.target other) c no' linked refl) in
      rw (ne→beq (h.target other) 0 linked, e2, take_over)
        (handed_consistent h g this other c nt no' ne e linked d, d.targets)
]

-- The rest of the move, from the target that is handed over.
abbrev finish : ℕ → Heap → ℕ → ℕ → Heap
finish t g this other = if t == 0 then g else (update_back_ref g t other this).1

handed_over-forgets :
    (h : Heap) (this other : ℕ)
    → this ≢ other
    → handed_over (set_target h this 0) this other ≡ handed_over h this other
handed_over-forgets h this other ne =
    let t = update_ne h.target this other 0 ne in
    rw t (
      ap (λ f. record h { target = f })
        (ap (λ f. update f this (h.target other)) (update_swap h.target this other 0 0 ne)
          ∙ update_twice (update h.target other 0) this 0 (h.target other)))

-- What the target of `this` was before does not matter to the move.
take_over-forgets :
    (h : Heap) (this other : ℕ)
    → this ≢ other
    → take_over (set_target h this 0) this other ≡ take_over h this other
unfolding take_over
take_over-forgets h this other ne =
    ap₂ (λ t g. finish t g this other) (update_ne h.target this other 0 ne)
      (handed_over-forgets h this other ne)

unlinked :
    (h : Heap) (l : ℕ)
    → IsConsistent h
    → l ≢ 0
    → set_target (remove_if_linked h l) l 0 ≡ (disconnect h l).1
unfolding remove_if_linked disconnect
unlinked h l c nl = elim (ℕ_discrete (h.target l) 0) [
  | yes null ↦
      rw (eq→beq (h.target l) 0 null, remove_if_linked, disconnect)
        (ap (λ f. record h { target = f }) (update_same h.target l 0 null))
  | no linked ↦ rw (ne→beq (h.target l) 0 linked, remove_if_linked, disconnect) refl
]

-- Moving into a new link: it takes the target over, the old one has none, no other link changes,
-- and both sides stay consistent.
pub move_construct_lem :
    (h : Heap) (this other : ℕ)
    → IsConsistent h
    → this ≢ 0
    → other ≢ 0
    → this ≢ other
    → h.target this ≡ 0
    → IsConsistent (move_construct h this other)
      × ((move_construct h this other).target
          ≡ update (update h.target other 0) this (h.target other))
unfolding move_construct
move_construct_lem h this other = take_over_lem h this other

-- Move assignment from another link also gives up the target that the link had.
pub move_assign_lem :
    (h : Heap) (this other : ℕ)
    → IsConsistent h
    → this ≢ 0
    → other ≢ 0
    → this ≢ other
    → IsConsistent (move_assign h this other)
      × ((move_assign h this other).target ≡ update (update h.target other 0) this (h.target other))
unfolding move_assign
move_assign_lem h this other c nt no' ne =
    let (ok, targets, _) = disconnect_lem h this c nt in
    let g : Heap = (disconnect h this).1 in
    let (ok2, targets2) =
      take_over_lem g this other ok nt no' ne
        (ap (λ f. f this) targets ∙ update_self h.target this 0) in
    let same : take_over g this other ≡ move_assign h this other =
      ap (λ k. take_over k this other) (sym (unlinked h this c nt))
      ∙ take_over-forgets (remove_if_linked h this) this other ne in
    (
      subst IsConsistent same ok2,
      ap (λ k. k.target) (sym same)
          ∙ targets2
          ∙ rw targets (ap (λ k. k.target) (handed_over-forgets h this other ne)),
    )
