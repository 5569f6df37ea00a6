-- ===== src/Containers/Link/Copies.antt =====
-- Copying links.
use mart_common.Prelude.{
  ℕ, ◌≡◌, ◌≢◌, ◌⊎◌, inl, inr, refl, ap, sym, ◌∙◌, ◌==◌, if◌then◌else◌, ℕ_discrete, ne→beq, eq→beq,
  arith,
}
use mathlib.Core.Path.{subst}
use mart_common.Prelude.Threads.{update, update_self, update_same, update_twice}
use mart_common.Containers.Link.{
  Heap, set_target, add_back_ref, remove_back_ref, remove_if_linked, copy_construct, copy_assign,
}
use mart_common.Containers.Link.Counts.{
  count, Changed, update_back_ref-found, update_back_ref-missing,
}
use mart_common.Containers.Link.Invariant.{linked-count, IsConsistent, HasRoom}
use mart_common.Containers.Link.Links.{detached, attached, IsConsistent-ext}

unlink-null : (h : Heap) (l : ℕ) → h.target l ≡ 0 → set_target h l 0 ≡ h
unlink-null h l e = ap (λ f. record h { target = f }) (update_same h.target l 0 e)

-- Copying into a new link takes a back pointer of the target, if one is left; with none left the
-- copy has no target. Both sides stay consistent.
pub copy_construct_lem :
    (h : Heap) (this other : ℕ)
    → IsConsistent h
    → this ≢ 0
    → h.target this ≡ 0
    → (h.target other ≢ 0
        → HasRoom h (h.target other)
        → IsConsistent (copy_construct h this other)
          × ((copy_construct h this other).target ≡ update h.target this (h.target other)))
      × ((h.target other ≡ 0) ⊎ (count 0 (h.back_ptrs (h.target other)) ≡ 0)
          → copy_construct h this other ≡ h)
unfolding copy_construct add_back_ref
copy_construct_lem h this other c nt e = (
  λ linked room.
      let (g, e2, d) = update_back_ref-found (set_target h this 0) (h.target other) 0 this room in
      rw (ne→beq (h.target other) 0 linked, e2, copy_construct)
        (
          attached (set_target h this 0) g this (h.target other)
              (subst IsConsistent (sym (unlink-null h this e)) c) nt linked
              (update_self h.target this 0) d,
          ap (λ f. update f this (h.target other)) d.targets
              ∙ update_twice h.target this 0 (h.target other),
        ),
  λ fails. elim (ℕ_discrete (h.target other) 0) [
    | yes null ↦ rw (eq→beq (h.target other) 0 null, copy_construct) (unlink-null h this e)
    | no linked ↦ elim fails [
      | inl null ↦ absurd (linked null)
      | inr full ↦
          rw
            (
              ne→beq (h.target other) 0 linked,
              update_back_ref-missing (set_target h this 0) (h.target other) 0 this full,
              copy_construct,
            )
            (unlink-null h this e)
    ]
  ],
)

-- The heap once the assigned link has left its own target.
record Left (h : Heap) (l : ℕ) (g : Heap) : Type 0 where
  pub targets : g.target ≡ h.target
  pub consistent : IsConsistent (set_target g l 0)
  pub room : (u : ℕ) → HasRoom h u → HasRoom g u
  pub elsewhere : (u k : ℕ) → u ≢ h.target l → count k (g.back_ptrs u) ≡ count k (h.back_ptrs u)

left :
    (h : Heap) (l : ℕ)
    → IsConsistent h
    → l ≢ 0
    → (g : Heap) × (remove_if_linked h l ≡ g) × Left h l g
unfolding remove_if_linked remove_back_ref
left h l c nl = elim (ℕ_discrete (h.target l) 0) [
  | yes null ↦ (
    h,
    rw (eq→beq (h.target l) 0 null, remove_if_linked) refl,
    record {
      targets = refl;
      consistent = subst IsConsistent (sym (unlink-null h l null)) c;
      room = λ u r. r;
      elsewhere = λ u k ne. refl;
    },
  )
  | no linked ↦
      let (g, e, d) =
        update_back_ref-found h (h.target l) l 0 (linked-count h l (h.target l) c nl linked refl) in
      (
        g,
        rw (ne→beq (h.target l) 0 linked, e, remove_if_linked) refl,
        record {
          targets = d.targets;
          consistent = detached h g l c nl linked d;
          room = λ u r. ground (arith, d.counts u 0);
          elsewhere = λ u k ne. ground (arith, d.counts u k);
        },
      )
]

copy_assign-from :
    (h g : Heap) (this other : ℕ)
    → remove_if_linked h this ≡ g
    → copy_assign h this other ≡ (
        if g.target other == 0
        then set_target g this (g.target other)
        else (add_back_ref (set_target g this (g.target other)) (g.target other) this).1)
unfolding copy_assign
copy_assign-from h g this other e = rw (e, copy_assign) refl

-- The back pointer added once the target is set.
copied :
    (h g r : Heap) (this t : ℕ)
    → Left h this g
    → this ≢ 0
    → t ≢ 0
    → Changed (set_target g this t) t 0 this r
    → IsConsistent r
copied h g r this t l nt linked d =
    let back : update r.target this t ≡ r.target =
      update_same r.target this t (ap (λ f. f this) d.targets ∙ update_self g.target this t) in
    let targets : update r.target this 0 ≡ update g.target this 0 =
      ap (λ f. update f this 0) d.targets ∙ update_twice g.target this t 0 in
    IsConsistent-ext (set_target (set_target r this 0) this t) r refl
      (λ k _. ap (λ f. f k) (update_twice r.target this 0 t ∙ back))
      (attached (set_target g this 0) (set_target r this 0) this t l.consistent nt linked
        (update_self g.target this 0) (record { targets = targets; counts = d.counts }))

copy_assign-linked :
    (h g : Heap) (this other : ℕ)
    → Left h this g
    → remove_if_linked h this ≡ g
    → h.target other ≢ 0
    → copy_assign h this other
      ≡ (add_back_ref (set_target g this (h.target other)) (h.target other) this).1
copy_assign-linked h g this other l e linked =
    copy_assign-from h g this other e
    ∙ rw (ap (λ f. f other) l.targets, ne→beq (h.target other) 0 linked) refl

not_there :
    (h : Heap) (k t : ℕ)
    → IsConsistent h
    → k ≢ 0
    → t ≢ 0
    → t ≢ h.target k
    → count k (h.back_ptrs t) ≡ 0
not_there h k t c nk nt ne = ground (arith, c t k nt nk)

-- Copy assignment from another link gives the link the other's target; no other link changes, and
-- both sides stay consistent, if the other has no target or its target has a back pointer left.
-- If it has none left, the link gets the target all the same, without a back pointer at it.
pub copy_assign_lem :
    (h : Heap) (this other : ℕ)
    → IsConsistent h
    → this ≢ 0
    → this ≢ other
    → ((h.target other ≡ 0) ⊎ HasRoom h (h.target other) → IsConsistent (copy_assign h this other))
      × ((copy_assign h this other).target ≡ update h.target this (h.target other))
      × (h.target other ≢ 0
          → h.target other ≢ h.target this
          → count 0 (h.back_ptrs (h.target other)) ≡ 0
          → count this ((copy_assign h this other).back_ptrs (h.target other)) ≡ 0)
unfolding add_back_ref
copy_assign_lem h this other c nt ne =
    let (g, e, l) = left h this c nt in
    elim (ℕ_discrete (h.target other) 0) [
      | yes null ↦
          rw
            (
              copy_assign-from h g this other e,
              ap (λ f. f other) l.targets,
              eq→beq (h.target other) 0 null,
            )
            (
              λ _. subst IsConsistent (ap (set_target g this) (sym null)) l.consistent,
              ap (λ f. update f this (h.target other)) l.targets,
              λ linked. absurd (linked null),
            )
      | no linked ↦
          rw (copy_assign-linked h g this other l e linked)
            (elim (ℕ_discrete (count 0 (g.back_ptrs (h.target other))) 0) [
              | yes full ↦
                  rw
                    (update_back_ref-missing (set_target g this (h.target other)) (h.target other) 0
                      this full)
                    (
                      λ room. elim room [
                        | inl null ↦ absurd (linked null)
                        | inr r ↦ absurd (omega (arith, l.room (h.target other) r))
                      ],
                      ap (λ f. update f this (h.target other)) l.targets,
                      λ _ apart _.
                          l.elsewhere (h.target other) this apart
                          ∙ not_there h this (h.target other) c nt linked apart,
                    )
              | no some_left ↦
                  let (r, e2, d) =
                    update_back_ref-found (set_target g this (h.target other)) (h.target other) 0
                      this (omega arith) in
                  rw e2 (
                    λ _. copied h g r this (h.target other) l nt linked d,
                    d.targets ∙ ap (λ f. update f this (h.target other)) l.targets,
                    λ _ apart full.
                        absurd (some_left (l.elsewhere (h.target other) 0 apart ∙ full)),
                  )
            ])
    ]
