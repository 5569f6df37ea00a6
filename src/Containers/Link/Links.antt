-- ===== src/Containers/Link/Links.antt =====
-- What the operations on links do to the targets, and that they keep both sides consistent.
use mart_common.Prelude.{
  ℕ, ◌<◌, ◌≡◌, ◌≢◌, refl, ap, sym, ◌∙◌, true, false, ◌==◌, if◌then◌else◌, ℕ_discrete, ne→beq,
  eq→beq, arith,
}
use mathlib.Core.Path.{subst}
use mart_common.Prelude.Threads.{update, update_same, update_twice}
use mart_common.Containers.Link.{
  Heap, set_target, add_back_ref, remove_back_ref, disconnect, connect,
}
use mart_common.Containers.Link.Counts.{
  count, Changed, update_back_ref-found, update_back_ref-missing,
}
use mart_common.Containers.Link.Invariant.{linked-count, IsConsistent, HasRoom}

pub disconnect-linked :
    (h : Heap) (l : ℕ)
    → h.target l ≢ 0
    → 0 < count l (h.back_ptrs (h.target l))
    → (g : Heap) × (disconnect h l ≡ (true, set_target g l 0)) × Changed h (h.target l) l 0 g
unfolding disconnect remove_back_ref
disconnect-linked h l nt found =
    let (g, e, d) = update_back_ref-found h (h.target l) l 0 found in
    (g, rw (ne→beq (h.target l) 0 nt, e, disconnect) refl, d)

pub disconnect-unlinked : (h : Heap) (l : ℕ) → h.target l ≡ 0 → disconnect h l ≡ (false, h)
unfolding disconnect
disconnect-unlinked h l e = rw (eq→beq (h.target l) 0 e, disconnect) refl

-- `l` taken from the target that it has.
pub detached :
    (h g : Heap) (l : ℕ)
    → IsConsistent h
    → l ≢ 0
    → h.target l ≢ 0
    → Changed h (h.target l) l 0 g
    → IsConsistent (set_target g l 0)
detached h g l c nl nt d u k nu nk = rw (d.targets) (elim (ℕ_discrete l k) [
  | yes e ↦ ground (arith, d.counts u k, c u k nu nk)
  | no ne ↦ ground (arith, d.counts u k, c u k nu nk)
])

-- `l`, which has no target, given to the target `t`.
pub attached :
    (h g : Heap) (l t : ℕ)
    → IsConsistent h
    → l ≢ 0
    → t ≢ 0
    → h.target l ≡ 0
    → Changed h t 0 l g
    → IsConsistent (set_target g l t)
attached h g l t c nl nt e d u k nu nk = rw (d.targets) (elim (ℕ_discrete l k) [
  | yes same ↦ ground (arith, d.counts u k, c u k nu nk, ap h.target same)
  | no ne ↦ ground (arith, d.counts u k, c u k nu nk)
])

pub IsConsistent-ext :
    (h g : Heap)
    → h.back_ptrs ≡ g.back_ptrs
    → ((k : ℕ) → k ≢ 0 → h.target k ≡ g.target k)
    → IsConsistent h
    → IsConsistent g
IsConsistent-ext h g eb et c u k nu nk =
    ap (λ b. count k (b u)) (sym eb) ∙ c u k nu nk ∙ ap (λ t. if t == u then 1 else 0) (et k nk)

-- A link that is disconnected has no target afterwards, no other link changes, and both sides
-- stay consistent.
pub disconnect_lem :
    (h : Heap) (l : ℕ)
    → IsConsistent h
    → l ≢ 0
    → IsConsistent (disconnect h l).1
      × ((disconnect h l).1.target ≡ update h.target l 0)
      × ((disconnect h l).0 ≡ (if h.target l == 0 then false else true))
disconnect_lem h l c nl = elim (ℕ_discrete (h.target l) 0) [
  | yes e ↦
      rw (disconnect-unlinked h l e, eq→beq (h.target l) 0 e)
        (c, sym (update_same h.target l 0 e), refl)
  | no nt ↦
      let (g, e, d) = disconnect-linked h l nt (linked-count h l (h.target l) c nl nt refl) in
      rw (e, ne→beq (h.target l) 0 nt)
        (detached h g l c nl nt d, ap (λ f. update f l 0) d.targets, refl)
]

connect-room :
    (h g : Heap) (l t : ℕ)
    → add_back_ref h t l ≡ (true, g)
    → connect h l t ≡ (true, set_target (disconnect g l).1 l t)
unfolding connect
connect-room h g l t e = rw (e, connect) refl

-- `l` moved from the target that it has to `t`: the back pointer at `t` is there first.
moved :
    (h g k : Heap) (l t : ℕ)
    → IsConsistent h
    → l ≢ 0
    → t ≢ 0
    → Changed h t 0 l g
    → Changed g (h.target l) l 0 k
    → IsConsistent (set_target (set_target k l 0) l t)
moved h g k l t c nl nt d f u i nu ni =
    rw (f.targets, d.targets)
      (elim (ℕ_discrete l i) [
        | yes same ↦ ground (arith, d.counts u i, f.counts u i, c u i nu ni, ap h.target same)
        | no ne ↦ ground (arith, d.counts u i, f.counts u i, c u i nu ni)
      ])

still-linked :
    (h g : Heap) (l t : ℕ)
    → IsConsistent h
    → l ≢ 0
    → h.target l ≢ 0
    → Changed h t 0 l g
    → 0 < count l (g.back_ptrs (h.target l))
still-linked h g l t c nl nt d =
    let p = linked-count h l (h.target l) c nl nt refl in ground (arith, d.counts (h.target l) l)

-- With a back pointer left at the target, `connect` succeeds, the link has the new target, no
-- other link changes, and both sides stay consistent. With none left, it fails and changes
-- nothing.
pub connect_lem :
    (h : Heap) (l t : ℕ)
    → IsConsistent h
    → l ≢ 0
    → t ≢ 0
    → (HasRoom h t
        → (k : Heap) × (connect h l t ≡ (true, k))
          × (k.target ≡ update h.target l t)
          × IsConsistent k)
      × (count 0 (h.back_ptrs t) ≡ 0 → connect h l t ≡ (false, h))
unfolding connect add_back_ref
connect_lem h l t c nl nt = (
  λ room.
      let (g, e, d) = update_back_ref-found h t 0 l room in
      elim (ℕ_discrete (h.target l) 0) [
        | yes null ↦ (
          set_target g l t,
          connect-room h g l t e
              ∙ ap (λ r. (true, set_target r.1 l t))
                  (disconnect-unlinked g l (ap (λ f. f l) d.targets ∙ null)),
          ap (λ f. update f l t) d.targets,
          attached h g l t c nl nt null d,
        )
        | no linked ↦
            let tg : g.target l ≡ h.target l = ap (λ f. f l) d.targets in
            let (k, e2, f) =
              disconnect-linked g l (λ z. linked (sym tg ∙ z))
                (rw tg (still-linked h g l t c nl linked d)) in
            (
              set_target (set_target k l 0) l t,
              connect-room h g l t e ∙ ap (λ r. (true, set_target r.1 l t)) e2,
              update_twice k.target l 0 t ∙ ap (λ f. update f l t) (f.targets ∙ d.targets),
              moved h g k l t c nl nt d (subst (λ x. Changed g x l 0 k) tg f),
            )
      ],
  λ full. rw (update_back_ref-missing h t 0 l full, connect) refl,
)
