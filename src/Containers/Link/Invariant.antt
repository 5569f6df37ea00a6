-- ===== src/Containers/Link/Invariant.antt =====
-- What ties the links to their targets.
use mart_common.Prelude.{ℕ, ◌<◌, ◌≡◌, ◌≢◌, ◌==◌, if◌then◌else◌, arith}
use mart_common.Containers.Link.{Heap}
use mart_common.Containers.Link.Counts.{count}

-- A link stands once among the back pointers of its target, and nowhere else.
abbrev pub IsConsistent : Heap → Type 0
IsConsistent h =
    (u k : ℕ) → u ≢ 0 → k ≢ 0 → count k (h.back_ptrs u) ≡ (if h.target k == u then 1 else 0)

-- Whether the target `t` has a back pointer left.
abbrev pub HasRoom : Heap → ℕ → Type 0
HasRoom h t = 0 < count 0 (h.back_ptrs t)

pub linked-count :
    (h : Heap) (l t : ℕ)
    → IsConsistent h
    → l ≢ 0
    → t ≢ 0
    → h.target l ≡ t
    → 0 < count l (h.back_ptrs t)
linked-count h l t c nl nt e = ground (arith, c t l nt nl)
