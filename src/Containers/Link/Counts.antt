-- ===== src/Containers/Link/Counts.antt =====
-- How often the writes to the back pointers leave each link in them.
use mart_common.Prelude.{
  ℕ, ◌+◌, ◌<◌, ◌≡◌, ◌≢◌, refl, sym, true, false, List, [], ◌∷◌, none, some, ◌==◌, if◌then◌else◌,
  ℕ_discrete, arith,
}
use mart_common.Prelude.Threads.{update, update_self, update_ne}
use mart_common.Containers.Link.{Heap, replace, update_back_ref}

abbrev pub one : ℕ → ℕ → ℕ
one k x = if x == k then 1 else 0

abbrev pub count : ℕ → List ℕ → ℕ
count k [] = 0
count k (x ∷ xs) = one k x + count k xs

-- One for the link `k` at the target `u`, if they are `l` and `t`.
abbrev pub one_at : ℕ → ℕ → ℕ → ℕ → ℕ
one_at u t k l = if u == t then one k l else 0

replace-here : (old new x : ℕ) (xs : List ℕ) → x ≡ old → replace old new (x ∷ xs) ≡ some (new ∷ xs)
unfolding replace
replace-here old new x xs e = ground arith

replace-later :
    (old new x : ℕ) (xs ys : List ℕ)
    → x ≢ old
    → replace old new xs ≡ some ys
    → replace old new (x ∷ xs) ≡ some (x ∷ ys)
unfolding replace
replace-later old new x xs ys h e = ground arith

-- What the write finds: every link is counted as before, but for the one replaced and the new.
abbrev Replaced : ℕ → ℕ → List ℕ → List ℕ → Type 0
Replaced old new xs ys =
    (replace old new xs ≡ some ys) × ((k : ℕ) → count k ys + one k old ≡ count k xs + one k new)

replace-found :
    (old new : ℕ) (xs : List ℕ) → 0 < count old xs → (ys : List ℕ) × Replaced old new xs ys
replace-found old new [] h = absurd (omega arith)
replace-found old new (x ∷ xs) h = elim (ℕ_discrete x old) [
  | yes e ↦ (new ∷ xs, (replace-here old new x xs e, λ k. ground arith))
  | no ne ↦
      let (ys, (r, c)) = replace-found old new xs (ground arith) in
      (x ∷ ys, (replace-later old new x xs ys ne r, λ k. omega (arith, c k)))
]

replace-missing : (old new : ℕ) (xs : List ℕ) → count old xs ≡ 0 → replace old new xs ≡ none
unfolding replace
replace-missing old new [] h = refl
replace-missing old new (x ∷ xs) h = ground (arith, replace-missing old new xs)

-- A heap after one back pointer to `old` at the target `t` has become `new`.
pub record Changed (h : Heap) (t old new : ℕ) (g : Heap) : Type 0 where
  pub targets : g.target ≡ h.target
  pub counts :
      (u k : ℕ)
      → count k (g.back_ptrs u) + one_at u t k old ≡ count k (h.back_ptrs u) + one_at u t k new

update-counts :
    (b : ℕ → List ℕ) (t old new : ℕ) (ys : List ℕ)
    → ((k : ℕ) → count k ys + one k old ≡ count k (b t) + one k new)
    → (u k : ℕ) → count k (update b t ys u) + one_at u t k old ≡ count k (b u) + one_at u t k new
update-counts b t old new ys c u k = elim (ℕ_discrete t u) [
  | yes e ↦ rw (sym e, update_self b t ys) (ground (arith, c k))
  | no ne ↦ rw (update_ne b t u ys ne) (ground arith)
]

pub update_back_ref-found :
    (h : Heap) (t old new : ℕ)
    → 0 < count old (h.back_ptrs t)
    → (g : Heap) × (update_back_ref h t old new ≡ (true, g)) × Changed h t old new g
unfolding update_back_ref
update_back_ref-found h t old new l =
    let (ys, (r, c)) = replace-found old new (h.back_ptrs t) l in
    (
      record h { back_ptrs = update h.back_ptrs t ys },
      rw (r, update_back_ref) refl,
      record { targets = refl; counts = update-counts h.back_ptrs t old new ys c },
    )

pub update_back_ref-missing :
    (h : Heap) (t old new : ℕ)
    → count old (h.back_ptrs t) ≡ 0
    → update_back_ref h t old new ≡ (false, h)
unfolding update_back_ref
update_back_ref-missing h t old new e =
    rw (replace-missing old new (h.back_ptrs t) e, update_back_ref) refl
