-- ===== src/Net/Address/Blocks.antt =====
-- What `split_blocks_unchecked` finds in a text with three dots.
use mart_common.Prelude.{
  ℕ, suc, ◌+◌, ◌-◌, ◌≡◌, refl, sym, ap, ◌∙◌, List, [], ◌∷◌, ◌++◌, ◌==◌, length, drop, set,
  take-length, drop-drop, drop-of-append, append-nil, Bool-cases, inl, inr, arith,
}
use mart_common.Text.{Bytes, Lacks}
use mart_common.Net.Address.{dot, count_dots, blocks_loop, split_blocks_unchecked}

blocks_loop-Lacks :
    (str a rest : Bytes) (pos : ℕ) (ret : List Bytes) (cnt start : ℕ)
    → Lacks dot a
    → blocks_loop str (a ++ rest) pos ret cnt start
      ≡ blocks_loop str rest (pos + length a) ret cnt start
unfolding blocks_loop
blocks_loop-Lacks str [] rest pos ret cnt start h =
    ap (λ p. blocks_loop str rest p ret cnt start) (omega arith)
blocks_loop-Lacks str (c ∷ a) rest pos ret cnt start h = ground (
  arith,
  blocks_loop-Lacks str a rest (pos + 1) ret cnt start h.1,
  ap (λ p. blocks_loop str rest p ret cnt start) {x = pos + 1 + length a} {y = pos + suc (length a)}
      (omega arith),
)

-- A block is read off between two dots, and the next one starts behind the second.
blocks_loop_block :
    (str a rest : Bytes) (ret : List Bytes) (cnt start : ℕ)
    → Lacks dot a
    → drop start str ≡ a ++ dot ∷ rest
    → blocks_loop str (a ++ dot ∷ rest) start ret cnt start
      ≡ blocks_loop str rest (start + length a + 1) (set ret cnt a) (cnt + 1) (start + length a + 1)
blocks_loop_block str a rest ret cnt start h e =
    blocks_loop-Lacks str a (dot ∷ rest) start ret cnt start h
    ∙ unfold blocks_loop in (rw (e, sub_start) (rw take-length))
  where
    sub_start : start + length a - start ≡ length a
    sub_start = omega arith

blocks_loop_last :
    (str a : Bytes) (ret : List Bytes) (cnt start : ℕ)
    → Lacks dot a
    → drop start str ≡ a
    → blocks_loop str a start ret cnt start ≡ set ret 3 a
blocks_loop_last str a ret cnt start h e =
    ap (λ t. blocks_loop str t start ret cnt start) (sym (append-nil a))
    ∙ blocks_loop-Lacks str a [] start ret cnt start h
    ∙ unfold blocks_loop in (rw e)

drop_behind :
    (str a rest : Bytes) (start : ℕ)
    → drop start str ≡ a ++ dot ∷ rest
    → drop (start + length a + 1) str ≡ rest
drop_behind str a rest start e =
    sym (drop-drop 1 (start + length a) str)
    ∙ ap (drop 1) (drop-of-append start str a (dot ∷ rest) e)

-- Four blocks joined by dots, none of which holds a dot.
pub record Blocks (str a b c d : Bytes) : Type 0 where
  pub joined : str ≡ a ++ dot ∷ (b ++ dot ∷ (c ++ dot ∷ d))
  pub lacks_a : Lacks dot a
  pub lacks_b : Lacks dot b
  pub lacks_c : Lacks dot c
  pub lacks_d : Lacks dot d

pub split_blocks_lem :
    (str a b c d : Bytes) → Blocks str a b c d → split_blocks_unchecked str ≡ a ∷ b ∷ c ∷ d ∷ []
unfolding split_blocks_unchecked
split_blocks_lem str a b c d v =
    ap (λ t. blocks_loop str t 0 empties 0 0) v.joined
    ∙ blocks_loop_block str a _ _ 0 0 v.lacks_a v.joined
    ∙ blocks_loop_block str b _ _ 1 _ v.lacks_b at_b
    ∙ blocks_loop_block str c _ _ 2 _ v.lacks_c at_c
    ∙ blocks_loop_last str d _ 3 _ v.lacks_d (drop_behind str c d _ at_c)
  where
    empties : List Bytes
    empties = [] ∷ [] ∷ [] ∷ [] ∷ []

    at_b : drop (0 + length a + 1) str ≡ b ++ dot ∷ (c ++ dot ∷ d)
    at_b = drop_behind str a _ 0 v.joined

    at_c : drop (0 + length a + 1 + length b + 1) str ≡ c ++ dot ∷ d
    at_c = drop_behind str b _ _ at_b

-- A text with a dot is cut at the first one.
dots-suc :
    (s : Bytes) (n : ℕ)
    → count_dots s ≡ suc n
    → (a b : Bytes) × (s ≡ a ++ dot ∷ b) × Lacks dot a × (count_dots b ≡ n)
unfolding count_dots
dots-suc [] n e = absurd (omega arith)
dots-suc (c ∷ s) n e = elim (Bool-cases (c == dot)) [
  | inl at_dot ↦ ([], s, ground arith, tt, ground arith)
  | inr other ↦
      let (a, b, joined, lacks, rest) = dots-suc s n (ground arith) in
      (c ∷ a, b, ground arith, ground arith, rest)
]

dots-zero : (s : Bytes) → count_dots s ≡ 0 → Lacks dot s
unfolding count_dots
dots-zero [] e = tt
dots-zero (c ∷ s) e = ground (arith, dots-zero s)

-- A text with three dots is four blocks.
pub Blocks-exist :
    (str : Bytes)
    → count_dots str ≡ 3
    → (a : Bytes) × (b : Bytes) × (c : Bytes) × (d : Bytes) × Blocks str a b c d
Blocks-exist str e =
    let (a, r, j, la, er) = dots-suc str 2 e in
    let (b, r', j', lb, er') = dots-suc r 1 er in
    let (c, d, j'', lc, ed) = dots-suc r' 0 er' in
    (
      a,
      b,
      c,
      d,
      record { joined = cc; lacks_a = la; lacks_b = lb; lacks_c = lc; lacks_d = dots-zero d ed },
    )

count_dots-append : (s t : Bytes) → count_dots (s ++ t) ≡ count_dots s + count_dots t
unfolding count_dots
count_dots-append [] t = omega arith
count_dots-append (c ∷ s) t = omega (arith, count_dots-append s t)

count_dots-Lacks : (s : Bytes) → Lacks dot s → count_dots s ≡ 0
unfolding count_dots
count_dots-Lacks [] h = refl
count_dots-Lacks (c ∷ s) h = ground (arith, count_dots-Lacks s h.1)

count_dots_join : (s t : Bytes) → Lacks dot s → count_dots (s ++ dot ∷ t) ≡ suc (count_dots t)
unfolding count_dots
count_dots_join s t h = omega (arith, count_dots-append s (dot ∷ t), count_dots-Lacks s h)

pub count_dots-Blocks : {str a b c d : Bytes} → Blocks str a b c d → count_dots str ≡ 3
count_dots-Blocks {str} {a} {b} {c} {d} v = rw v.joined (
    omega (
      arith,
      count_dots_join a (b ++ dot ∷ (c ++ dot ∷ d)) v.lacks_a,
      count_dots_join b (c ++ dot ∷ d) v.lacks_b,
      count_dots_join c d v.lacks_c,
      count_dots-Lacks d v.lacks_d,
    ))
