-- ===== src/Math/Vec.antt =====
-- `Vec<T, N>` of include/mart-common/MartVec.h. A vector is the function from an index to the
-- element; the dimension is a parameter of the operations that use it, and what a vector is at an
-- index beyond it means nothing.
pub mod Laws
pub mod Compare
use mart_common.Prelude.{
  ℕ, zero, suc, ◌+◌, ◌-◌, min, Bool, true, false, not, ◌&&◌, ◌||◌, ltb, ◌==◌, if◌then◌else◌,
}
use mart_common.Prelude.Threads.{update}
use mart_common.Math.Loop.{loop, fill}
use mart_common.Math.Scalar.{Scalar}

abbrev pub Vec {ℓ} : Type ℓ → Type ℓ
Vec A = ℕ → A

-- The specialisations for two and three elements, and their `operator[]`.
pub record Vec2D {ℓ} (A : Type ℓ) : Type ℓ where
  pub x : A
  pub y : A

pub record Vec3D {ℓ} (A : Type ℓ) : Type ℓ where
  pub x : A
  pub y : A
  pub z : A

module _ {ℓ} {A : Type ℓ} where
  abbrev pub at_2 : Vec2D A → Vec A
  at_2 v idx = if idx == 0 then v.x else v.y

  abbrev pub at_3 : Vec3D A → Vec A
  at_3 v idx = if idx == 0 then v.x else if idx == 1 then v.y else v.z

-- `_impl_vec::apply_unary` and the three kinds of `apply_binary`: all elements at once.
unfoldable pub apply_unary {ℓ κ} : {A : Type ℓ} {B : Type κ} → (A → B) → Vec A → Vec B
apply_unary func l = λ i. func (l i)

module _ {ℓ κ μ} {A : Type ℓ} {B : Type κ} {C : Type μ} where
  unfoldable pub apply_binary : (A → B → C) → Vec A → Vec B → Vec C
  apply_binary func l r = λ i. func (l i) (r i)

  unfoldable pub apply_scalar_left : (A → B → C) → A → Vec B → Vec C
  apply_scalar_left func l r = λ i. func l (r i)

  unfoldable pub apply_scalar_right : (A → B → C) → Vec A → B → Vec C
  apply_scalar_right func l r = λ i. func (l i) r

module _ {ℓ} {A : Type ℓ} (S : Scalar A) where
  -- `inner_product`, `squareNorm` and its two specialisations.
  unfoldable pub inner_product : ℕ → Vec A → Vec A → A
  unfolding loop
  inner_product N l r = loop N (λ i ret. S.add ret (S.mul (l i) (r i))) S.zero_

  unfoldable pub square_norm : ℕ → Vec A → A
  unfolding loop
  square_norm N v = loop N (λ i init. S.add init (S.mul (v i) (v i))) S.zero_

  unfoldable pub square_norm_2 : Vec2D A → A
  square_norm_2 v = S.add (S.mul v.x v.x) (S.mul v.y v.y)

  unfoldable pub square_norm_3 : Vec3D A → A
  square_norm_3 v = S.add (S.add (S.mul v.x v.x) (S.mul v.y v.y)) (S.mul v.z v.z)

  -- `operator+`, `-`, `*` and `/` of two vectors, and `+=`, `-=`, `*=` and `/=`.
  unfoldable pub plus : Vec A → Vec A → Vec A
  unfolding apply_binary
  plus l r = apply_binary S.add l r

  unfoldable pub minus : Vec A → Vec A → Vec A
  unfolding apply_binary
  minus l r = apply_binary S.sub l r

  unfoldable pub multiplies : Vec A → Vec A → Vec A
  unfolding apply_binary
  multiplies l r = apply_binary S.mul l r

  unfoldable pub divides : Vec A → Vec A → Vec A
  unfolding apply_binary
  divides l r = apply_binary S.div l r

  unfoldable pub negate : Vec A → Vec A
  unfolding apply_unary
  negate l = apply_unary S.neg l

  -- `operator*( const U&, const Vec<T, N>& )`.
  unfoldable pub scale : A → Vec A → Vec A
  unfolding apply_scalar_left
  scale a v = apply_scalar_left S.mul a v

  -- `max` and `min`, with the functors `maximum` and `minimum`.
  unfoldable pub maximum : A → A → A
  maximum l r = if S.lt r l then l else r

  unfoldable pub minimum : A → A → A
  minimum l r = if S.lt l r then l else r

  unfoldable pub max_ : Vec A → Vec A → Vec A
  unfolding apply_binary maximum
  max_ l r = apply_binary maximum l r

  unfoldable pub min_ : Vec A → Vec A → Vec A
  unfolding apply_binary minimum
  min_ l r = apply_binary minimum l r

  -- The comparisons element by element, of elements that are no vectors themselves.
  unfoldable pub element_equals : Vec A → Vec A → Vec Bool
  unfolding apply_binary
  element_equals l r = apply_binary S.eq l r

  unfoldable pub element_ne : Vec A → Vec A → Vec Bool
  unfolding apply_binary
  element_ne l r = apply_binary (λ a b. not (S.eq a b)) l r

  unfoldable pub element_less : Vec A → Vec A → Vec Bool
  unfolding apply_binary
  element_less l r = apply_binary S.lt l r

  unfoldable pub element_greater : Vec A → Vec A → Vec Bool
  unfolding apply_binary
  element_greater l r = apply_binary (λ a b. S.lt b a) l r

  -- `toKDim<K>`.
  unfoldable pub to_k_dim : ℕ → ℕ → Vec A → Vec A
  to_k_dim K N v i = if ltb i (if ltb K N then K else N) then v i else S.zero_

  -- `reduce`, without a function; its result for a function and a first value follows.
  unfoldable pub reduce_sum : ℕ → Vec A → A
  unfolding loop
  reduce_sum N v = loop N (λ i init. S.add init (v i)) S.zero_

  -- `operator==` and `!=`.
  unfoldable pub eq : ℕ → Vec A → Vec A → Bool
  unfolding loop
  eq N l r = loop N (λ i ret. ret && S.eq (l i) (r i)) true

  unfoldable pub ne : ℕ → Vec A → Vec A → Bool
  unfolding eq
  ne N l r = not (eq N l r)

  -- The loop of `lexicographical_compare` from the index `i`, `n` steps from its end.
  unfoldable pub lexicographical_loop : Vec A → Vec A → ℕ → ℕ → Bool
  lexicographical_loop l r i zero = false
  lexicographical_loop l r i (suc n) =
      if S.lt (l i) (r i)
      then true
      else if S.lt (r i) (l i)
      then false
      else lexicographical_loop l r (i + 1) n

  unfoldable pub lexicographical_compare : ℕ → Vec A → Vec A → Bool
  unfolding lexicographical_loop
  lexicographical_compare N l r = lexicographical_loop l r 0 N

module _ {ℓ κ} {A : Type ℓ} {B : Type κ} where
  unfoldable pub reduce : ℕ → Vec A → (A → B → B) → B → B
  unfolding loop
  reduce N v f init = loop N (λ i acc. f (v i) acc) init

module _ {A : Type 0} where
  -- `expand_to_dim`; `vec` is what the fresh array holds.
  unfoldable pub expand_to_dim : ℕ → A → Vec A → Vec A
  unfolding fill
  expand_to_dim K v vec = fill K (λ _. v) vec

  unfoldable pub concat : ℕ → Vec A → Vec A → Vec A
  concat N1 v1 v2 i = if ltb i N1 then v1 i else v2 (i - N1)

-- The logical operations element by element.
unfoldable pub element_not : Vec Bool → Vec Bool
unfolding apply_unary
element_not l = apply_unary not l

unfoldable pub element_and : Vec Bool → Vec Bool → Vec Bool
unfolding apply_binary
element_and l r = apply_binary (λ a b. a && b) l r

unfoldable pub element_or : Vec Bool → Vec Bool → Vec Bool
unfolding apply_binary
element_or l r = apply_binary (λ a b. a || b) l r
