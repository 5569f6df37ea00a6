-- ===== src/Math/Vec/Laws.antt =====
-- The norms of the three templates, and the vectors made of others.
use mart_common.Prelude.{ℕ, ◌+◌, ◌-◌, ◌<◌, ◌≡◌, refl, sym, ap, le→ltb, arith}
use mart_common.Math.Loop.{loop}
use mart_common.Math.Scalar.{Scalar, IsSemiring}
use mart_common.Math.Vec.{
  Vec, Vec2D, Vec3D, at_2, at_3, inner_product, square_norm, square_norm_2, square_norm_3, to_k_dim,
  concat,
}

module _ {A : Type 0} (S : Scalar A) (u : A) where
  -- The square norm of the general template and of the two special ones is the inner product of
  -- the vector with itself.
  pub square_norm-inner_product :
      (N : ℕ) (v : Vec A) (v2 : Vec2D A) (v3 : Vec3D A)
      → IsSemiring S u
      → (square_norm S N v ≡ inner_product S N v v)
        × (square_norm_2 S v2 ≡ inner_product S 2 (at_2 v2) (at_2 v2))
        × (square_norm_3 S v3 ≡ inner_product S 3 (at_3 v3) (at_3 v3))
  unfolding square_norm square_norm_2 square_norm_3 inner_product loop
  square_norm-inner_product N v v2 v3 R = (
    refl,
    ap (λ a. S.add a (S.mul v2.y v2.y)) (sym (R.zero_add (S.mul v2.x v2.x))),
    ap (λ a. S.add (S.add a (S.mul v3.y v3.y)) (S.mul v3.z v3.z))
        (sym (R.zero_add (S.mul v3.x v3.x))),
  )

  -- The first and the second part of two vectors put together.
  pub to_k_dim-concat :
      (N1 N2 : ℕ) (v1 v2 : Vec A) (i : ℕ)
      → (i < N1 → to_k_dim S N1 (N1 + N2) (concat N1 v1 v2) i ≡ v1 i)
        × (concat N1 v1 v2 (N1 + i) ≡ v2 i)
  unfolding to_k_dim concat
  to_k_dim-concat N1 N2 v1 v2 i = (
    λ h. ground arith,
    rw (le→ltb (N1 + i) N1 (omega arith)) (ap v2 {x = N1 + i - N1} {y = i} (omega arith)),
  )
