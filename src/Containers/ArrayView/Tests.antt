-- ===== src/Containers/ArrayView/Tests.antt =====
-- A view of four elements at address 10 of a memory that holds, at each address, its square.
use mart_common.Prelude.{ℕ, ◌*◌, ◌≡◌, inl, some, arith}
use mart_common.Containers.ArrayView.{ArrayView, copy_some, CopyRetType}
use mart_common.Containers.ArrayView.Copies.{Copied, copy_some_lem}

abbrev squares : ℕ → ℕ
squares a = a * a

abbrev four : ArrayView
four = record { data_ = 10; size = 4 }

abbrev below : ArrayView
below = record { data_ = 3; size = 5 }

copy_some_lem_example :
    (r : (ℕ → ℕ) × CopyRetType) × (copy_some squares four below ≡ some r)
    × Copied squares four below 4 r
copy_some_lem_example = copy_some_lem squares four below (omega arith) (inl (omega arith))
