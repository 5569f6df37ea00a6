-- ===== src/Containers/DynArray/Tests.antt =====
-- Examples for arrays on the heap.
use mart_common.Prelude.{ℕ, ◌==◌, refl, [], ◌∷◌, none, some, if◌then◌else◌, arith}
use mart_common.Containers.DynArray.{Heap, DynArray}
use mart_common.Containers.DynArray.Blocks.{Owns, Assigned, copy_assign-Owns}

abbrev heap : Heap ℕ
heap = record {
  block =
      λ p. if p == 0 then some (1 ∷ 2 ∷ 3 ∷ []) else (if p == 1 then some (4 ∷ 5 ∷ []) else none);
  next = 2;
}

abbrev three : DynArray
three = record { data_ = some 0; size = 3 }

abbrev two : DynArray
two = record { data_ = some 1; size = 2 }

three-Owns : Owns heap three 0 (1 ∷ 2 ∷ 3 ∷ [])
three-Owns = record { at_block = refl; has_block = refl; has_size = refl; is_old = omega arith }

two-Owns : Owns heap two 1 (4 ∷ 5 ∷ [])
two-Owns = record { at_block = refl; has_block = refl; has_size = refl; is_old = omega arith }

copy_assign-Owns_example : Assigned 0 three two heap 0 1 (1 ∷ 2 ∷ 3 ∷ []) (4 ∷ 5 ∷ [])
copy_assign-Owns_example =
    copy_assign-Owns 0 three two heap 0 1 (1 ∷ 2 ∷ 3 ∷ []) (4 ∷ 5 ∷ []) three-Owns two-Owns
      (omega arith)
