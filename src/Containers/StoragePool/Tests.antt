-- ===== src/Containers/StoragePool/Tests.antt =====
-- A store of two slots: two pointers to an object in slot 1, one null pointer.
use mart_common.Prelude.{ℕ, ◌≡◌, ◌≢◌, true, false, [], ◌∷◌, ◌==◌, if◌then◌else◌, ℕ_discrete, arith}
use mart_common.Containers.Link.Counts.{count}
use mart_common.Containers.StoragePool.{
  free, used, Pool, copy_construct, move_construct, copy_assign, move_assign, destroy_ptr,
}
use mart_common.Containers.StoragePool.Counted.{IsValid}
use mart_common.Containers.StoragePool.Pointers.{pointers-IsValid}

abbrev pool : Pool
pool = record {
  cnt = λ k. if k == 1 then used 2 else free;
  alive = λ k. if k == 1 then true else false;
  ptrs = 1 ∷ 0 ∷ 1 ∷ [];
}

pool-IsValid : IsValid pool
pool-IsValid k nk = elim (ℕ_discrete k 1) [
  | yes one ↦ rw one (ground arith, ground arith)
  | no other ↦ let z : count k pool.ptrs ≡ 0 = ground arith in rw z (ground arith, ground arith)
]

pointers-IsValid_example :
    IsValid (copy_construct pool 1)
    × IsValid (move_construct pool 1)
    × IsValid (copy_assign pool 0 1)
    × ((◌≢◌ {A = ℕ} 0 1) → IsValid (move_assign pool 0 1))
    × IsValid (destroy_ptr pool 0)
pointers-IsValid_example = pointers-IsValid pool pool-IsValid 0 1 (omega arith) (omega arith)
