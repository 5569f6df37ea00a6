-- ===== src/Containers/Link/Tests.antt =====
-- Two targets with two back pointers each; link 1 leads to target 1, all other links nowhere.
use mart_common.Prelude.{ℕ, ◌≡◌, ◌≢◌, true, false, [], ◌∷◌, ◌==◌, if◌then◌else◌, arith}
use mart_common.Prelude.Threads.{update}
use mart_common.Containers.Link.{Heap, connect, move_target}
use mart_common.Containers.Link.Counts.{count}
use mart_common.Containers.Link.Invariant.{IsConsistent, HasRoom}
use mart_common.Containers.Link.Links.{connect_lem}
use mart_common.Containers.Link.Targets.{redirect, move_target_lem}

abbrev heap : Heap
heap = record {
  target = λ k. if k == 1 then 1 else 0;
  back_ptrs = λ u. if u == 1 then 1 ∷ 0 ∷ [] else 0 ∷ 0 ∷ [];
}

heap-IsConsistent : IsConsistent heap
heap-IsConsistent u k nu nk = ground arith

one_ne : ◌≢◌ {A = ℕ} 1 0
one_ne = omega arith

two_ne : ◌≢◌ {A = ℕ} 2 0
two_ne = omega arith

connect_lem_example :
    (HasRoom heap 2
      → (k : Heap) × (connect heap 1 2 ≡ (true, k))
        × (k.target ≡ update heap.target 1 2)
        × IsConsistent k)
    × (count 0 (heap.back_ptrs 2) ≡ 0 → connect heap 1 2 ≡ (false, heap))
connect_lem_example = connect_lem heap 1 2 heap-IsConsistent one_ne two_ne

move_target_lem_example :
    ((k : ℕ) → k ≢ 0 → (move_target heap 2 1).target k ≡ redirect 1 2 (heap.target k))
    × (((k : ℕ) → k ≢ 0 → heap.target k ≢ 2) → IsConsistent (move_target heap 2 1))
    × ((k : ℕ)
        → k ≢ 0
        → heap.target k ≡ 2
        → ((move_target heap 2 1).target k ≡ 2)
          × (count k ((move_target heap 2 1).back_ptrs 2) ≡ 0))
move_target_lem_example = move_target_lem heap 2 1 heap-IsConsistent two_ne one_ne (omega arith)
