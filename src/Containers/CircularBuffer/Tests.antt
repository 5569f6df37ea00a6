-- ===== src/Containers/CircularBuffer/Tests.antt =====
-- A buffer of three slots whose contents go round the end.
use mart_common.Prelude.{ℕ, suc, ◌+◌, ◌≡◌, [], ◌∷◌, ◌++◌, arith}
use mart_common.Containers.CircularBuffer.{CircularBuffer, push_back, size}
use mart_common.Containers.CircularBuffer.Refine.{IsValid, contents, push_back_refines}

-- 7 is held, at the last slot.
abbrev holding : CircularBuffer ℕ
holding = record { slots = λ i. i + 5; next_read = 2; next_write = 0 }

abbrev full : CircularBuffer ℕ
full = record { slots = λ i. i; next_read = 2; next_write = 1 }

push_back_refines_example :
    IsValid 3 (push_back 3 holding 9)
    × (size 3 (push_back 3 holding 9) ≡ suc (size 3 holding))
    × (contents 3 (push_back 3 holding 9) ≡ contents 3 holding ++ 9 ∷ [])
unfolding size
push_back_refines_example = push_back_refines 3 holding 9 (omega arith) (omega arith)
