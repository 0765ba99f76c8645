-- ===== src/Tests/OnVec.antt =====
-- Runs of the vector of src/vec.c.
use eedox.Base.{ℕ, ◌+◌, ◌-◌, ◌≤◌, ◌<◌, arith, ltb, ◌==◌, if◌then◌else◌}
use eedox.Vec.{Vec, vec_insert}
use eedox.Vec.Laws.{IsValid, Holds, insert-Holds}

abbrev old_bytes : ℕ → ℕ
old_bytes i = 170

-- 10, 11, 12, 13 in a buffer that is full.
abbrev full : Vec
full = record { buffer = λ i. 10 + i; size = 4; cap = 4 }

full-IsValid : IsValid full
full-IsValid = record { some_room = omega arith; within = omega arith; small = omega arith }

insert-Holds_example :
    let w = vec_insert old_bytes full 1 9 in
    Holds w 5 (λ k. if k == 1 then 9 else if ltb k 1 then 10 + k else 10 + (k - 1))
    × (w.size ≤ w.cap)
    × (0 < w.cap)
insert-Holds_example = insert-Holds old_bytes full 1 9 full-IsValid
