-- ===== src/Tests/OnBitset.antt =====
-- Runs of the bit set of src/bitset.c.
use eedox.Base.{arith, ◌==◌, if◌then◌else◌}
use eedox.Memory.{Mem}
use eedox.Bitset.{Bitset}
use eedox.Bitset.Laws.{IsBytes}

-- Two bytes, the first full and the second with its three highest bits set.
abbrev frames : Mem
frames x = if x == 100 then 255 else if x == 101 then 224 else 7

abbrev frame_map : Bitset
frame_map = record { start = 100; len = 16 }

frames-IsBytes : IsBytes frames
frames-IsBytes x = ground arith
