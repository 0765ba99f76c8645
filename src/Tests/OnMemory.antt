-- ===== src/Tests/OnMemory.antt =====
-- Runs of the memory routines of src/util.c.
use eedox.Base.{ℕ, if◌then◌else◌, ltb, arith}
use eedox.Base.Int.{ℤ, pos, negsuc}
use eedox.Memory.{Mem}
use eedox.Memory.Search.{bin_search, Found, IsSortedFor, bin_search-Found}

-- Each address holds itself.
abbrev numbered : Mem
numbered x = x

abbrev compare_words : ℕ → ℕ → ℤ
compare_words a b = if ltb b a then pos 1 else if ltb a b then negsuc 0 else pos 0

numbered-IsSortedFor : IsSortedFor (λ i. compare_words (numbered i) 6) 9
numbered-IsSortedFor = record {
  above = λ i j h l e. ground arith;
  below = λ i j h l e o. ground arith;
}

bin_search-Found_example :
    Found (λ i. compare_words (numbered i) 6) 0 9 (bin_search numbered 9 6 compare_words)
bin_search-Found_example = bin_search-Found numbered 9 6 compare_words numbered-IsSortedFor
