-- ===== src/Tests/OnUserHeap.antt =====
-- The heap of a program at concrete values.
use eedox.Base.{◌+◌, ◌-◌, refl, [], ◌∷◌, ◌==◌, if◌then◌else◌}
use eedox.UserHeap.{Heaped, heap_remove_free}
use eedox.UserHeap.FreeList.{is_in, distinct, first, NextChain, PrevChain, IsFreeList}
use eedox.UserHeap.Links.{remove-IsFreeList}

-- The free blocks 100, 200 and 300.
abbrev three_free : Heaped
three_free = record {
  mem = record { root = 100; size = 1024; brk = 400; free = 100 };
  headers = λ a. record {
    size = 32;
    used = 0;
    next_free = if a == 300 then 0 else a + 100;
    prev_free = a - 100;
  };
  bytes = λ a. 0;
}

three_free-IsFreeList : IsFreeList three_free (100 ∷ 200 ∷ 300 ∷ [])
unfolding NextChain PrevChain first distinct is_in
three_free-IsFreeList = record {
  free = refl;
  next = (refl, (refl, (refl, _)));
  prev = (refl, (refl, (refl, _)));
  once = refl;
  some_block = refl;
}

remove-IsFreeList_example : IsFreeList (heap_remove_free three_free 200) (100 ∷ 300 ∷ [])
remove-IsFreeList_example =
    remove-IsFreeList three_free (100 ∷ []) (300 ∷ []) 200 three_free-IsFreeList
