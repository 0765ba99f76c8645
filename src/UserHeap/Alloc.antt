-- ===== src/UserHeap/Alloc.antt =====
-- user/alloc.c: `heap_find_best_fit`, the finder that the build takes, `heap_alloc` and `heap_dealloc`.
use eedox.Base.{
  ℕ, zero, suc, ◌+◌, ◌-◌, ◌&&◌, ◌||◌, not, Option, none, some, ltb, leb, ◌==◌, if◌then◌else◌, u32,
  sub32,
}
use eedox.UserHeap.{
  Heaped, header_size, put, alignment, heap_untouched_memory, object_header_new, object_header_next,
  heap_end, object_header_set_used, object_header_set_size, object_header_is_null,
  object_header_merge, heap_add_free, heap_remove_free, heap_is_end, object_header_try_split,
}

-- What a round of `heap_find_best_fit` comes to: it returns a block, or goes on at a block of the list
-- of free ones.
pub data Round : Type 0 where
  done : ℕ → Heaped → Round
  again : Heaped → ℕ → ℕ → Round

-- The block is large enough.
unfoldable pub large_round : Heaped → ℕ → ℕ → ℕ → Round
large_round s size best block =
    let h = s.headers block in
    if h.size == size
    then done block s
    else if (best == 0) || ltb h.size (s.headers best).size
    then again s block h.next_free
    else again s best h.next_free

-- The block is too small: at the end of the heap it grows, else it takes in a free block behind it.
unfoldable pub small_round : Heaped → ℕ → ℕ → ℕ → Round
small_round s size best block =
    let h = s.headers block in
    let needed_size = size - h.size in
    let next = object_header_next s.headers block in
    if heap_is_end s block
    then (if leb needed_size (heap_untouched_memory s.mem)
        then done block (record s {
          mem = record s.mem { brk = u32 (s.mem.brk + needed_size) };
          headers = object_header_set_size s.headers block size;
        })
        else again s best h.next_free)
    else if not (object_header_is_null s.mem next) && ((s.headers next).used == 0)
    then again (heap_remove_free (record s { headers = object_header_merge s.headers block }) next)
        best block
    else again s best h.next_free

unfoldable pub best_round : Heaped → ℕ → ℕ → ℕ → Round
best_round s size best block =
    if leb size (s.headers block).size
    then large_round s size best block
    else small_round s size best block

-- The loop of `heap_find_best_fit`. The block is 0 where none was found.
unfoldable pub best_from : ℕ → ℕ → Round → Option (ℕ × Heaped)
best_from size n (done block s) = some (block, s)
best_from size zero (again s best block) = none
best_from size (suc n) (again s best block) =
    let rest = best_from size n (best_round s size best block) in
    if block == 0 then some (best, s) else rest

unfoldable pub heap_find_best_fit : ℕ → Heaped → ℕ → Option (ℕ × Heaped)
heap_find_best_fit fuel s size = best_from size fuel (again s 0 s.mem.free)

-- `heap_alloc` from where a block was looked for: the address behind the header, or 0.
unfoldable pub alloc_found : Heaped → ℕ → ℕ → ℕ × Heaped
alloc_found s size block =
    let s' = object_header_try_split s block size in
    let used : Heaped = record s' { headers = object_header_set_used s'.headers block 1 } in
    let end = heap_end s.mem in
    if not (block == 0)
    then (u32 (block + header_size), heap_remove_free used block)
    else if ltb (heap_untouched_memory s.mem) (u32 (size + header_size))
    then (0, s)
    else (
      u32 (end + header_size),
      record s {
        mem = record s.mem { brk = u32 (s.mem.brk + header_size + size) };
        headers = put s.headers end (object_header_new size);
      },
    )

unfoldable pub alloc_with : ℕ → Option (ℕ × Heaped) → Option (ℕ × Heaped)
alloc_with size none = none
alloc_with size (some (block, s)) = some (alloc_found s size block)

unfoldable pub heap_alloc : ℕ → Heaped → ℕ → ℕ → Option (ℕ × Heaped)
heap_alloc fuel s size align =
    let size' = alignment size align in
    if size == 0 then some (0, s) else alloc_with size' (heap_find_best_fit fuel s size')

unfoldable pub heap_dealloc : Heaped → ℕ → Heaped
heap_dealloc s pointer =
    let header = sub32 pointer header_size in
    heap_add_free (record s { headers = object_header_set_used s.headers header 0 }) header
