-- ===== src/Heap/Alloc.antt =====
-- src/kheap.c: `heap_alloc` and `heap_free`.
use eedox.Base.{ℕ, zero, suc, ◌+◌, ◌-◌, Bool, ◌&&◌, not, ltb, leb, ◌==◌, if◌then◌else◌, u32, sub32}
use eedox.Memory.{Mem}
use eedox.Ordlist.{ordlist_get, ordlist_size}
use eedox.Heap.{
  HeapState, Header, Heapwatch, header_size, put, set_hole, set_size, set_prev, index_insert,
  index_remove, alignment_o, heap_low_split, heap_high_split, heap_merge,
}
use eedox.Heap.Watch.{Run, returns, and_then, heapwatch_alloc, heapwatch_free, heap_check}

-- The condition on which the search of `heap_alloc` stops at a hole.
unfoldable pub fits : (ℕ → Header) → ℕ → ℕ → ℕ → Bool
fits hs size align hole =
    if align == 0
    then leb size (hs hole).size
    else let extrasize = sub32 (alignment_o hole (0x1000 - header_size)) hole in
      ltb extrasize (hs hole).size && leb size ((hs hole).size - extrasize)

-- The search of `heap_alloc`, from index `i`, with `n` rounds left.
unfoldable pub best_index : (ℕ → Header) → Mem → ℕ → ℕ → ℕ → ℕ → ℕ
best_index hs array size align i zero = i
best_index hs array size align i (suc n) =
    if fits hs size align (array i) then i else best_index hs array size align (i + 1) n

-- What an aligned block does with the bytes in front of it; the result is its address.
unfoldable pub align_block : HeapState → ℕ → ℕ × HeapState
align_block s hole =
    let newaddr = alignment_o hole (0x1000 - header_size) in
    let extrasize = sub32 newaddr hole in
    let hs = put s.headers newaddr (s.headers hole) in
    let prev = (hs newaddr).prev in
    (
      newaddr,
      if ltb header_size extrasize
          then heap_low_split (record s { headers = hs }) newaddr extrasize
          else if not (prev == 0)
          then record s { headers = set_size hs prev (u32 ((hs prev).size + extrasize)) }
          else record s { headers = set_prev hs newaddr 1 },
    )

-- The bytes that a block has too many.
unfoldable pub trim_block : HeapState → ℕ → ℕ → HeapState
trim_block s block size =
    let rest = sub32 (s.headers block).size size in
    if ltb header_size rest then heap_high_split s block rest else s

-- The end of `heap_alloc`.
unfoldable pub hand_out : HeapState → ℕ → ℕ → Run (ℕ × HeapState)
hand_out s block size =
    let ptr = u32 (block + header_size) in
    and_then (heapwatch_alloc s.watcher ptr size) (λ w.
      let s : HeapState = record s { watcher = w } in
      and_then (heap_check s) (λ _. returns (ptr, s)))

-- What `heap_alloc` does with the hole that it found.
unfoldable pub take_hole : HeapState → ℕ → ℕ → ℕ → Run (ℕ × HeapState)
take_hole s size align idx =
    let best_hole = ordlist_get s.heap.index idx in
    let s = index_remove (record s { headers = set_hole s.headers best_hole 0 }) idx in
    let (block, s) = if align == 0 then (best_hole, s) else align_block s best_hole in
    hand_out (trim_block s block size) block size

unfoldable pub alloc_checked : HeapState → ℕ → ℕ → Run (ℕ × HeapState)
alloc_checked s size align =
    if size == 0
    then returns (0, s)
    else let idx = best_index s.headers s.heap.index.array size align 0 s.heap.index.size in
      if idx == ordlist_size s.heap.index then returns (0, s) else take_hole s size align idx

-- `align` is a uint8_t.
unfoldable pub heap_alloc : HeapState → ℕ → ℕ → Run (ℕ × HeapState)
heap_alloc s size align = and_then (heap_check s) (λ _. alloc_checked s size align)

-- The block in front of a freed block, where it is a hole as well. The branch on the address 1 writes
-- the header of the freed block to the start of the heap.
unfoldable pub merge_prev : HeapState → ℕ → HeapState
merge_prev s block =
    let prev = (s.headers block).prev in
    if not (prev == 0) && not ((s.headers prev).is_hole == 0)
    then (if prev == 1
        then record s {
          headers =
              (let hs = put s.headers s.heap.start (s.headers block) in
                set_size hs s.heap.start (u32 ((hs s.heap.start).size + sub32 block s.heap.start)));
        }
        else heap_merge s prev)
    else s

-- `heap_free` from where the block is found to be live.
unfoldable pub free_block : HeapState → ℕ → HeapState
free_block s block =
    let s = index_insert (record s { headers = set_hole s.headers block 1 }) block in
    merge_prev (heap_merge s block) block

unfoldable pub free_watched : HeapState → ℕ → Heapwatch → Run HeapState
free_watched s ptr w =
    let s : HeapState = record s { watcher = w } in
    if ptr == 0
    then returns s
    else let s = free_block s (sub32 ptr header_size) in and_then (heap_check s) (λ _. returns s)

unfoldable pub heap_free : HeapState → ℕ → Run HeapState
heap_free s ptr =
    and_then (heap_check s) (λ _. and_then (heapwatch_free s.watcher ptr) (free_watched s ptr))
