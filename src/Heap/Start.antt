-- ===== src/Heap/Start.antt =====
-- src/kheap.c: the heap that `heap_init` makes.
use eedox.Base.{
  ℕ, ◌+◌, ◌*◌, ◌/◌, ◌%◌, ◌^◌, ◌≤◌, ◌<◌, ◌≡◌, refl, [], ◌∷◌, arith, ◌==◌, if◌then◌else◌, u32, ==_iff,
}
use eedox.Ordlist.{ordlist_place, ordlist_insert, ascending}
use eedox.Ordlist.Held.{held, count, held-insert, one_if}
use eedox.Heap.{
  init_at, HeapState, header_size, put, index_insert, heap_init, heapwatch_init, compare_headers,
}
use eedox.Heap.Blocks.{hole, block_size, hole_flag, extent, holes_at, apart, Laid}
use eedox.Heap.Watched.{taken_at}
use eedox.Heap.Laws.{IsHeap}

-- One hole from `first` on.
init_at-IsHeap :
    (s : HeapState) (first size index_size readonly supervisor : ℕ)
    → 1 < first
    → 0 < size
    → first + size + header_size < 2 ^ 32
    → IsHeap (init_at s first size index_size readonly supervisor) (hole size ∷ [])
unfolding init_at index_insert ordlist_place Laid extent holes_at apart block_size hole_flag
    heapwatch_init taken_at put held count
init_at-IsHeap s first size index_size readonly supervisor low some_bytes high =
    let hs = put s.headers first (record { is_hole = 1; size = size; prev = 0 }) in
    let index = ordlist_place s.heap.index.array index_size ascending (compare_headers hs) in
    let inserted : (x : ℕ) → held (ordlist_insert index first).1 x ≡ one_if (first == x) + 0 =
      held-insert index first in
    record {
      tiled = record {
        laid = (rw ((==_iff first first).1 refl) refl, some_bytes, _);
        whole = omega arith;
        index = λ x. inserted x;
        low = low;
        high = high;
      };
      separate = refl;
      watched = record {
        room = omega arith;
        sound = λ i u. absurd (omega arith);
        once = λ i j u. absurd (omega arith);
        all = λ x e. absurd (ground (arith, e));
      };
    }

-- `heap_init` makes a sound heap of one hole, behind the room for the index and not more than a page
-- further on, where no address runs over.
pub heap_init-IsHeap :
    (s : HeapState) (start size index_size readonly supervisor : ℕ)
    → 1 < start
    → 0 < size
    → start + index_size + 0x1000 + size + header_size < 2 ^ 32
    → let s' = heap_init s start size index_size readonly supervisor in
      (start + index_size ≤ s'.heap.start)
      × (s'.heap.start ≤ start + index_size + 0x1000)
      × IsHeap s' (hole size ∷ [])
unfolding heap_init init_at index_insert
heap_init-IsHeap s start size index_size readonly supervisor low some_bytes high =
    let first = u32 (start + index_size) in
    let first = if first % 1000 == 0 then first else u32 (first / 0x1000 * 0x1000 + 0x1000) in
    let above : start + index_size ≤ first = ground arith in
    let below : first ≤ start + index_size + 0x1000 = ground arith in
    (
      above,
      below,
      init_at-IsHeap s first size index_size readonly supervisor (omega (arith, above)) some_bytes
          (omega (arith, below)),
    )
