-- ===== src/Tests/OnHeap.antt =====
-- The kernel heap at concrete values.
use eedox.Base.{ℕ, ◌+◌, ◌≤◌, ◌≡◌, inl, refl, List, [], ◌∷◌, arith, ◌==◌, if◌then◌else◌}
use eedox.Ordlist.{ascending}
use eedox.Ordlist.Held.{held, count}
use eedox.Heap.{HeapState, Header, header_size, heap_init, compare_headers}
use eedox.Heap.Watch.{returns, panics}
use eedox.Heap.Alloc.{heap_alloc, heap_free}
use eedox.Heap.Blocks.{
  Block, hole, taken, block_size, hole_flag, extent, holes_at, apart, Laid, last_header,
}
use eedox.Heap.Join.{join}
use eedox.Heap.Watched.{taken_at, covers}
use eedox.Heap.Find.{all_below}
use eedox.Heap.Records.{HasRoom}
use eedox.Heap.Laws.{IsHeap, Allocates, heap_alloc-IsHeap}
use eedox.Heap.Given.{heap_free-IsHeap, heap_free-panics, heap_free-heap_alloc}
use eedox.Heap.Start.{heap_init-IsHeap}

-- A live block of 50 bytes at 16, behind it a hole of 41 bytes at 75.
abbrev headers : ℕ → Header
headers a =
    if a == 16
    then record { is_hole = 0; size = 50; prev = 0 }
    else record { is_hole = 1; size = 41; prev = 16 }

abbrev heap : HeapState
heap = record {
  heap = record {
    index = record {
      size = 1;
      max_size = 8;
      array = λ i. 75;
      cmp = compare_headers headers;
      order = ascending;
    };
    start = 16;
    size = 100;
    readonly = 0;
    supervisor = 1;
  };
  headers = headers;
  watcher = record { recs = λ i. record { ptr = 25; size = 50 }; index = 1 };
}

abbrev blocks : List Block
blocks = taken 50 ∷ hole 41 ∷ []

heap-IsHeap : IsHeap heap blocks
unfolding Laid extent block_size hole_flag last_header holes_at apart held count covers taken_at
heap-IsHeap = record {
  tiled = record {
    laid = (refl, omega arith, (refl, omega arith, _));
    whole = refl;
    index = λ x. ground arith;
    low = omega arith;
    high = omega arith;
  };
  separate = refl;
  watched = record {
    room = omega arith;
    sound = λ i u v. refl;
    once = λ i j u v x y. omega arith;
    all = λ x e. (0, (omega arith, ground (arith, e)));
  };
}

heap-HasRoom : HasRoom heap.watcher
unfolding HasRoom
heap-HasRoom = inl (omega arith)

heap_alloc-IsHeap_example :
    (out : ℕ) × (s' : HeapState) × (heap_alloc heap 20 0 ≡ returns (out, s'))
    × Allocates heap blocks 20 out s'
heap_alloc-IsHeap_example = heap_alloc-IsHeap heap blocks 20 heap-IsHeap heap-HasRoom

heap_free-IsHeap_example :
    (s' : HeapState) × (heap_free heap (16 + extent [] + header_size) ≡ returns s')
    × (s'.heap.start ≡ 16)
    × IsHeap s' (join (hole 50 ∷ hole 41 ∷ []))
heap_free-IsHeap_example = heap_free-IsHeap heap [] (hole 41 ∷ []) 50 heap-IsHeap

heap_free-panics_example : heap_free heap 84 ≡ panics
unfolding taken_at
heap_free-panics_example = heap_free-panics heap blocks 84 heap-IsHeap (omega arith) refl

heap_free-heap_alloc_example :
    (ptr : ℕ) × (s' : HeapState) × (s'' : HeapState) × (heap_alloc heap 20 0 ≡ returns (ptr, s'))
    × (heap_free s' ptr ≡ returns s'')
    × IsHeap s'' blocks
unfolding all_below
heap_free-heap_alloc_example =
    heap_free-heap_alloc heap blocks 20 heap-IsHeap heap-HasRoom (omega arith) refl

heap_init-IsHeap_example :
    let s' = heap_init heap 0x8000 5000 0x20000 0 1 in
    (0x28000 ≤ s'.heap.start) × (s'.heap.start ≤ 0x29000) × IsHeap s' (hole 5000 ∷ [])
heap_init-IsHeap_example =
    heap_init-IsHeap heap 0x8000 5000 0x20000 0 1 (omega arith) (omega arith) (omega arith)
