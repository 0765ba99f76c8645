-- ===== src/Heap.antt =====
-- src/kheap.c and src/kheap.h: the kernel heap. Blocks stand end to end, each behind a header, and
-- an ordered list indexes the holes. Headers that overlap, and what the users of a block write into
-- it, are not described.
pub mod Watch
pub mod Blocks
pub mod Cut
pub mod Join
pub mod Steps
pub mod Free
pub mod Find
pub mod Checked
pub mod Watched
pub mod Records
pub mod Live
pub mod Cleared
pub mod Laws
pub mod Start
pub mod Given
pub mod Alloc
use eedox.Base.{
  ℕ, zero, suc, ◌+◌, ◌-◌, ◌*◌, ◌/◌, ◌%◌, ◌^◌, ◌≤◌, ◌<◌, min, max, ◌≡◌, ◌≢◌, ◌↔◌, ◌⊎◌, inl, inr,
  refl, sym, ap, ap₂, ◌∙◌, subst, fun_ext, Bool, true, false, ◌&&◌, ◌||◌, not, Option, none, some,
  List, [], ◌∷◌, ◌++◌, map, append-nil, append_assoc, arith, ltb, leb, ◌==◌, if◌then◌else◌, u32,
  sub32, ==_iff, Bool-cases, Option-cases, length, get_elem?, set, take, drop, length-append,
  length-set, get_elem?-set_self, get_elem?-set_ne, length-take, length-drop,
}
use eedox.Base.Int.{ℤ, pos, negsuc, pos_part, neg_part, sub_ℕ, ◌+ℤ◌, ◌-ℤ◌, ◌≤ℤ◌, leb_ℤ, ltb_ℤ}
use eedox.Memory.{Mem}
use eedox.Ordlist.{
  OrderKind, ascending, Ordlist, ordlist_insert, ordlist_remove, ordlist_get, ordlist_size,
  ordlist_place,
}

pub record Header : Type 0 where
  pub is_hole : ℕ
  pub size : ℕ
  pub prev : ℕ

-- `heap_t`.
pub record Heap : Type 0 where
  pub index : Ordlist
  pub start : ℕ
  pub size : ℕ
  pub readonly : ℕ
  pub supervisor : ℕ

-- `watchrec_t`.
pub record WatchRec : Type 0 where
  pub ptr : ℕ
  pub size : ℕ

-- `heapwatch_t`: the records below `index` are in use.
pub record Heapwatch : Type 0 where
  pub recs : ℕ → WatchRec
  pub index : ℕ

-- A heap, the headers that stand in memory, and the global `watcher`.
pub record HeapState : Type 0 where
  pub heap : Heap
  pub headers : ℕ → Header
  pub watcher : Heapwatch

-- `sizeof(hheader_t)`: the struct is packed.
abbrev pub header_size : ℕ
header_size = 9

-- A header written at an address.
unfoldable pub put : (ℕ → Header) → ℕ → Header → ℕ → Header
put hs a h x = if x == a then h else hs x

unfoldable pub set_hole : (ℕ → Header) → ℕ → ℕ → ℕ → Header
set_hole hs a flag = put hs a (record (hs a) { is_hole = flag })

unfoldable pub set_size : (ℕ → Header) → ℕ → ℕ → ℕ → Header
set_size hs a n = put hs a (record (hs a) { size = n })

unfoldable pub set_prev : (ℕ → Header) → ℕ → ℕ → ℕ → Header
set_prev hs a p = put hs a (record (hs a) { prev = p })

unfoldable pub compare_headers : (ℕ → Header) → ℕ → ℕ → ℤ
compare_headers hs a b =
    let a_size = (hs a).size in
    let b_size = (hs b).size in
    if a_size == b_size then pos 0 else if ltb b_size a_size then pos 1 else negsuc 0

-- `ordlist_insert(&heap->index, hole)`: the comparison reads the headers as they stand.
unfoldable pub index_insert : HeapState → ℕ → HeapState
index_insert s hole =
    let index = record s.heap.index { cmp = compare_headers s.headers } in
    record s { heap = record s.heap { index = (ordlist_insert index hole).1 } }

-- `ordlist_remove(&heap->index, idx)`.
unfoldable pub index_remove : HeapState → ℕ → HeapState
index_remove s idx = record s {
  heap = record s.heap { index = (ordlist_remove s.heap.index idx).1 };
}

unfoldable pub heapwatch_init : Heapwatch → Heapwatch
heapwatch_init w = record w { index = 0 }

-- `heap_init` from where the address of the first header is known. `readonly` and `supervisor` are kept;
-- nothing reads them.
unfoldable pub init_at : HeapState → ℕ → ℕ → ℕ → ℕ → ℕ → HeapState
init_at s first size index_size readonly supervisor =
    let hs = put s.headers first (record { is_hole = 1; size = size; prev = 0 }) in
    index_insert
      (record {
        heap = record {
          index = ordlist_place s.heap.index.array index_size ascending (compare_headers hs);
          start = first;
          size = size;
          readonly = readonly;
          supervisor = supervisor;
        };
        headers = hs;
        watcher = heapwatch_init s.watcher;
      })
      first

unfoldable pub heap_init : HeapState → ℕ → ℕ → ℕ → ℕ → ℕ → HeapState
heap_init s start size index_size readonly supervisor =
    let first = u32 (start + index_size) in
    let first = if first % 1000 == 0 then first else u32 (first / 0x1000 * 0x1000 + 0x1000) in
    init_at s first size index_size readonly supervisor

-- The least multiple of a page that is not below `x`.
unfoldable pub alignment : ℕ → ℕ
alignment x = if x % 0x1000 == 0 then x else u32 (x / 0x1000 * 0x1000 + 0x1000)

unfoldable pub alignment_o : ℕ → ℕ → ℕ
alignment_o x offset =
    if ltb offset (x % 0x1000)
    then u32 (x / 0x1000 * 0x1000 + (0x1000 + offset))
    else u32 (x / 0x1000 * 0x1000 + offset)

unfoldable pub heap_low_split : HeapState → ℕ → ℕ → HeapState
heap_low_split s hole size =
    let newhole = sub32 hole size in
    let hs = set_size s.headers newhole (sub32 size header_size) in
    let hs = set_size hs hole (sub32 (hs hole).size size) in
    let hs = set_prev hs newhole (hs hole).prev in
    let hs = set_prev hs hole newhole in
    let s = index_insert (record s { headers = hs }) newhole in
    record s { headers = set_hole s.headers newhole 1 }

unfoldable pub hheader_next : (ℕ → Header) → ℕ → ℕ
hheader_next hs head = u32 (head + header_size + (hs head).size)

unfoldable pub hheader_isvalid : ℕ → Heap → Bool
hheader_isvalid head heap = ltb head (u32 (heap.start + heap.size))

-- The headers that `heap_high_split` writes.
unfoldable pub split_headers : HeapState → ℕ → ℕ → ℕ → ℕ → ℕ → Header
split_headers s hole size next newhole =
    let hs = set_size s.headers newhole (sub32 size header_size) in
    let hs = set_size hs hole (sub32 (hs hole).size size) in
    let hs = set_prev hs newhole hole in
    if hheader_isvalid next s.heap then set_prev hs next newhole else hs

-- `heap_high_split` from where the addresses are known.
unfoldable pub high_split_at : HeapState → ℕ → ℕ → ℕ → ℕ → HeapState
high_split_at s hole size next newhole =
    let s = index_insert (record s { headers = split_headers s hole size next newhole }) newhole in
    record s { headers = set_hole s.headers newhole 1 }

unfoldable pub heap_high_split : HeapState → ℕ → ℕ → HeapState
heap_high_split s hole size =
    let next = hheader_next s.headers hole in high_split_at s hole size next (sub32 next size)

-- The loop of `heap_hole_index`, from index `i`, with `n` rounds left.
unfoldable pub hole_index : Mem → ℕ → ℕ → ℕ → ℕ
hole_index array head i zero = 2 ^ 32 - 1
hole_index array head i (suc n) = if array i == head then i else hole_index array head (i + 1) n

unfoldable pub heap_hole_index : Heap → ℕ → ℕ
heap_hole_index heap head = hole_index heap.index.array head 0 heap.index.size

-- What `heap_merge` does where the next block is a hole, at the index `idx`.
unfoldable pub join_next : HeapState → ℕ → ℕ → ℕ → ℕ → HeapState
join_next s hole next next_next idx =
    let hs =
      if hheader_isvalid next_next s.heap then set_prev s.headers next_next hole else s.headers in
    let s = index_remove (record s { headers = hs }) idx in
    record s {
      headers =
          set_size s.headers hole
            (u32 ((s.headers hole).size + u32 ((s.headers next).size + header_size)));
    }

unfoldable pub heap_merge : HeapState → ℕ → HeapState
heap_merge s hole =
    let next = hheader_next s.headers hole in
    if hheader_isvalid next s.heap && not ((s.headers next).is_hole == 0)
    then join_next s hole next (hheader_next s.headers next) (heap_hole_index s.heap next)
    else s
