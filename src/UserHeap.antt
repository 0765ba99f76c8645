-- ===== src/UserHeap.antt =====
-- user/alloc.c, user/alloc.h and user/alloc-internal.h: the heap of a program, its headers and its list of
-- free blocks. `size_t` is a uint32_t. A loop along the blocks or the list has fuel, and is `none`
-- without it.
pub mod Alloc
pub mod FreeList
pub mod Realloc
pub mod Links
use eedox.Base.{
  ℕ, zero, suc, ◌+◌, ◌-◌, ◌*◌, ◌/◌, ◌%◌, ◌^◌, ◌≤◌, ◌<◌, min, max, ◌≡◌, ◌≢◌, ◌↔◌, ◌⊎◌, inl, inr,
  refl, sym, ap, ap₂, ◌∙◌, subst, fun_ext, Bool, true, false, ◌&&◌, ◌||◌, not, Option, none, some,
  List, [], ◌∷◌, ◌++◌, map, append-nil, append_assoc, arith, ltb, leb, ◌==◌, if◌then◌else◌, u32,
  sub32, ==_iff, Bool-cases, Option-cases, length, get_elem?, set, take, drop, length-append,
  length-set, get_elem?-set_self, get_elem?-set_ne, length-take, length-drop,
}
use eedox.Base.Int.{ℤ, pos, negsuc, pos_part, neg_part, sub_ℕ, ◌+ℤ◌, ◌-ℤ◌, ◌≤ℤ◌, leb_ℤ, ltb_ℤ}
use eedox.Memory.{Mem, memcpy}

pub record ObjectHeader : Type 0 where
  pub size : ℕ
  pub used : ℕ
  pub next_free : ℕ
  pub prev_free : ℕ

-- `heap_t`.
pub record Heap : Type 0 where
  pub root : ℕ
  pub size : ℕ
  pub brk : ℕ
  pub free : ℕ

-- The heap, the headers by their addresses, and the bytes that the blocks hold.
pub record Heaped : Type 0 where
  pub mem : Heap
  pub headers : ℕ → ObjectHeader
  pub bytes : Mem

-- `sizeof(object_header)` and `sizeof(size_t)`.
abbrev pub header_size : ℕ
header_size = 16

abbrev pub word_size : ℕ
word_size = 4

unfoldable pub put : (ℕ → ObjectHeader) → ℕ → ObjectHeader → ℕ → ObjectHeader
put hs a h x = if x == a then h else hs x

-- The remainder is a uint8_t.
unfoldable pub alignment : ℕ → ℕ → ℕ
alignment size align =
    if align == 0
    then size
    else let rem = size % align % 256 in
      let c = size - rem in if rem == 0 then c else u32 (c + align)

unfoldable pub heap_untouched_memory : Heap → ℕ
heap_untouched_memory mem = sub32 mem.size mem.brk

unfoldable pub object_header_new : ℕ → ObjectHeader
object_header_new size = record { size = size; used = 1; next_free = 0; prev_free = 0 }

unfoldable pub object_header_next : (ℕ → ObjectHeader) → ℕ → ℕ
object_header_next hs h = u32 (h + (hs h).size / word_size * word_size + header_size)

unfoldable pub heap_end : Heap → ℕ
heap_end mem = u32 (mem.root + mem.brk / word_size * word_size)

unfoldable pub heap_new : ℕ → ℕ → Heap
heap_new pointer size = record { root = pointer; size = size; brk = 0; free = 0 }

unfoldable pub object_header_set_used : (ℕ → ObjectHeader) → ℕ → ℕ → ℕ → ObjectHeader
object_header_set_used hs h flag = put hs h (record (hs h) { used = flag })

unfoldable pub object_header_set_size : (ℕ → ObjectHeader) → ℕ → ℕ → ℕ → ObjectHeader
object_header_set_size hs h size = put hs h (record (hs h) { size = size })

unfoldable pub set_next_free : (ℕ → ObjectHeader) → ℕ → ℕ → ℕ → ObjectHeader
set_next_free hs h next = put hs h (record (hs h) { next_free = next })

unfoldable pub set_prev_free : (ℕ → ObjectHeader) → ℕ → ℕ → ℕ → ObjectHeader
set_prev_free hs h prev = put hs h (record (hs h) { prev_free = prev })

unfoldable pub object_header_is_null : Heap → ℕ → Bool
object_header_is_null mem h = leb (heap_end mem) h

-- The loop of `heap_used_memory`, from the header at `beg`.
unfoldable pub used_from : Heaped → ℕ → ℕ → ℕ → Option ℕ
used_from s sum beg zero = none
used_from s sum beg (suc n) =
    let block = if (s.headers beg).used == 0 then 0 else (s.headers beg).size in
    let rest = used_from s (u32 (sum + block + header_size)) (object_header_next s.headers beg) n in
    if object_header_is_null s.mem beg then some sum else rest

unfoldable pub heap_used_memory : ℕ → Heaped → Option ℕ
heap_used_memory fuel s = used_from s 0 s.mem.root fuel

-- The loop of `heap_find_first_fit`, from `block`.
unfoldable pub first_fit_from : (ℕ → ObjectHeader) → ℕ → ℕ → ℕ → Option ℕ
first_fit_from hs size block zero = none
first_fit_from hs size block (suc n) =
    let rest = first_fit_from hs size (hs block).next_free n in
    if block == 0 then some 0 else if leb size (hs block).size then some block else rest

unfoldable pub heap_find_first_fit : ℕ → Heaped → ℕ → Option ℕ
heap_find_first_fit fuel s size = first_fit_from s.headers size s.mem.free fuel

unfoldable pub object_header_merge : (ℕ → ObjectHeader) → ℕ → ℕ → ObjectHeader
object_header_merge hs h =
    object_header_set_size hs h
      (u32 ((hs h).size + (hs (object_header_next hs h)).size + header_size))

unfoldable pub heap_add_free : Heaped → ℕ → Heaped
heap_add_free s header =
    let free = s.mem.free in
    let hs = set_prev_free (set_next_free s.headers header free) header 0 in
    record s {
      mem = record s.mem { free = header };
      headers = if free == 0 then hs else set_prev_free hs free header;
    }

unfoldable pub heap_remove_free : Heaped → ℕ → Heaped
heap_remove_free s header =
    let next = (s.headers header).next_free in
    let prev = (s.headers header).prev_free in
    let hs = if next == 0 then s.headers else set_prev_free s.headers next prev in
    let hs = if prev == 0 then hs else set_next_free hs prev next in
    let hs = set_next_free (set_prev_free hs header 0) header 0 in
    record s {
      mem = if s.mem.free == header then record s.mem { free = next } else s.mem;
      headers = hs;
    }

unfoldable pub heap_is_end : Heaped → ℕ → Bool
heap_is_end s header =
    u32 (header + header_size + (s.headers header).size / word_size * word_size) == heap_end s.mem

-- The rest of a block becomes one of its own; at the end of the heap `brk` goes back instead.
unfoldable pub object_header_try_split : Heaped → ℕ → ℕ → Heaped
object_header_try_split s h size =
    let current_size = (s.headers h).size in
    let hs = object_header_set_size s.headers h size in
    if heap_is_end s h
    then (if ltb size current_size
        then record s {
          mem = record s.mem { brk = sub32 s.mem.brk (current_size - size) };
          headers = hs;
        }
        else s)
    else if ltb (u32 (size + header_size)) current_size
    then (let next = object_header_next hs h in
        let rest = object_header_new (current_size - size - header_size) in
        heap_add_free (record s { headers = object_header_set_used (put hs next rest) next 0 })
          next)
    else s

unfoldable pub heap_expand : Heap → ℕ → Heap
heap_expand mem size = record mem { size = u32 (mem.size + size) }
