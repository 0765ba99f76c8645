-- ===== src/UserHeap/Realloc.antt =====
-- user/alloc.c: `heap_realloc`; user/stdlib.c: `malloc` and `free`, where sbrk gives the bytes asked for.
use eedox.Base.{
  ℕ, zero, suc, ◌*◌, ◌||◌, not, Option, none, some, leb, ◌==◌, if◌then◌else◌, u32, sub32,
}
use eedox.Memory.{memcpy}
use eedox.UserHeap.{
  Heaped, header_size, alignment, object_header_next, object_header_merge, object_header_try_split,
  heap_expand,
}
use eedox.UserHeap.Alloc.{heap_alloc, heap_dealloc}

-- What the loop of `heap_realloc` comes to: the block has grown enough, or the block behind it is used.
pub data Growth : Type 0 where
  enough stuck : Heaped → Growth

-- The loop of `heap_realloc` at the block `header`.
unfoldable pub grow_from : ℕ → Heaped → ℕ → ℕ → Option Growth
grow_from zero s header size = none
grow_from (suc n) s header size =
    let next = object_header_next s.headers header in
    let rest =
      grow_from n (record s { headers = object_header_merge s.headers header }) header size in
    if leb size (s.headers header).size
    then some (enough s)
    else if (s.headers next).used == 0
    then rest
    else some (stuck s)

-- A block that cannot grow: the call of memcpy has the old block as its destination.
unfoldable pub moved : ℕ → ℕ → Option (ℕ × Heaped) → Option (ℕ × Heaped)
moved pointer current_size none = none
moved pointer current_size (some (new_block, s)) =
    if new_block == 0
    then some (0, s)
    else let s' : Heaped = record s { bytes = memcpy s.bytes pointer new_block current_size } in
      some (new_block, heap_dealloc s' pointer)

-- `heap_realloc` of a block to a size that is not 0 and not above that of the block: the call is made
-- again, with the aligned size, where the block has grown, and an aligned size is not changed then.
unfoldable pub fitted : Heaped → ℕ → ℕ → ℕ × Heaped
fitted s pointer size =
    let header = sub32 pointer header_size in
    if size == (s.headers header).size
    then (pointer, s)
    else (pointer, object_header_try_split s header size)

unfoldable pub grown : ℕ → ℕ → ℕ → ℕ → ℕ → Option Growth → Option (ℕ × Heaped)
grown fuel pointer current_size size align none = none
grown fuel pointer current_size size align (some (stuck s)) =
    moved pointer current_size (heap_alloc fuel s size align)
grown fuel pointer current_size size align (some (enough s)) =
    some (fitted s pointer (alignment size align))

unfoldable pub heap_realloc : ℕ → Heaped → ℕ → ℕ → ℕ → Option (ℕ × Heaped)
heap_realloc fuel s pointer size align =
    let size' = alignment size align in
    let header = sub32 pointer header_size in
    let current_size = (s.headers header).size in
    if size == 0
    then some (0, heap_dealloc s pointer)
    else if leb size' current_size
    then some (fitted s pointer size')
    else grown fuel pointer current_size size' align (grow_from fuel s header size')

-- The globals `heap` and `heap_size` of user/stdlib.c.
pub record Program : Type 0 where
  pub heap : Heaped
  pub heap_size : ℕ

-- `malloc` from where `heap_alloc` has returned, with `n` rounds of its loop left.
unfoldable pub malloc_loop : ℕ → ℕ → ℕ → Option (ℕ × Heaped) → ℕ → Option (ℕ × Program)
malloc_loop fuel size heap_size none n = none
malloc_loop fuel size heap_size (some (ptr, s)) zero =
    if (size == 0) || not (ptr == 0)
    then some (ptr, record { heap = s; heap_size = heap_size })
    else none
malloc_loop fuel size heap_size (some (ptr, s)) (suc n) =
    let larger : Heaped = record s { mem = heap_expand s.mem heap_size } in
    let rest = malloc_loop fuel size (u32 (heap_size * 2)) (heap_alloc fuel larger size 4) n in
    if (size == 0) || not (ptr == 0)
    then some (ptr, record { heap = s; heap_size = heap_size })
    else rest

unfoldable pub malloc : ℕ → Program → ℕ → ℕ → Option (ℕ × Program)
malloc fuel p size rounds = malloc_loop fuel size p.heap_size (heap_alloc fuel p.heap size 4) rounds

unfoldable pub free : Program → ℕ → Program
free p ptr = record p { heap = heap_dealloc p.heap ptr }
