-- ===== src/Memory.antt =====
-- src/util.c: the memory routines (memcpy, memset, memshift, strrev) over the bytes of the address
-- space. `Mem` gives the byte at each address; an object does not run past the last address, so
-- that `dest + i` does not wrap.
pub mod Copy
pub mod Search
use eedox.Base.{
  ℕ, zero, suc, ◌+◌, ◌-◌, ◌/◌, ◌%◌, Bool, true, false, ◌&&◌, ltb, leb, ◌==◌, if◌then◌else◌,
}
use eedox.Base.Int.{ℤ, pos, negsuc}

abbrev pub Mem : Type 0
Mem = ℕ → ℕ

-- A byte written at an address.
unfoldable pub store : Mem → ℕ → ℕ → Mem
store m a v x = if x == a then v else m x

-- `memcpy` of `n` bytes from the start of one object to another, which does not overlap it.
abbrev pub copied : Mem → ℕ → Mem → ℕ → Mem
copied m dest src n x = if leb dest x && ltb x (dest + n) then src (x - dest) else m x

-- The loop that runs upwards, from index `i`, with `n` rounds left.
unfoldable pub copy_up : Mem → ℕ → ℕ → ℕ → ℕ → Mem
copy_up m dest src i zero = m
copy_up m dest src i (suc n) = copy_up (store m (dest + i) (m (src + i))) dest src (i + 1) n

-- The loop that runs downwards, from index `n - 1` to 0.
unfoldable pub copy_down : Mem → ℕ → ℕ → ℕ → Mem
copy_down m dest src zero = m
copy_down m dest src (suc n) = copy_down (store m (dest + n) (m (src + n))) dest src n

unfoldable pub memcpy : Mem → ℕ → ℕ → ℕ → Mem
memcpy m dest src size =
    if size == 0
    then m
    else if ltb dest src
    then copy_up m dest src 0 size
    else if ltb src dest
    then copy_down m dest src size
    else m

-- The loop of `memset`, from index `i`, with `n` rounds left.
unfoldable pub fill : Mem → ℕ → ℕ → ℕ → ℕ → Mem
fill m dest val i zero = m
fill m dest val i (suc n) = fill (store m (dest + i) val) dest val (i + 1) n

unfoldable pub memset : Mem → ℕ → ℕ → ℕ → Mem
memset m dest val size = fill m dest (val % 256) 0 size

-- `offset` is an int32_t. A positive one runs downwards, a negative one upwards.
unfoldable pub memshift : Mem → ℕ → ℤ → ℕ → Mem
memshift m dest (pos zero) size = m
memshift m dest (pos (suc k)) size = if size == 0 then m else copy_down m (dest + suc k) dest size
memshift m dest (negsuc k) size = if size == 0 then m else copy_up m (dest - suc k) dest 0 size

-- The loop of `strrev`, from index `i`, with `n` rounds left.
unfoldable pub swap_ends : Mem → ℕ → ℕ → ℕ → ℕ → Mem
swap_ends m ptr len i zero = m
swap_ends m ptr len i (suc n) =
    swap_ends
      (store (store m (ptr + i) (m (ptr + (len - i - 1)))) (ptr + (len - i - 1)) (m (ptr + i))) ptr
      len (i + 1) n

unfoldable pub strrev : Mem → ℕ → ℕ → Mem
strrev m ptr len = swap_ends m ptr len 0 (len / 2)
