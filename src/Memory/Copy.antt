-- ===== src/Memory/Copy.antt =====
-- What the memory routines leave at every address.
use eedox.Base.{
  ℕ, zero, suc, ◌+◌, ◌-◌, ◌*◌, ◌/◌, ◌%◌, ◌≤◌, ◌<◌, ◌≡◌, ◌⊎◌, Bool, ◌&&◌, arith, ltb, leb,
  if◌then◌else◌,
}
use eedox.Base.Int.{ℤ, pos, negsuc, neg_part}
use eedox.Memory.{Mem, store, copy_up, copy_down, memcpy, fill, memset, memshift, swap_ends, strrev}

-- `x` lies in the `n` bytes from `a` on.
abbrev pub within : ℕ → ℕ → ℕ → Bool
within a n x = leb a x && ltb x (a + n)

-- The memory `m` with the `n` bytes from `src` on copied to `dest`, all at once.
abbrev pub moved : Mem → ℕ → ℕ → ℕ → Mem
moved m dest src n x = if within dest n x then m (src + (x - dest)) else m x

-- Copying upwards moves the block where it does not overtake the bytes that are still to be read.
pub copy_up_lem :
    (m : Mem) (dest src i n x : ℕ)
    → (dest ≤ src) ⊎ (src + n ≤ dest)
    → copy_up m dest src i n x ≡ (if within (dest + i) n x then m (src + (x - dest)) else m x)
unfolding copy_up store
copy_up_lem m dest src i zero x h = ground arith
copy_up_lem m dest src i (suc n) x h =
    ground
      (arith, copy_up_lem (store m (dest + i) (m (src + i))) dest src (i + 1) n x (omega arith))

copy_down_lem :
    (m : Mem) (dest src n x : ℕ) → src < dest → copy_down m dest src n x ≡ moved m dest src n x
unfolding copy_down store
copy_down_lem m dest src zero x h = ground arith
copy_down_lem m dest src (suc n) x h =
    ground (arith, copy_down_lem (store m (dest + n) (m (src + n))) dest src n x h)

-- `memcpy` moves the block as it was before the call, whether or not source and destination
-- overlap, and writes nowhere else.
pub memcpy-moved :
    (m : Mem) (dest src size x : ℕ) → memcpy m dest src size x ≡ moved m dest src size x
unfolding memcpy
memcpy-moved m dest src size x =
    ground (arith, copy_up_lem m dest src 0 size x, copy_down_lem m dest src size x)

fill_lem :
    (m : Mem) (dest val i n x : ℕ)
    → fill m dest val i n x ≡ (if within (dest + i) n x then val else m x)
unfolding fill store
fill_lem m dest val i zero x = ground arith
fill_lem m dest val i (suc n) x =
    ground (arith, fill_lem (store m (dest + i) val) dest val (i + 1) n x)

-- `memset` writes the low byte of the value to the block and nothing elsewhere.
pub memset_lem :
    (m : Mem) (dest val size x : ℕ)
    → memset m dest val size x ≡ (if within dest size x then val % 256 else m x)
unfolding memset
memset_lem m dest val size x = ground (arith, fill_lem m dest (val % 256) 0 size x)

-- The address `offset` bytes away.
abbrev pub offset_by : ℕ → ℤ → ℕ
offset_by a (pos k) = a + k
offset_by a (negsuc k) = a - suc k

-- `memshift` moves the block by `offset` bytes, as it was before the call, and writes nowhere else,
-- if the shifted block starts at an address of at least 0.
pub memshift-moved :
    (m : Mem) (dest : ℕ) (offset : ℤ) (size x : ℕ)
    → neg_part offset ≤ dest
    → memshift m dest offset size x ≡ moved m (offset_by dest offset) dest size x
unfolding memshift
memshift-moved m dest (pos zero) size x h = ground arith
memshift-moved m dest (pos (suc k)) size x h =
    ground (arith, copy_down_lem m (dest + suc k) dest size x)
memshift-moved m dest (negsuc k) size x h =
    ground (arith, copy_up_lem m (dest - suc k) dest 0 size x)

swap_ends_lem :
    (m : Mem) (ptr len i n x : ℕ)
    → i + n ≡ len / 2
    → swap_ends m ptr len i n x
      ≡ (if within (ptr + i) (len - 2 * i) x then m (ptr + (len - 1 - (x - ptr))) else m x)
unfolding swap_ends store
swap_ends_lem m ptr len i zero x h = ground arith
swap_ends_lem m ptr len i (suc n) x h = ground (
  arith,
  swap_ends_lem
      (store (store m (ptr + i) (m (ptr + (len - i - 1)))) (ptr + (len - i - 1)) (m (ptr + i))) ptr
      len (i + 1) n x,
)

-- `strrev` reverses the `len` bytes from `ptr` on and writes nowhere else.
pub strrev_lem :
    (m : Mem) (ptr len x : ℕ)
    → strrev m ptr len x ≡ (if within ptr len x then m (ptr + (len - 1 - (x - ptr))) else m x)
unfolding strrev
strrev_lem m ptr len x = ground (arith, swap_ends_lem m ptr len 0 (len / 2) x)
