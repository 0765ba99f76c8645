-- ===== src/Fs/Disk.antt =====
-- The disk of src/fs.c: the bytes of each sector, as `ata_read` and `ata_write` move them, the words
-- in a sector, and the allocator of sectors (balloc, bfree, brealloc, balloc_update, balloc_fetch,
-- binit). `junk` is what a buffer of `kmalloc` holds before it is written.
use eedox.Base.{ℕ, ◌+◌, ◌*◌, ◌/◌, ◌%◌, ◌^◌, ◌≤◌, ◌<◌, ◌≡◌, ◌⊎◌, arith, ◌==◌, if◌then◌else◌, u32}

abbrev pub sector_size : ℕ
sector_size = 512

abbrev pub Sector : Type 0
Sector = ℕ → ℕ

abbrev pub Disk : Type 0
Disk = ℕ → Sector

-- `ata_write`
unfoldable pub ata_write : Disk → ℕ → Sector → Disk
ata_write disk sector buffer s = if s == sector then buffer else disk s

-- `*(uint32_t *)(buffer + at) = w`, the lowest byte first.
unfoldable pub put_word : Sector → ℕ → ℕ → Sector
put_word buffer at w o =
    if o == at
    then w % 256
    else if o == at + 1
    then w / 256 % 256
    else if o == at + 2
    then w / 65536 % 256
    else if o == at + 3
    then w / 16777216 % 256
    else buffer o

-- `*(uint32_t *)(buffer + at)`
unfoldable pub get_word : Sector → ℕ → ℕ
get_word buffer at =
    buffer at + buffer (at + 1) * 256 + buffer (at + 2) * 65536 + buffer (at + 3) * 16777216

word_bytes :
    (w : ℕ)
    → w < 2 ^ 32
    → w % 256 + w / 256 % 256 * 256 + w / 65536 % 256 * 65536 + w / 16777216 % 256 * 16777216 ≡ w
word_bytes w h = omega arith

pub get_word-put_word : (b : Sector) (at w : ℕ) → w < 2 ^ 32 → get_word (put_word b at w) at ≡ w
unfolding get_word put_word
get_word-put_word b at w h = ground (arith, word_bytes w h)

put_word_ne : (b : Sector) (at w o : ℕ) → (o < at) ⊎ (at + 3 < o) → put_word b at w o ≡ b o
unfolding put_word
put_word_ne b at w o h = ground arith

pub get_word-put_word_ne :
    (b : Sector) (at at' w : ℕ)
    → (at + 4 ≤ at') ⊎ (at' + 4 ≤ at)
    → get_word (put_word b at' w) at ≡ get_word b at
unfolding get_word
get_word-put_word_ne b at at' w h = rw (
  put_word_ne b at' w at (omega arith),
  put_word_ne b at' w (at + 1) (omega arith),
  put_word_ne b at' w (at + 2) (omega arith),
  put_word_ne b at' w (at + 3) (omega arith),
)

-- The sectors that the allocator knows.
abbrev pub balloc_sector : ℕ
balloc_sector = 0

abbrev pub root_index_sector : ℕ
root_index_sector = 1

abbrev pub fs_start_sector : ℕ
fs_start_sector = 2

-- The disk and the global `balloc_ptr`.
pub record Store : Type 0 where
  pub disk : Disk
  pub balloc_ptr : ℕ

module _ (junk : Sector) where
  unfoldable pub balloc_update : Store → Store
  balloc_update s = record s {
    disk = ata_write s.disk balloc_sector (put_word junk 0 s.balloc_ptr);
  }

  unfoldable pub balloc : Store → ℕ → ℕ × Store
  unfolding balloc_update
  balloc s size =
      (s.balloc_ptr, balloc_update (record s { balloc_ptr = u32 (s.balloc_ptr + size) }))

  -- `bfree` does nothing.
  unfoldable pub brealloc : Store → ℕ → ℕ → ℕ × Store
  unfolding balloc
  brealloc s address size = balloc s size

  unfoldable pub balloc_fetch : Store → Store
  balloc_fetch s = record s { balloc_ptr = get_word (s.disk balloc_sector) 0 }

  unfoldable pub binit : Store → Store
  unfolding balloc_fetch balloc_update
  binit s =
      let s' = balloc_fetch s in
      if s'.balloc_ptr == 0 then balloc_update (record s' { balloc_ptr = fs_start_sector }) else s'
