-- ===== src/Fs/Data.antt =====
-- The transfers of src/fs.c: what they leave in each byte of each sector.
use eedox.Base.{
  ◌<◌, Bool, ℕ, zero, suc, ◌+◌, ◌-◌, ◌*◌, ◌/◌, ◌%◌, ◌^◌, ◌≤◌, ◌≡◌, ◌&&◌, arith, ltb, leb,
  if◌then◌else◌, u32,
}
use eedox.Fs.Disk.{Store, sector_size, Sector, Disk, ata_write}
use eedox.Fs.Bounds.{Inode}
use eedox.Fs.BoundsLaws.{Fits, bounds_lem, bounds_inside}
use eedox.Fs.Bounds.{inode_calculate_operation_bounds}
use eedox.Fs.Disk.{Store}
use eedox.Fs.Inode.{write_data, write_data, copy_into, read_sectors, write_sectors, move_sectors}

pub read_sectors_lem :
    (disk : Disk) (sec i : ℕ) (blocks : Sector) (n o : ℕ)
    → sec + i + n ≤ 2 ^ 32
    → read_sectors disk sec i blocks n o ≡ (
        if leb (i * 512) o && ltb o ((i + n) * 512)
        then disk (sec + o / 512) (o % 512)
        else blocks o)
unfolding read_sectors
read_sectors_lem disk sec i blocks zero o h = ground arith
read_sectors_lem disk sec i blocks (suc n) o h = ground (
  arith,
  read_sectors_lem disk sec (i + 1)
      (λ o.
        if leb (i * sector_size) o && ltb o (i * sector_size + sector_size)
        then disk (u32 (sec + i)) (o - i * sector_size)
        else blocks o)
      n o,
)

pub write_sectors_lem :
    (disk : Disk) (sec i : ℕ) (blocks : Sector) (n s o : ℕ)
    → sec + i + n ≤ 2 ^ 32
    → write_sectors disk sec i blocks n s o
      ≡ (if leb (sec + i) s && ltb s (sec + i + n) then blocks ((s - sec) * 512 + o) else disk s o)
unfolding write_sectors ata_write
write_sectors_lem disk sec i blocks zero s o h = ground arith
write_sectors_lem disk sec i blocks (suc n) s o h = ground (
  arith,
  write_sectors_lem (ata_write disk (u32 (sec + i)) (λ o. blocks (i * sector_size + o))) sec (i + 1)
      blocks n s o,
)

pub move_sectors_lem :
    (disk : Disk) (old new i n s : ℕ)
    → old + i + n ≤ new
    → new + 1 + i + n ≤ 2 ^ 32
    → move_sectors disk old new i n s
      ≡ (if leb (new + 1 + i) s && ltb s (new + 1 + i + n) then disk (old + (s - new)) else disk s)
unfolding move_sectors ata_write
move_sectors_lem disk old new i zero s h b = ground arith
move_sectors_lem disk old new i (suc n) s h b = ground (
  arith,
  move_sectors_lem (ata_write disk (u32 (new + 1 + i)) (disk (u32 (old + 1 + i)))) old new (i + 1) n
      s,
)

-- The byte `k` of the data of a file.
abbrev pub file_byte : Disk → Inode → ℕ → ℕ
file_byte disk node k = disk (node.index + 1 + k / 512) (k % 512)

-- The index in the file of the byte `o` of the sector `s`, and whether it is one of the bytes that
-- an operation writes.
abbrev pub position : Inode → ℕ → ℕ → ℕ
position node s o = (s - (node.index + 1)) * 512 + o

abbrev pub is_written : Inode → ℕ → ℕ → ℕ → ℕ → Bool
is_written node from count s o =
    leb (node.index + 1) s
    && (leb from (position node s o) && ltb (position node s o) (from + count))

-- The blocks in memory, at the byte `o` of the `d`-th sector of the range.
blocks_lem :
    (junk : Sector) (disk : Disk) (sec n from count : ℕ) (buffer : Sector) (d o : ℕ)
    → sec + n ≤ 2 ^ 32
    → o < 512
    → d < n
    → copy_into (read_sectors disk sec 0 junk n) (from % 512) buffer count (d * 512 + o) ≡ (
        if leb (from % 512) (d * 512 + o) && ltb (d * 512 + o) (from % 512 + count)
        then buffer (d * 512 + o - from % 512)
        else disk (sec + d) o)
unfolding copy_into
blocks_lem junk disk sec n from count buffer d o h b l =
    ground (arith, read_sectors_lem disk sec 0 junk n (d * 512 + o))

-- The transfer of `inode_write`, for an operation of at least one byte on a file whose sectors
-- hold it, where no sector and no byte has an index above those of an uint32_t: it puts the bytes
-- of the buffer at their places and changes no other byte of the disk.
pub write_data_lem :
    (junk : Sector) (s : Store) (node : Inode) (from : ℕ) (buffer : Sector) (count sec o : ℕ)
    → Fits node from count
    → (from + count - 1) / sector_size < node.alloc
    → o < 512
    → (write_data junk s (inode_calculate_operation_bounds node from count) from buffer count).disk
        sec o
      ≡ (if is_written node from count sec o
          then buffer (position node sec o - from)
          else s.disk sec o)
unfolding write_data
write_data_lem junk s node from buffer count sec o f r b =
    let op = inode_calculate_operation_bounds node from count in
    let l = bounds_lem node from count f in
    let i = bounds_inside node from count f r in
    rw i.1 (
      ground (
        arith,
        l.0,
        l.1,
        f.sectors,
        write_sectors_lem s.disk op.sec_from 0
            (copy_into (read_sectors s.disk op.sec_from 0 junk op.sec_count) (from % 512) buffer
              count)
            op.sec_count sec o,
        blocks_lem junk s.disk op.sec_from op.sec_count from count buffer (sec - op.sec_from) o,
      ))

-- The same for the byte `k` of the file.
pub write_data-byte :
    (junk : Sector) (s : Store) (node : Inode) (from : ℕ) (buffer : Sector) (count k : ℕ)
    → Fits node from count
    → (from + count - 1) / sector_size < node.alloc
    → file_byte
        (write_data junk s
          (inode_calculate_operation_bounds node from count)
          from
          buffer
          count).disk
        node
        k
      ≡ (if leb from k && ltb k (from + count) then buffer (k - from) else file_byte s.disk node k)
write_data-byte junk s node from buffer count k f r = ground (
  arith,
  write_data_lem junk s node from buffer count (node.index + 1 + k / 512) (k % 512) f r
      (omega arith),
)
