-- ===== src/Fs/Transfer.antt =====
-- Writing to and reading from a file of src/fs.c, moves to a larger place included.
use eedox.Base.{ℕ, ◌+◌, ◌-◌, ◌%◌, ◌≤◌, min, ◌≡◌, false, arith, ltb, ◌==◌, if◌then◌else◌}
use eedox.Fs.Disk.{Sector, Store}
use eedox.Fs.Bounds.{Inode, inode_calculate_operation_bounds}
use eedox.Fs.BoundsLaws.{Fits, bounds_lem, bounds_read}
use eedox.Fs.Inode.{copy_into, inode_read}
use eedox.Fs.Data.{read_sectors_lem, file_byte}

-- `inode_read` of at least one byte that starts in the file, or at its end, where no index is
-- above those of an uint32_t, returns the number of bytes asked for or left in the file, puts
-- these bytes of the file into the buffer, and leaves the rest of the buffer.
pub inode_read_lem :
    (junk : Sector) (s : Store) (node : Inode) (from : ℕ) (buffer : Sector) (count : ℕ)
    → Fits node from count
    → from ≤ node.size
    → let (n, buffer') = inode_read junk s node from buffer count in
      (n ≡ min count (node.size - from))
      × ((o : ℕ) → buffer' o ≡ (if ltb o n then file_byte s.disk node (from + o) else buffer o))
unfolding inode_read copy_into
inode_read_lem junk s node from buffer count f h =
    let op = inode_calculate_operation_bounds node from count in
    let l = bounds_lem node from count f in
    let r = bounds_read node from count f h in
    let t : (count == 0) ≡ false = ground (arith, f.some_bytes) in
    rw t (
      r.0,
      λ o. ground (
        arith,
        l.0,
        r.0,
        r.1,
        r.2,
        f.last,
        read_sectors_lem s.disk op.sec_from 0 junk op.sec_read (from % 512 + o),
      ),
    )
