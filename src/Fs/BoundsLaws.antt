-- ===== src/Fs/BoundsLaws.antt =====
-- The bounds of an operation, where nothing wraps.
use eedox.Base.{ℕ, ◌+◌, ◌-◌, ◌*◌, ◌/◌, ◌%◌, ◌^◌, ◌≤◌, ◌<◌, min, max, ◌≡◌, arith}
use eedox.Fs.Disk.{sector_size}
use eedox.Fs.Bounds.{Inode, inode_calculate_operation_bounds}

-- The sectors of the file, and the range of the operation, fit an uint32_t.
pub record Fits (node : Inode) (from count : ℕ) : Type 0 where
  pub some_bytes : 0 < count
  pub bytes : from + count < 2 ^ 32
  pub sectors : node.index + 2 + from + count < 2 ^ 32
  pub last : node.index + 1 + node.alloc < 2 ^ 32
  pub within : node.size ≤ node.alloc * sector_size

-- An operation of at least one byte, where no sector and no byte has an index above those of an
-- uint32_t, touches exactly the sectors that hold its bytes: the first has the byte `from`, the
-- last the byte before `from + count`; `sec_overflow` is by how many sectors the file is too short
-- for them, and `bytes_overflow` by how many bytes.
pub bounds_lem :
    (node : Inode) (from count : ℕ)
    → Fits node from count
    → let op = inode_calculate_operation_bounds node from count in
      (op.sec_from ≡ node.index + 1 + from / sector_size)
      × (op.sec_from + op.sec_count ≡ node.index + 2 + (from + count - 1) / sector_size)
      × (node.alloc + op.sec_overflow ≡ max node.alloc (1 + (from + count - 1) / sector_size))
      × (node.size + op.bytes_overflow ≡ max node.size (from + count))
unfolding inode_calculate_operation_bounds
bounds_lem node from count f = (ground arith, ground arith, ground arith, ground arith)

-- Under the same bounds, what an operation that starts in the file, or at its end, reads: no byte
-- behind the end of the file, in sectors of the file, which hold these bytes.
pub bounds_read :
    (node : Inode) (from count : ℕ)
    → Fits node from count
    → from ≤ node.size
    → let op = inode_calculate_operation_bounds node from count in
      (op.bytes_read ≡ min count (node.size - from))
      × (op.sec_from + op.sec_read ≤ node.index + 1 + node.alloc)
      × (from % sector_size + op.bytes_read ≤ op.sec_read * sector_size)
unfolding inode_calculate_operation_bounds
bounds_read node from count f h = (ground arith, ground arith, ground arith)

-- Under the same bounds, an operation that starts behind the end of the file reads as many bytes
-- less than 2^32 as it starts behind the end: the length wraps.
pub bounds_past_end :
    (node : Inode) (from count : ℕ)
    → Fits node from count
    → node.size < from
    → (inode_calculate_operation_bounds node from count).bytes_read + (from - node.size) ≡ 2 ^ 32
unfolding inode_calculate_operation_bounds
bounds_past_end node from count f h = ground arith

-- Where the file has all sectors of the range, all of them are read.
pub bounds_inside :
    (node : Inode) (from count : ℕ)
    → Fits node from count
    → (from + count - 1) / sector_size < node.alloc
    → let op = inode_calculate_operation_bounds node from count in
      (op.sec_overflow ≡ 0) × (op.sec_read ≡ op.sec_count)
unfolding inode_calculate_operation_bounds
bounds_inside node from count f h = (ground arith, ground arith)
