-- ===== src/Fs/Bounds.antt =====
-- `inode_calculate_operation_bounds` of src/fs.c: which sectors and how many bytes an operation on a
-- file touches, in uint32_t arithmetic.
use eedox.Base.{ℕ, ◌+◌, ◌/◌, Bool, ltb, if◌then◌else◌, u32, sub32}
use eedox.Fs.Disk.{sector_size}

-- The part of `inode_t` that stands on the disk; `is_dir` is its type.
pub record Inode : Type 0 where
  pub isvalid : ℕ
  pub index : ℕ
  pub size : ℕ
  pub alloc : ℕ
  pub child_count : ℕ
  pub is_dir : Bool

-- `operation_bounds`
pub record OperationBounds : Type 0 where
  pub bytes_from : ℕ
  pub bytes_count : ℕ
  pub bytes_read : ℕ
  pub sec_from : ℕ
  pub sec_count : ℕ
  pub sec_overflow : ℕ
  pub sec_read : ℕ
  pub bytes_overflow : ℕ

-- The locals `bytes_to` and `sec_to`, and the first sector behind the data.
abbrev bytes_to_of : ℕ → ℕ → ℕ
bytes_to_of from count = u32 (from + count)

abbrev sec_to_of : Inode → ℕ → ℕ
sec_to_of node bytes_to = u32 (node.index + 1 + sub32 bytes_to 1 / sector_size + 1)

abbrev sec_from_of : Inode → ℕ → ℕ
sec_from_of node from = u32 (node.index + 1 + from / sector_size)

abbrev sec_end_of : Inode → ℕ
sec_end_of node = u32 (node.index + 1 + node.alloc)

unfoldable pub inode_calculate_operation_bounds : Inode → ℕ → ℕ → OperationBounds
inode_calculate_operation_bounds node from count =
    let bytes_to = bytes_to_of from count in
    let sec_from = sec_from_of node from in
    let sec_to = sec_to_of node bytes_to in
    let sec_end = sec_end_of node in
    let sec_count = sub32 sec_to sec_from in
    record {
      bytes_from = from;
      bytes_count = count;
      bytes_read = if ltb node.size bytes_to then sub32 node.size from else count;
      sec_from = sec_from;
      sec_count = sec_count;
      sec_overflow = if ltb sec_end sec_to then sub32 sec_to sec_end else 0;
      sec_read = if ltb sec_end sec_to then sub32 sec_end sec_from else sec_count;
      bytes_overflow = if ltb node.size bytes_to then sub32 bytes_to node.size else 0;
    }
