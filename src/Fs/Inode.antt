-- ===== src/Fs/Inode.antt =====
-- The inode on the disk and the data of a file in src/fs.c (inode_update, inode_fetch, inode_truncate,
-- inode_realloc, inode_write, inode_read). `rest` is what stands behind the fields in the memory of an
-- inode, `junk` what a fresh buffer holds. What `inode_realloc` does with the parent is the argument
-- `relink`: it changes the store and the parent, a value of any type.
use eedox.Base.{
  ℕ, zero, suc, ◌+◌, ◌-◌, ◌*◌, ◌%◌, Bool, true, false, ◌&&◌, ltb, leb, ◌==◌, if◌then◌else◌, u32,
}
use eedox.Fs.Disk.{
  sector_size, Sector, Disk, ata_write, put_word, get_word, Store, brealloc, root_index_sector,
}
use eedox.Fs.Bounds.{Inode, OperationBounds, inode_calculate_operation_bounds}

abbrev pub type_word : Bool → ℕ
type_word true = 1
type_word false = 0

-- The bytes of an `inode_t`: six words, then what is not read back.
unfoldable pub inode_bytes : Sector → Inode → Sector
inode_bytes rest node =
    put_word
      (put_word
        (put_word (put_word (put_word (put_word rest 0 node.isvalid) 4 node.index) 8 node.size) 12
          node.alloc)
        16 node.child_count)
      20 (type_word node.is_dir)

unfoldable pub inode_update : Sector → Store → Inode → Store
inode_update rest s node = record s { disk = ata_write s.disk node.index (inode_bytes rest node) }

-- `type` is 1 for a directory, and 0 for a file, which `inode_update` writes; the code tests it against
-- these two alone.
unfoldable pub inode_fetch : Store → ℕ → Inode
inode_fetch s index = record {
  isvalid = get_word (s.disk index) 0;
  index = get_word (s.disk index) 4;
  size = get_word (s.disk index) 8;
  alloc = get_word (s.disk index) 12;
  child_count = get_word (s.disk index) 16;
  is_dir = get_word (s.disk index) 20 == 1;
}

unfoldable pub inode_truncate : Sector → Store → Inode → Store × Inode
inode_truncate rest s node =
    let node' = record node { alloc = 0; size = 0 } in (inode_update rest s node', node')

-- The loop that reads the sectors from `sec` on into `blocks`, from index `i`, `n` rounds left.
unfoldable pub read_sectors : Disk → ℕ → ℕ → Sector → ℕ → Sector
read_sectors disk sec i blocks zero = blocks
read_sectors disk sec i blocks (suc n) =
    read_sectors disk sec (i + 1)
      (λ o.
        if leb (i * sector_size) o && ltb o (i * sector_size + sector_size)
        then disk (u32 (sec + i)) (o - i * sector_size)
        else blocks o)
      n

-- The loop that writes `blocks` to the sectors from `sec` on.
unfoldable pub write_sectors : Disk → ℕ → ℕ → Sector → ℕ → Disk
write_sectors disk sec i blocks zero = disk
write_sectors disk sec i blocks (suc n) =
    write_sectors (ata_write disk (u32 (sec + i)) (λ o. blocks (i * sector_size + o))) sec (i + 1)
      blocks n

-- `memcpy` of `n` bytes into another object, as Memory/Copy.antt proves it.
unfoldable pub copy_into : Sector → ℕ → Sector → ℕ → Sector
copy_into dest at src n o = if leb at o && ltb o (at + n) then src (o - at) else dest o

-- The number of bytes that are read, and the buffer with them.
unfoldable pub inode_read : Sector → Store → Inode → ℕ → Sector → ℕ → ℕ × Sector
inode_read junk s node from buffer count =
    let op = inode_calculate_operation_bounds node from count in
    let blocks = read_sectors s.disk op.sec_from 0 junk op.sec_read in
    if count == 0
    then (0, buffer)
    else (op.bytes_read, copy_into buffer 0 (λ o. blocks (from % 512 + o)) op.bytes_read)

-- The loop of `inode_realloc`: the data sectors of the old place go to the new one.
unfoldable pub move_sectors : Disk → ℕ → ℕ → ℕ → ℕ → Disk
move_sectors disk old new i zero = disk
move_sectors disk old new i (suc n) =
    move_sectors (ata_write disk (u32 (new + 1 + i)) (disk (u32 (old + 1 + i)))) old new (i + 1) n

-- `inode_realloc` up to `inode_update`.
unfoldable pub relocate : Sector → Sector → Store → Inode → ℕ → Store × Inode
relocate rest junk s node sectors =
    let (new_index, s1) = brealloc junk s node.index (u32 (sectors + 1)) in
    let s2 = record s1 { disk = move_sectors s1.disk node.index new_index 0 node.alloc } in
    let node' = record node { index = new_index; alloc = sectors } in
    (inode_update rest s2 node', node')

-- `inode_realloc` where the parent is NULL: the root's new place is written down.
unfoldable pub relink_root : Sector → Store → Inode → Unit {0} → Store × Unit {0}
relink_root junk s node _ =
    (record s { disk = ata_write s.disk root_index_sector (put_word junk 0 node.index) }, tt)

-- The new size.
unfoldable pub make_longer : Sector → Store → Inode → OperationBounds → Store × Inode
make_longer rest s node op =
    let node' = record node { size = u32 (node.size + op.bytes_overflow) } in
    if op.bytes_overflow == 0 then (s, node) else (inode_update rest s node', node')

-- The transfer of the data.
unfoldable pub write_data : Sector → Store → OperationBounds → ℕ → Sector → ℕ → Store
write_data junk s op from buffer count =
    let blocks = read_sectors s.disk op.sec_from 0 junk op.sec_read in
    record s {
      disk =
          write_sectors s.disk op.sec_from 0 (copy_into blocks (from % 512) buffer count)
            op.sec_count;
    }

module _ (rest junk : Sector) {P : Type 0} (relink : Store → Inode → P → Store × P) where
  unfoldable pub inode_realloc : Store → Inode → ℕ → P → Store × Inode × P
  inode_realloc s node sectors parent =
      let r = relocate rest junk s node sectors in let q = relink r.0 r.1 parent in (q.0, r.1, q.1)

  -- The part of `inode_write` up to the second calculation of the bounds.
  unfoldable pub make_room : Store → Inode → ℕ → ℕ → P → Store × Inode × P
  make_room s node from count parent =
      let op = inode_calculate_operation_bounds node from count in
      if op.sec_overflow == 0
      then (s, node, parent)
      else inode_realloc s node (u32 (op.sec_overflow + node.alloc)) parent

  unfoldable pub inode_write : Store → Inode → ℕ → Sector → ℕ → P → Store × Inode × P
  inode_write s node from buffer count parent =
      let (s1, node1, parent1) = make_room s node from count parent in
      let op = inode_calculate_operation_bounds node1 from count in
      let (s2, node2) = make_longer rest s1 node1 op in
      if count == 0
      then (s, node, parent)
      else (write_data junk s2 op from buffer count, node2, parent1)
