-- ===== src/Tests/OnFs.antt =====
-- Runs of the file system of src/fs.c.
use eedox.Base.{
  refl, ◌==◌, some, [], ◌∷◌, true, ℕ, ◌+◌, ◌*◌, ◌%◌, ◌<◌, ◌≡◌, ◌≢◌, false, arith, ltb,
  if◌then◌else◌,
}
use eedox.Fs.Disk.{Sector, Store}
use eedox.Fs.Bounds.{Inode, inode_calculate_operation_bounds}
use eedox.Fs.BoundsLaws.{Fits, bounds_lem}
use eedox.Fs.Inode.{inode_update, inode_fetch, inode_read, inode_write, read_sectors, copy_into}
use eedox.Fs.Data.{file_byte}
use eedox.Fs.Room.{IsPlaced}
use eedox.Fs.Directory.{relink, inode_child_set, chop_add, read_table, first_bytes}
use eedox.Fs.ChildSet.{inode_child_set-add}
use eedox.Fs.Records.{encode, AreChildren}
use eedox.Fs.Relink.{HasPlacedParent}
use eedox.Fs.Write.{Wrote, inode_write_lem, read-write}
use eedox.Fs.Transfer.{inode_read_lem}
use eedox.Fs.Persist.{IsWord32, fetch-update}

abbrev no_bytes : Sector
no_bytes o = 0

-- The byte that a sector has at a place.
abbrev store : Store
store = record { disk = λ sec o. (sec * 7 + o) % 256; balloc_ptr = 6 }

-- A file of 700 bytes in the sectors 3 and 4, with its inode in sector 2, and place for no more.
abbrev file : Inode
file = record { isvalid = 1; index = 2; size = 700; alloc = 2; child_count = 0; is_dir = false }

abbrev buffer : Sector
buffer o = o % 256

file-Fits : Fits file 600 1000
file-Fits = record {
  some_bytes = omega arith;
  bytes = omega arith;
  sectors = omega arith;
  last = omega arith;
  within = omega arith;
}

-- The directory of the file, in the sectors 16 and 17 of a larger disk. Its table has the entry of
-- the child `f`, with the index 2.
abbrev placed : Store
placed = record {
  disk = λ sec o.
      if sec == 17 then (if o == 0 then 102 else if o == 2 then 2 else 0) else (sec * 7 + o) % 256;
  balloc_ptr = 18;
}

abbrev directory : Inode
directory = record { isvalid = 1; index = 16; size = 6; alloc = 1; child_count = 1; is_dir = true }

placed-IsPlaced : IsPlaced placed file 600 1000
placed-IsPlaced = record {
  behind = omega arith;
  before = omega arith;
  room = omega arith;
  within = omega arith;
  some_bytes = omega arith;
}

directory-HasPlacedParent : HasPlacedParent placed file 600 1000 (some directory)
directory-HasPlacedParent = record {
  behind = omega arith;
  before = omega arith;
  within = omega arith;
  room = omega arith;
}

-- The write of bytes 600 to 1599 needs four sectors, so the file moves and its directory is changed.
inode_write_lem_example :
    let (s', node', _) =
      inode_write no_bytes no_bytes
        (relink no_bytes no_bytes (102 ∷ []))
        placed
        file
        600
        buffer
        1000
        (some directory) in
    Wrote file 600 buffer 1000 placed.disk s'.disk node'
inode_write_lem_example =
    inode_write_lem no_bytes no_bytes (102 ∷ []) placed file 600 buffer 1000 (some directory)
      placed-IsPlaced directory-HasPlacedParent

read-write_example :
    let (s', node', _) =
      inode_write no_bytes no_bytes
        (relink no_bytes no_bytes (102 ∷ []))
        placed
        file
        600
        buffer
        1000
        (some directory) in
    let (n, got) = inode_read no_bytes s' node' 600 no_bytes 1000 in
    (n ≡ 1000) × ((o : ℕ) → o < 1000 → got o ≡ buffer o)
read-write_example =
    read-write no_bytes no_bytes (102 ∷ []) placed file 600 buffer no_bytes 1000 (some directory)
      placed-IsPlaced directory-HasPlacedParent (omega arith)

inode_read_lem_example :
    let (n, buffer') = inode_read no_bytes store file 600 no_bytes 1000 in
    (n ≡ 100) × ((o : ℕ) → buffer' o ≡ (if ltb o n then file_byte store.disk file (600 + o) else 0))
inode_read_lem_example =
    inode_read_lem no_bytes store file 600 no_bytes 1000 file-Fits (omega arith)

bounds_lem_example :
    let op = inode_calculate_operation_bounds file 600 1000 in
    (op.sec_from ≡ 4)
    × (op.sec_from + op.sec_count ≡ 7)
    × (2 + op.sec_overflow ≡ 4)
    × (700 + op.bytes_overflow ≡ 1600)
bounds_lem_example = bounds_lem file 600 1000 file-Fits

-- The same file when it has only 500 bytes.
abbrev short_file : Inode
short_file = record file { size = 500 }

short_file-Fits : Fits short_file 600 1000
short_file-Fits = record {
  some_bytes = omega arith;
  bytes = omega arith;
  sectors = omega arith;
  last = omega arith;
  within = omega arith;
}

-- A write in the sectors that the file has.
file-Fits_inside : Fits file 600 300
file-Fits_inside = record {
  some_bytes = omega arith;
  bytes = omega arith;
  sectors = omega arith;
  last = omega arith;
  within = omega arith;
}

file-IsWord32 : IsWord32 file
file-IsWord32 = record {
  isvalid = omega arith;
  index = omega arith;
  size = omega arith;
  alloc = omega arith;
  child_count = omega arith;
}

fetch-update_example :
    (inode_fetch (inode_update buffer store file) 2 ≡ file)
    × ((sec : ℕ) → sec ≢ 2 → (inode_update buffer store file).disk sec ≡ store.disk sec)
fetch-update_example = fetch-update buffer store file file-IsWord32

-- The directory has the child `f`, and the directory above it stands in the sectors 6 and 7.
abbrev above : Inode
above = record directory { index = 6 }

directory-AreChildren : AreChildren ((102 ∷ [], 2) ∷ [])
directory-AreChildren = ((omega arith, omega arith, _), omega arith, _)

directory-Children :
    (read_table no_bytes no_bytes placed directory).bytes ≡ encode ((102 ∷ [], 2) ∷ [])
unfolding read_table first_bytes inode_read inode_calculate_operation_bounds read_sectors copy_into
    encode
directory-Children = refl

directory-IsPlaced : IsPlaced placed directory 0 12
directory-IsPlaced = record {
  behind = omega arith;
  before = omega arith;
  room = omega arith;
  within = omega arith;
  some_bytes = omega arith;
}

above-HasPlacedParent : HasPlacedParent placed directory 0 12 (some above)
above-HasPlacedParent = record {
  behind = omega arith;
  before = omega arith;
  within = omega arith;
  room = omega arith;
}

-- The child `g`, with the index 9.
inode_child_set-add_example :
    let (s', node', _) =
      inode_child_set no_bytes no_bytes
        (relink no_bytes no_bytes (100 ∷ []))
        placed
        directory
        (chop_add (103 ∷ []) 9)
        (some above) in
    (read_table no_bytes no_bytes s' node').bytes ≡ encode ((102 ∷ [], 2) ∷ (103 ∷ [], 9) ∷ [])
unfolding encode
inode_child_set-add_example =
    inode_child_set-add no_bytes no_bytes (100 ∷ []) placed directory ((102 ∷ [], 2) ∷ [])
      (103 ∷ []) 9 (some above) directory-AreChildren directory-Children directory-IsPlaced
      above-HasPlacedParent
