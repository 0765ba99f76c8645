-- ===== src/Fs/Relink.antt =====
-- What `inode_realloc` of src/fs.c does with the parent of the file that it moves leaves the file.
use eedox.Base.{
  ℕ, zero, suc, ◌+◌, ◌*◌, ◌^◌, ◌≤◌, ◌<◌, ◌≡◌, refl, Option, none, some, List, [], ◌∷◌, ◌++◌, arith,
  length, take, drop, length-append, length-take, length-drop,
}
use eedox.Fs.Disk.{sector_size, Sector, ata_write, Store}
use eedox.Fs.Bounds.{Inode}
use eedox.Fs.Inode.{inode_update, relocate, relink_root, inode_write, inode_read}
use eedox.Fs.Room.{IsPlaced, Spares, relink_root-Spares, sectors_after, moved-HasRoom}
use eedox.Fs.Parent.{inode_write-Leaves, moved_lem}
use eedox.Fs.Children.{word_bytes, ChildTable, childtable_find, edit_record, childtable_edit_index}
use eedox.Fs.Directory.{
  first_bytes, buffer_of, read_table, table_after, count_after, chop_reloc, inode_child_set, relink,
}

pub length-first_bytes : (buffer : Sector) (n : ℕ) → length (first_bytes buffer n) ≡ n
unfolding first_bytes
length-first_bytes buffer zero = refl
length-first_bytes buffer (suc n) =
    omega (arith, length-append (first_bytes buffer n) (buffer n ∷ []), length-first_bytes buffer n)

edit_record-length :
    (table : ChildTable) (name : List ℕ) (index : ℕ) (found : Option ℕ)
    → length (edit_record table name index found).bytes ≤ length table.bytes + 4
edit_record-length table name index none = omega arith
edit_record-length table name index (some rec) = omega (
  arith,
  length-append (take (rec + (length name + 1)) table.bytes)
      (word_bytes index ++ drop (rec + (length name + 5)) table.bytes),
  length-take (rec + (length name + 1)) table.bytes,
  length-drop (rec + (length name + 5)) table.bytes,
)

-- The directory `parent` stands behind the two reserved sectors and before the first free one, and
-- the disk has room for the file and the directory at new places.
pub record IsPlacedParent (s : Store) (node : Inode) (from count : ℕ) (parent : Inode)
    : Type 0 where
  pub behind : 2 ≤ parent.index
  pub before : parent.index + 1 + parent.alloc ≤ s.balloc_ptr
  pub within : parent.size ≤ parent.alloc * sector_size
  pub room : s.balloc_ptr + node.alloc + from + count + parent.alloc + parent.size + 8 < 2 ^ 32

-- The same for a file that may have no parent, as the root has none.
abbrev pub HasPlacedParent : Store → Inode → ℕ → ℕ → Option Inode → Type 0
HasPlacedParent s node from count none = Unit
HasPlacedParent s node from count (some parent) = IsPlacedParent s node from count parent

module _ (rest junk : Sector) where
  -- What the change of a child's index in a directory writes.
  record Relinked (s : Store) (parent : Inode) (s' : Store) : Type 0 where
    disk :
        (sec : ℕ)
        → 2 ≤ sec
        → parent.index + parent.alloc < sec
        → sec < s.balloc_ptr
        → s'.disk sec ≡ s.disk sec
    pointer : s.balloc_ptr ≤ s'.balloc_ptr

  write-Relinked :
      (s : Store) (parent : Inode) (buffer : Sector) (count : ℕ)
      → (0 < count → IsPlaced s parent 0 count)
      → 2 ≤ parent.index
      → parent.index + 1 + parent.alloc ≤ s.balloc_ptr
      → let (s', parent', _) =
          inode_write rest junk (relink_root junk) s parent 0 buffer count tt in
        Relinked s parent (inode_update rest s' parent')
  unfolding inode_write inode_update ata_write
  write-Relinked s parent buffer zero placed b c = record {
    disk = λ sec x y z. ground arith;
    pointer = omega arith;
  }
  write-Relinked s parent buffer (suc n) placed b c =
      let l = inode_write-Leaves rest junk s parent 0 (suc n) (placed (omega arith)) buffer in
      record { disk = λ sec x y z. ground (arith, l.place, l.disk sec); pointer = l.pointer }

  reloc-Relinked :
      (s : Store) (parent : Inode) (name : List ℕ) (index : ℕ)
      → ((n : ℕ) → 0 < n → n ≤ parent.size + 4 → IsPlaced s parent 0 n)
      → 2 ≤ parent.index
      → parent.index + 1 + parent.alloc ≤ s.balloc_ptr
      → Relinked s parent
          (inode_child_set rest junk (relink_root junk) s parent (chop_reloc name index) tt).0
  unfolding inode_child_set childtable_edit_index read_table table_after count_after
  reloc-Relinked s parent name index placed b c =
      let table = read_table rest junk s parent in
      let n = length-first_bytes ((inode_read junk s parent 0 junk parent.size).1) parent.size in
      let m = edit_record-length table name index (childtable_find table name) in
      write-Relinked s parent (buffer_of junk (childtable_edit_index table name index).bytes)
        (length (childtable_edit_index table name index).bytes)
        (λ h.
          placed (length (childtable_edit_index table name index).bytes) h (omega (arith, n, m)))
        b c

  -- What the code does with the parent of a file that moves leaves the file.
  pub relink-Spares :
      (name : List ℕ) (s : Store) (node : Inode) (from count : ℕ) (parent : Option Inode)
      → IsPlaced s node from count
      → HasPlacedParent s node from count parent
      → let (s', node') = relocate rest junk s node (sectors_after node from count) in
        Spares (relink rest junk name) s' node' parent
  unfolding relink
  relink-Spares name s node from count none p h =
      let r = relink_root-Spares junk _ _ (moved-HasRoom rest junk s node from count p).behind in
      record { sectors = r.sectors; pointer = r.pointer }
  relink-Spares name s node from count (some parent) p h =
      let l = moved_lem rest junk s node from count p in
      let (s', node') = relocate rest junk s node (sectors_after node from count) in
      let r =
        reloc-Relinked s' parent name node'.index
          (λ n a b. record {
            behind = h.behind;
            before = omega (arith, h.before, l.2);
            room = omega (arith, h.room, l.2, l.1, b, p.some_bytes);
            within = h.within;
            some_bytes = a;
          })
          h.behind (omega (arith, h.before, l.2)) in
      record {
        sectors = λ sec a b.
            r.disk sec (omega (arith, a, l.0, h.before)) (omega (arith, a, l.0, h.before))
              (omega (arith, b, l.0, l.2));
        pointer = r.pointer;
      }
