-- ===== src/Fs/Directory.antt =====
-- The children of a directory in src/fs.c (inode_child, inode_child_set, inode_readdir) and what
-- inode_realloc does with the directory of the file that it moves. A buffer is a function from indexes
-- to bytes, and the table of Children.antt the list of its first bytes.
use eedox.Base.{
  ℕ, zero, suc, ◌+◌, Option, none, some, List, [], ◌∷◌, ◌++◌, ◌==◌, if◌then◌else◌, u32, sub32,
  length, get_elem?,
}
use eedox.Fs.Disk.{Sector, Store}
use eedox.Fs.Bounds.{Inode}
use eedox.Fs.Inode.{inode_update, inode_fetch, inode_read, inode_write, relink_root}
use eedox.Fs.Children.{
  ChildTable, childtable_add, childtable_remove, childtable_edit_index, childtable_edit_name,
  childtable_get,
}
use eedox.Pipe.{until_nul}

-- `child_operation`: CHOP_ADD, CHOP_REM, CHOP_RENAME, CHOP_RELOC, and any other `op`.
pub data ChildOperation : Type 0 where
  chop_add : List ℕ → ℕ → ChildOperation
  chop_rem : List ℕ → ChildOperation
  chop_rename : List ℕ → List ℕ → ChildOperation
  chop_reloc : List ℕ → ℕ → ChildOperation
  chop_other : List ℕ → ChildOperation

-- The bytes of a buffer up to an index, and a buffer with the bytes of a list.
unfoldable pub first_bytes : Sector → ℕ → List ℕ
first_bytes buffer zero = []
first_bytes buffer (suc n) = first_bytes buffer n ++ (buffer n ∷ [])

abbrev pub byte_or : ℕ → Option ℕ → ℕ
byte_or b none = b
byte_or b (some c) = c

unfoldable pub buffer_of : Sector → List ℕ → Sector
buffer_of junk bytes i = byte_or (junk i) (get_elem? bytes i)

-- What each operation does to the table, and to `child_count`.
unfoldable pub table_after : ChildOperation → ChildTable → ChildTable
table_after (chop_add name index) table = childtable_add table name index
table_after (chop_rem name) table = childtable_remove table name
table_after (chop_rename name1 name2) table = childtable_edit_name table name1 name2
table_after (chop_reloc name index) table = childtable_edit_index table name index
table_after (chop_other name) table = childtable_remove table name

unfoldable pub count_after : ChildOperation → ℕ → ℕ
count_after (chop_add name index) n = u32 (n + 1)
count_after (chop_rem name) n = sub32 n 1
count_after _ n = n

module _ (rest junk : Sector) where
  unfoldable pub read_table : Store → Inode → ChildTable
  read_table s node = record {
    bytes = first_bytes ((inode_read junk s node 0 junk node.size).1) node.size;
    sectors = node.alloc;
  }

  unfoldable pub inode_child : Store → Inode → List ℕ → Inode → Inode
  unfolding read_table
  inode_child s node name buffer =
      let child_index = childtable_get (read_table s node) name in
      if child_index == 0 then record buffer { isvalid = 0 } else inode_fetch s child_index

  module _ {P : Type 0} (relink : Store → Inode → P → Store × P) where
    unfoldable pub inode_child_set : Store → Inode → ChildOperation → P → Store × Inode × P
    unfolding read_table table_after count_after
    inode_child_set s node op parent =
        let table = table_after op (read_table s node) in
        let counted = record node { child_count = count_after op node.child_count } in
        let (s1, node1, parent1) =
          inode_write rest junk relink s counted 0 (buffer_of junk table.bytes) (length table.bytes)
            parent in
        (inode_update rest s1 node1, node1, parent1)

  -- What `inode_realloc` does with the parent of a node with the name. The parent of the parent is NULL
  -- in that call.
  unfoldable pub relink : List ℕ → Store → Inode → Option Inode → Store × Option Inode
  unfolding inode_child_set
  relink name s node none = ((relink_root junk s node tt).0, none)
  relink name s node (some parent) =
      let (s1, parent1, _) =
        inode_child_set (relink_root junk) s parent (chop_reloc name node.index) tt in
      (s1, some parent1)

  -- The offset of the next name, and the name.
  unfoldable pub inode_readdir : Store → Inode → ℕ → ℕ × List ℕ
  inode_readdir s node from =
      let count = sub32 node.size from in
      let dir = until_nul (first_bytes ((inode_read junk s node from junk count).1) count) in
      if from == node.size then (0, []) else (u32 (length dir + 5), dir)
