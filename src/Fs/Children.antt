-- ===== src/Fs/Children.antt =====
-- The table of the children of a directory in src/fs.c (childtable_find, childtable_add,
-- childtable_remove, childtable_edit_index, childtable_edit_name, childtable_get). The table is the
-- list of its `size` bytes: for each child its name, a NUL, and the four bytes of its index.
use eedox.Base.{
  ℕ, zero, suc, ◌+◌, ◌-◌, ◌*◌, ◌/◌, ◌%◌, Option, none, some, List, [], ◌∷◌, ◌++◌, ltb, leb, ◌==◌,
  if◌then◌else◌, u32, sub32, length, take, drop,
}
use eedox.Pipe.{until_nul}
use eedox.Mq.{same_text}
use eedox.Fs.Disk.{sector_size}

pub record ChildTable : Type 0 where
  pub bytes : List ℕ
  pub sectors : ℕ

-- The bytes of an uint32_t, the lowest first, and back.
abbrev pub word_bytes : ℕ → List ℕ
word_bytes w = (w % 256) ∷ (w / 256 % 256) ∷ (w / 65536 % 256) ∷ (w / 16777216 % 256) ∷ []

abbrev pub word_of : List ℕ → ℕ
word_of (a ∷ b ∷ c ∷ d ∷ _) = a + b * 256 + c * 65536 + d * 16777216
word_of _ = 0

abbrev pub shifted : ℕ → Option ℕ → Option ℕ
shifted n none = none
shifted n (some k) = some (n + k)

-- The loop of `childtable_find`: the offset of the record, in what is left of the table. The number
-- of bytes is fuel enough, since each record has at least five.
unfoldable pub find_record : ℕ → List ℕ → List ℕ → Option ℕ
find_record zero bytes name = none
find_record (suc fuel) bytes name =
    let len = length (until_nul bytes) + 5 in
    let rest = shifted len (find_record fuel (drop len bytes) name) in
    if length bytes == 0 then none else if same_text (until_nul bytes) name then some 0 else rest

unfoldable pub childtable_find : ChildTable → List ℕ → Option ℕ
childtable_find table name = find_record (length table.bytes) table.bytes name

-- The table grows by one sector at most: a name has at most 256 characters, at more of which
-- `inode_create` panics, and a table is in memory, so that its size is below 2^32.
unfoldable pub childtable_add : ChildTable → List ℕ → ℕ → ChildTable
childtable_add table name index =
    let new_size = length table.bytes + 4 + length name + 1 in
    record {
      bytes = table.bytes ++ (name ++ (0 ∷ word_bytes index));
      sectors =
          if ltb (table.sectors * sector_size) new_size then table.sectors + 1 else table.sectors;
    }

abbrev pub remove_record : ChildTable → List ℕ → Option ℕ → ChildTable
remove_record table name none = table
remove_record table name (some rec) =
    let new_size = length table.bytes - length name - 1 - 4 in
    record {
      bytes = take rec table.bytes ++ drop (rec + (length name + 5)) table.bytes;
      sectors =
          if leb new_size (u32 (sub32 table.sectors 1 * sector_size))
          then sub32 table.sectors 1
          else table.sectors;
    }

unfoldable pub childtable_remove : ChildTable → List ℕ → ChildTable
unfolding childtable_find
childtable_remove table name = remove_record table name (childtable_find table name)

abbrev pub edit_record : ChildTable → List ℕ → ℕ → Option ℕ → ChildTable
edit_record table name index none = table
edit_record table name index (some rec) = record table {
  bytes =
      take (rec + (length name + 1)) table.bytes
      ++ (word_bytes index ++ drop (rec + (length name + 5)) table.bytes);
}

unfoldable pub childtable_edit_index : ChildTable → List ℕ → ℕ → ChildTable
unfolding childtable_find
childtable_edit_index table name index = edit_record table name index (childtable_find table name)

abbrev pub get_record : ChildTable → List ℕ → Option ℕ → ℕ
get_record table name none = 0
get_record table name (some rec) = word_of (drop (rec + (length name + 1)) table.bytes)

unfoldable pub childtable_get : ChildTable → List ℕ → ℕ
unfolding childtable_find
childtable_get table name = get_record table name (childtable_find table name)

unfoldable pub childtable_edit_name : ChildTable → List ℕ → List ℕ → ChildTable
unfolding childtable_get childtable_remove childtable_add
childtable_edit_name table old new =
    let index = childtable_get table old in
    if index == 0 then table else childtable_add (childtable_remove table old) new index
