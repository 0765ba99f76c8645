-- ===== src/Fs/ChildSet.antt =====
-- `inode_child_set` of src/fs.c: what it writes of a directory is read back.
use eedox.Base.{
  ℕ, zero, suc, ◌+◌, ◌≤◌, ◌<◌, ◌≡◌, refl, ap, ap₂, ◌∙◌, Option, none, some, List, [], ◌∷◌, ◌++◌,
  arith, u32, length, get_elem?, length-append,
}
use eedox.Fs.Disk.{Sector, ata_write, Store}
use eedox.Fs.Bounds.{Inode}
use eedox.Fs.Inode.{inode_update, inode_write, inode_read}
use eedox.Fs.Room.{IsPlaced}
use eedox.Fs.Transfer.{inode_read_lem}
use eedox.Fs.Children.{ChildTable, childtable_add, word_bytes}
use eedox.Fs.Records.{Children, AreChildren, encode}
use eedox.Fs.ChildrenLaws.{children_lem}
use eedox.Fs.Directory.{
  first_bytes, buffer_of, byte_or, read_table, table_after, count_after, chop_add, inode_child_set,
  relink,
}
use eedox.Fs.Relink.{length-first_bytes, HasPlacedParent}
use eedox.Fs.Write.{inode_write_lem}

first_bytes-cons :
    (f : Sector) (n : ℕ) → first_bytes f (suc n) ≡ f 0 ∷ first_bytes (λ k. f (suc k)) n
unfolding first_bytes
first_bytes-cons f zero = refl
first_bytes-cons f (suc n) = ap (λ l. l ++ (f (suc n) ∷ [])) (first_bytes-cons f n)

first_bytes-list :
    (f : Sector) (bytes : List ℕ)
    → ((k : ℕ) → k < length bytes → f k ≡ byte_or 0 (get_elem? bytes k))
    → first_bytes f (length bytes) ≡ bytes
unfolding first_bytes
first_bytes-list f [] h = refl
first_bytes-list f (b ∷ bytes) h =
    first_bytes-cons f (length bytes)
    ∙ ap₂ (λ x l. x ∷ l) (h 0 (omega arith))
        (first_bytes-list (λ k. f (suc k)) bytes (λ k l. h (suc k) (omega arith)))

in_list :
    (bytes : List ℕ) (junk k : ℕ)
    → k < length bytes
    → byte_or junk (get_elem? bytes k) ≡ byte_or 0 (get_elem? bytes k)
in_list [] junk k h = absurd (omega arith)
in_list (b ∷ bytes) junk zero h = refl
in_list (b ∷ bytes) junk (suc k) h = in_list bytes junk k (omega arith)

-- The conditions on the places, where only the number of children and the form of the count change.
IsPlaced-counted :
    (s : Store) (node : Inode) (children count count' : ℕ)
    → count' ≡ count
    → IsPlaced s node 0 count
    → IsPlaced s (record node { child_count = children }) 0 count'
IsPlaced-counted s node children count count' e p = record {
  behind = p.behind;
  before = p.before;
  room = omega (arith, p.room);
  within = p.within;
  some_bytes = omega (arith, p.some_bytes);
}

HasPlacedParent-counted :
    (s : Store) (node : Inode) (children count count' : ℕ) (parent : Option Inode)
    → count' ≡ count
    → HasPlacedParent s node 0 count parent
    → HasPlacedParent s (record node { child_count = children }) 0 count' parent
HasPlacedParent-counted s node children count count' none e h = tt
HasPlacedParent-counted s node children count count' (some parent) e h = record {
  behind = h.behind;
  before = h.before;
  within = h.within;
  room = omega (arith, h.room);
}

childtable_add-length :
    (table : ChildTable) (child : List ℕ) (index : ℕ)
    → length (childtable_add table child index).bytes ≡ length table.bytes + length child + 5
unfolding childtable_add
childtable_add-length table child index = omega (
  arith,
  length-append table.bytes (child ++ (0 ∷ word_bytes index)),
  length-append child (0 ∷ word_bytes index),
)

module _ (rest junk : Sector) (name : List ℕ) where
  read_table-length :
      (s : Store) (node : Inode) → length (read_table rest junk s node).bytes ≡ node.size
  unfolding read_table
  read_table-length s node = length-first_bytes _ node.size

  -- A table that is written is read back.
  written_table :
      (s : Store) (node : Inode) (bytes : List ℕ) (parent : Option Inode)
      → IsPlaced s node 0 (length bytes)
      → HasPlacedParent s node 0 (length bytes) parent
      → node.size ≤ length bytes
      → let (s', node', _) =
          inode_write rest junk
            (relink rest junk name)
            s
            node
            0
            (buffer_of junk bytes)
            (length bytes)
            parent in
        (read_table rest junk (inode_update rest s' node') node').bytes ≡ bytes
  unfolding read_table inode_update ata_write buffer_of
  written_table s node bytes parent p h le =
      let w =
        inode_write_lem rest junk name s node 0 (buffer_of junk bytes) (length bytes) parent p h in
      let (s', node', _) =
        inode_write rest junk (relink rest junk name) s node 0 (buffer_of junk bytes) (length bytes)
          parent in
      let size : node'.size ≡ length bytes = omega (arith, w.size) in
      let s2 = inode_update rest s' node' in
      let r = inode_read_lem junk s2 node' 0 junk (length bytes) w.fits (omega arith) in
      ap (λ n. first_bytes ((inode_read junk s2 node' 0 junk n).1) n) size
      ∙ first_bytes-list _ bytes
          (λ k l. ground (arith, r.0, r.1 k, size, w.written k, in_list bytes (junk k) k l))

  -- CHOP_ADD to a directory whose table has the children `cs`, where the directory stands behind the
  -- reserved sectors and before the first free one, with room on the disk, as its own parent does if it
  -- has one: the table that is then read from the disk has these children and the new one, also when
  -- the directory has moved to a larger place.
  pub inode_child_set-add :
      (s : Store) (node : Inode) (cs : Children) (child : List ℕ) (index : ℕ)
      (parent : Option Inode)
      → AreChildren cs
      → (read_table rest junk s node).bytes ≡ encode cs
      → IsPlaced s node 0 (node.size + length child + 5)
      → HasPlacedParent s node 0 (node.size + length child + 5) parent
      → let (s', node', _) =
          inode_child_set rest junk (relink rest junk name) s node (chop_add child index) parent in
        (read_table rest junk s' node').bytes ≡ encode (cs ++ ((child, index) ∷ []))
  unfolding inode_child_set table_after count_after
  inode_child_set-add s node cs child index parent a e p h =
      let t = read_table rest junk s node in
      let bytes = (childtable_add t child index).bytes in
      let content : bytes ≡ encode (cs ++ ((child, index) ∷ [])) =
        ap (λ b. (childtable_add (record t { bytes = b }) child index).bytes) e
        ∙ (children_lem cs t.sectors child index a).1 in
      let size : length t.bytes ≡ node.size = read_table-length s node in
      let long : length bytes ≡ node.size + length child + 5 =
        omega (arith, childtable_add-length t child index, size) in
      let n = u32 (node.child_count + 1) in
      written_table s (record node { child_count = n }) bytes parent
        (IsPlaced-counted s node n _ _ long p) (HasPlacedParent-counted s node n _ _ parent long h)
        (omega (arith, long))
      ∙ content
