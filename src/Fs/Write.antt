-- ===== src/Fs/Write.antt =====
-- `inode_write` of src/fs.c as a whole, and a read after it.
use eedox.Base.{
  List, Option, ◌∙◌, ◌==◌, false, ap, ◌%◌, ◌/◌, ◌⊎◌, ℕ, ◌+◌, ◌-◌, ◌≤◌, ◌<◌, max, ◌≡◌, arith,
}
use eedox.Fs.Disk.{Sector, Disk, Store}
use eedox.Fs.Bounds.{Inode, inode_calculate_operation_bounds}
use eedox.Fs.BoundsLaws.{Fits}
use eedox.Fs.Inode.{make_room, inode_read, inode_write, make_longer, write_data}
use eedox.Fs.Data.{file_byte, write_data-byte}
use eedox.Fs.Transfer.{inode_read_lem}
use eedox.Fs.Room.{make_room-HasRoom, IsPlaced, HasRoom}
use eedox.Fs.Parent.{make_longer_lem, HasRoom-Fits}
use eedox.Fs.Directory.{relink}
use eedox.Fs.Relink.{relink-Spares, HasPlacedParent}

-- The file after a write.
pub record Wrote (node : Inode) (from : ℕ) (buffer : Sector) (count : ℕ) (old : Disk) (new : Disk)
    (node' : Inode) : Type 0 where
  pub size : node'.size ≡ max node.size (from + count)
  pub written : (k : ℕ) → from ≤ k → k < from + count → file_byte new node' k ≡ buffer (k - from)
  pub kept :
      (k : ℕ)
      → k < node.size
      → (k < from) ⊎ (from + count ≤ k)
      → file_byte new node' k ≡ file_byte old node k
  pub fits : Fits node' from count

-- From the file that has room to the file that is written.
write_lem :
    (rest junk : Sector) (s s1 : Store) (node node1 : Inode) (from : ℕ) (buffer : Sector)
    (count : ℕ)
    → IsPlaced s node from count
    → HasRoom s node from count s1 node1
    → let op = inode_calculate_operation_bounds node1 from count in
      let (s2, node2) = make_longer rest s1 node1 op in
      Wrote node from buffer count s.disk (write_data junk s2 op from buffer count).disk node2
write_lem rest junk s s1 node node1 from buffer count p r =
    let f = HasRoom-Fits s node from count s1 node1 p r in
    let op = inode_calculate_operation_bounds node1 from count in
    let m = make_longer_lem rest s1 node1 from count f in
    let s2 = (make_longer rest s1 node1 op).0 in
    let byte : (k : ℕ) → _ = λ k.
      ap (λ i. (write_data junk s2 op from buffer count).disk (i + 1 + k / 512) (k % 512)) m.1
      ∙ write_data-byte junk s2 node1 from buffer count k f r.room in
    record {
      size = omega (arith, m.0, r.size);
      written = λ k a b. byte k ∙ ground arith;
      kept = λ k a b.
          byte k
          ∙ (ground arith
              ∙ ap (λ (g : Sector). g (k % 512)) (m.3 (node1.index + 1 + k / 512) (omega arith))
              ∙ r.same k (omega (arith, p.within)));
      fits = record {
        some_bytes = p.some_bytes;
        bytes = f.bytes;
        sectors = omega (arith, f.sectors, m.1);
        last = omega (arith, f.last, m.1, m.2);
        within = omega (arith, r.room, m.0, m.2, f.within);
      };
    }

module _ (rest junk : Sector) (name : List ℕ) where
  -- `inode_write` of at least one byte, to a file with the name `name` that stands behind the reserved
  -- sectors and before the first free one, with room on the disk, where the same holds of its parent
  -- directory if it has one. Also when the file moves to a larger place, for which the code changes the
  -- parent on the disk, it then has the bytes of the buffer at their places and its old bytes
  -- everywhere else, its size is the larger one of the old size and the end of the write, and its
  -- sectors hold it.
  pub inode_write_lem :
      (s : Store) (node : Inode) (from : ℕ) (buffer : Sector) (count : ℕ) (parent : Option Inode)
      → IsPlaced s node from count
      → HasPlacedParent s node from count parent
      → let (s', node', _) =
          inode_write rest junk (relink rest junk name) s node from buffer count parent in
        Wrote node from buffer count s.disk s'.disk node'
  unfolding inode_write
  inode_write_lem s node from buffer count parent p h =
      let t : (count == 0) ≡ false = ground (arith, p.some_bytes) in
      let (s1, node1, parent1) =
        make_room rest junk (relink rest junk name) s node from count parent in
      rw t (
        write_lem rest junk s s1 node node1 from buffer count p (
          make_room-HasRoom rest junk (relink rest junk name) s node from count parent p
            (relink-Spares rest junk name s node from count parent p h)))

  -- `inode_read` after an `inode_write` of the same range, under the conditions of the write and
  -- from a place not behind the end of the file, returns `count` and the bytes written.
  pub read-write :
      (s : Store) (node : Inode) (from : ℕ) (buffer buffer' : Sector) (count : ℕ)
      (parent : Option Inode)
      → IsPlaced s node from count
      → HasPlacedParent s node from count parent
      → from ≤ node.size
      → let (s', node', _) =
          inode_write rest junk (relink rest junk name) s node from buffer count parent in
        let (n, got) = inode_read junk s' node' from buffer' count in
        (n ≡ count) × ((o : ℕ) → o < count → got o ≡ buffer o)
  read-write s node from buffer buffer' count parent p q h =
      let w = inode_write_lem s node from buffer count parent p q in
      let (s', node', _) =
        inode_write rest junk (relink rest junk name) s node from buffer count parent in
      let r = inode_read_lem junk s' node' from buffer' count w.fits (omega (arith, w.size)) in
      let e : (inode_read junk s' node' from buffer' count).0 ≡ count =
        omega (arith, w.size, r.0) in
      (e, λ o l. ground (arith, e, r.1 o, w.written (from + o)))
