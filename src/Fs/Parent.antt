-- ===== src/Fs/Parent.antt =====
-- What a write of a file of src/fs.c leaves of the disk, as `inode_realloc` makes one to the directory
-- of the file that it moves.
use eedox.Base.{
  ℕ, ◌+◌, ◌-◌, ◌/◌, ◌%◌, ◌≤◌, ◌<◌, max, ◌≡◌, ◌≢◌, ◌⊎◌, inl, inr, refl, ◌∙◌, fun_ext, false, arith,
  ◌==◌, u32, Bool-cases,
}
use eedox.Fs.Disk.{sector_size, Sector, ata_write, Store, brealloc}
use eedox.Fs.Bounds.{Inode, inode_calculate_operation_bounds}
use eedox.Fs.BoundsLaws.{Fits, bounds_lem}
use eedox.Fs.Inode.{
  inode_update, relocate, relink_root, inode_realloc, make_room, inode_write, make_longer,
  write_data, read_sectors, copy_into,
}
use eedox.Fs.Data.{move_sectors_lem, write_sectors_lem}
use eedox.Fs.Room.{
  IsPlaced, Spares, relink_root-Spares, HasRoom, brealloc_lem, sectors_after, sectors_after-max,
  moved-HasRoom, make_room-HasRoom,
}

-- The new size: only the sector of the inode changes.
pub make_longer_lem :
    (rest : Sector) (s : Store) (node : Inode) (from count : ℕ)
    → Fits node from count
    → let (s', node') =
        make_longer rest s node (inode_calculate_operation_bounds node from count) in
      (node'.size ≡ max node.size (from + count))
      × (node'.index ≡ node.index)
      × (node'.alloc ≡ node.alloc)
      × ((sec : ℕ) → sec ≢ node.index → s'.disk sec ≡ s.disk sec)
      × (s'.balloc_ptr ≡ s.balloc_ptr)
unfolding make_longer inode_update ata_write
make_longer_lem rest s node from count f =
    let l = bounds_lem node from count f in
    (ground (arith, l.3), ground arith, ground arith, λ sec h. ground arith, ground arith)

pub HasRoom-Fits :
    (s : Store) (node : Inode) (from count : ℕ) (s' : Store) (node' : Inode)
    → IsPlaced s node from count
    → HasRoom s node from count s' node'
    → Fits node' from count
HasRoom-Fits s node from count s' node' p r = record {
  some_bytes = p.some_bytes;
  bytes = omega (arith, p.room);
  sectors = omega (arith, r.small);
  last = r.last;
  within = omega (arith, p.within, r.grows, r.size);
}

-- What a write of a file leaves: every sector but the two reserved ones, those of the file, and
-- those that were free.
pub record Leaves (s : Store) (node : Inode) (s' : Store) (node' : Inode) : Type 0 where
  pub disk :
      (sec : ℕ)
      → 2 ≤ sec
      → sec < s.balloc_ptr
      → (sec < node.index) ⊎ (node.index + node.alloc < sec)
      → s'.disk sec ≡ s.disk sec
  pub pointer : s.balloc_ptr ≤ s'.balloc_ptr
  pub place :
      ((node'.index ≡ node.index) × (node'.alloc ≡ node.alloc)) ⊎ (s.balloc_ptr ≤ node'.index)

module _ (rest junk : Sector) (s : Store) (node : Inode) (from count : ℕ)
    (p : IsPlaced s node from count) where
  abbrev pub moved : Store × Inode
  moved = relocate rest junk s node (sectors_after node from count)

  moved-Spares : Spares (relink_root junk) moved.0 moved.1 tt
  moved-Spares =
      relink_root-Spares junk moved.0 moved.1 (moved-HasRoom rest junk s node from count p).behind

  -- The free place is where the file goes, and the pointer stands behind it.
  pub moved_lem :
      (moved.1.index ≡ s.balloc_ptr)
      × (moved.1.alloc ≡ max node.alloc (1 + (from + count - 1) / sector_size))
      × (moved.0.balloc_ptr ≡ s.balloc_ptr + moved.1.alloc + 1)
      × ((sec : ℕ) → 2 ≤ sec → sec < s.balloc_ptr → moved.0.disk sec ≡ s.disk sec)
  unfolding relocate inode_update ata_write
  moved_lem =
      let q = sectors_after-max s node from count p in
      let sectors = sectors_after node from count in
      let l = brealloc_lem junk s node.index (u32 (sectors + 1)) in
      (
        l.0,
        q,
        omega (arith, l.1, q, p.room),
        λ sec a b. ground (
          arith,
          l.0,
          l.2 sec,
          p.before,
          p.room,
          move_sectors_lem (brealloc junk s node.index (u32 (sectors + 1))).1.disk node.index
              s.balloc_ptr 0 node.alloc sec,
        ),
      )

  make_room-Leaves :
      let (s', node', _) = make_room rest junk (relink_root junk) s node from count tt in
      Leaves s node s' node'
  unfolding make_room inode_realloc relink_root ata_write
  make_room-Leaves =
      elim (Bool-cases ((inode_calculate_operation_bounds node from count).sec_overflow == 0)) [
        | inl e ↦
            rw e
              (record { disk = λ sec a b c. refl; pointer = omega arith; place = inl (refl, refl) })
        | inr e ↦
            let l = moved_lem in
            rw e (record {
              disk = λ sec a b c. ground (arith, l.3 sec);
              pointer = omega (arith, l.2);
              place = inr (omega (arith, l.0));
            })
      ]

  pub inode_write-Leaves :
      (buffer : Sector)
      → let (s', node', _) = inode_write rest junk (relink_root junk) s node from buffer count tt in
        Leaves s node s' node'
  unfolding inode_write write_data
  inode_write-Leaves buffer =
      let t : (count == 0) ≡ false = ground (arith, p.some_bytes) in
      let r = make_room rest junk (relink_root junk) s node from count tt in
      let h = make_room-HasRoom rest junk (relink_root junk) s node from count tt p moved-Spares in
      let f = HasRoom-Fits s node from count r.0 r.1 p h in
      let op = inode_calculate_operation_bounds r.1 from count in
      let b = bounds_lem r.1 from count f in
      let m = make_longer_lem rest r.0 r.1 from count f in
      let v = make_room-Leaves in
      let s2 = (make_longer rest r.0 r.1 op).0 in
      let blocks =
        copy_into (read_sectors s2.disk op.sec_from 0 junk op.sec_read) (from % 512) buffer count in
      rw t (record {
        disk = λ sec x y z.
            fun_ext (λ o. ground (
              arith,
              b.0,
              b.1,
              f.sectors,
              h.room,
              z,
              v.place,
              y,
              write_sectors_lem s2.disk op.sec_from 0 blocks op.sec_count sec o,
            ))
            ∙ (m.3 sec (omega (arith, z, v.place, y)) ∙ v.disk sec x y z);
        pointer = omega (arith, v.pointer, m.4);
        place = omega (arith, v.place, m.1, m.2);
      })
