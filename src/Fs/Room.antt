-- ===== src/Fs/Room.antt =====
-- The move of a file of src/fs.c to a place that is large enough for a write.
use eedox.Base.{
  ℕ, ◌+◌, ◌-◌, ◌*◌, ◌/◌, ◌%◌, ◌^◌, ◌≤◌, ◌<◌, max, ◌≡◌, ◌≢◌, inl, inr, refl, ap, ◌∙◌, false, arith,
  ◌==◌, u32, Bool-cases,
}
use eedox.Fs.Disk.{sector_size, Sector, ata_write, Store, brealloc}
use eedox.Fs.Bounds.{Inode, inode_calculate_operation_bounds}
use eedox.Fs.BoundsLaws.{Fits, bounds_lem}
use eedox.Fs.Inode.{inode_update, relocate, relink_root, inode_realloc, make_room}
use eedox.Fs.Data.{move_sectors_lem, file_byte}

-- The file stands behind the two reserved sectors and before the first free one, which leaves room
-- for the sectors of the operation.
pub record IsPlaced (s : Store) (node : Inode) (from count : ℕ) : Type 0 where
  pub behind : 2 ≤ node.index
  pub before : node.index + 1 + node.alloc ≤ s.balloc_ptr
  pub room : s.balloc_ptr + node.alloc + from + count + 3 < 2 ^ 32
  pub within : node.size ≤ node.alloc * sector_size
  pub some_bytes : 0 < count

pub IsPlaced-Fits :
    (s : Store) (node : Inode) (from count : ℕ) → IsPlaced s node from count → Fits node from count
IsPlaced-Fits s node from count p = record {
  some_bytes = p.some_bytes;
  bytes = omega (arith, p.room);
  sectors = omega (arith, p.room, p.before);
  last = omega (arith, p.room, p.before);
  within = p.within;
}

-- What is done with the parent of the file `n` in the store `s` leaves the sectors of the file, and
-- frees none.
pub record Spares {P : Type 0} (relink : Store → Inode → P → Store × P) (s : Store) (n : Inode)
    (p : P) : Type 0 where
  pub sectors :
      (sec : ℕ)
      → n.index ≤ sec
      → sec < n.index + 1 + n.alloc
      → (relink s n p).0.disk sec ≡ s.disk sec
  pub pointer : s.balloc_ptr ≤ (relink s n p).0.balloc_ptr

pub relink_root-Spares :
    (junk : Sector) (s : Store) (n : Inode) → 2 ≤ n.index → Spares (relink_root junk) s n tt
unfolding relink_root ata_write
relink_root-Spares junk s n h = record { sectors = λ sec a b. ground arith; pointer = omega arith }

-- The file after it has been given room.
pub record HasRoom (s : Store) (node : Inode) (from count : ℕ) (s' : Store) (node' : Inode)
    : Type 0 where
  pub size : node'.size ≡ node.size
  pub room : (from + count - 1) / sector_size < node'.alloc
  pub grows : node.alloc ≤ node'.alloc
  pub behind : 2 ≤ node'.index
  pub small : node'.index + 2 + from + count < 2 ^ 32
  pub last : node'.index + 1 + node'.alloc < 2 ^ 32
  pub before : node'.index + 1 + node'.alloc ≤ s'.balloc_ptr
  pub same : (k : ℕ) → k < node.alloc * 512 → file_byte s'.disk node' k ≡ file_byte s.disk node k

pub brealloc_lem :
    (junk : Sector) (s : Store) (address n : ℕ)
    → let (p, s') = brealloc junk s address n in
      (p ≡ s.balloc_ptr)
      × (s'.balloc_ptr ≡ u32 (s.balloc_ptr + n))
      × ((sec : ℕ) → sec ≢ 0 → s'.disk sec ≡ s.disk sec)
unfolding brealloc ata_write
brealloc_lem junk s address n = (refl, refl, λ sec h. ground arith)

-- The sector `d` of the data, once it has been moved.
relocate_sector :
    (rest junk : Sector) (s : Store) (node : Inode) (sectors d : ℕ)
    → 2 ≤ node.index
    → node.index + 1 + node.alloc ≤ s.balloc_ptr
    → s.balloc_ptr + 1 + node.alloc ≤ 2 ^ 32
    → d < node.alloc
    → (relocate rest junk s node sectors).0.disk (s.balloc_ptr + 1 + d)
      ≡ s.disk (node.index + 1 + d)
unfolding relocate inode_update ata_write
relocate_sector rest junk s node sectors d a b c l =
    let r = brealloc_lem junk s node.index (u32 (sectors + 1)) in
    let t : (s.balloc_ptr + 1 + d == s.balloc_ptr) ≡ false = ground arith in
    let e : node.index + (s.balloc_ptr + 1 + d - s.balloc_ptr) ≡ node.index + 1 + d = omega arith in
    let m =
      move_sectors_lem (brealloc junk s node.index (u32 (sectors + 1))).1.disk node.index
        s.balloc_ptr 0 node.alloc (s.balloc_ptr + 1 + d) (omega arith) (omega arith) in
    rw (r.0, t, m, e) (ground (arith, r.2 (node.index + 1 + d)))

relocate-HasRoom :
    (rest junk : Sector) (s : Store) (node : Inode) (from count sectors : ℕ)
    → IsPlaced s node from count
    → node.alloc ≤ sectors
    → (from + count - 1) / sector_size < sectors
    → s.balloc_ptr + sectors + 1 < 2 ^ 32
    → let (s', node') = relocate rest junk s node sectors in HasRoom s node from count s' node'
unfolding relocate inode_update
relocate-HasRoom rest junk s node from count sectors p g r b =
    let l = brealloc_lem junk s node.index (u32 (sectors + 1)) in
    record {
      size = refl;
      room = r;
      grows = g;
      behind = omega (arith, p.behind, p.before, l.0);
      small = omega (arith, p.room, l.0);
      last = omega (arith, l.0);
      before = omega (arith, l.0, l.1);
      same = λ k h.
          ap (λ (f : Sector). f (k % 512))
            (ap (λ i. (relocate rest junk s node sectors).0.disk (i + 1 + k / 512)) l.0
              ∙ relocate_sector rest junk s node sectors (k / 512) p.behind p.before (omega arith)
                  (omega arith));
    }

-- Putting the parent right keeps the file.
relink-HasRoom :
    {P : Type 0} (relink : Store → Inode → P → Store × P) (s s' : Store) (node node' : Inode)
    (from count : ℕ) (parent : P)
    → Spares relink s' node' parent
    → HasRoom s node from count s' node'
    → HasRoom s node from count (relink s' node' parent).0 node'
relink-HasRoom relink s s' node node' from count parent q r = record {
  size = r.size;
  room = r.room;
  grows = r.grows;
  behind = r.behind;
  small = r.small;
  last = r.last;
  before = omega (arith, q.pointer, r.before);
  same = λ k h.
      ap (λ (f : Sector). f (k % 512))
        (q.sectors (node'.index + 1 + k / 512) (omega arith) (omega (arith, r.grows)))
      ∙ r.same k h;
}

-- The number of sectors that `inode_write` moves a file to.
abbrev pub sectors_after : Inode → ℕ → ℕ → ℕ
sectors_after node from count =
    u32 ((inode_calculate_operation_bounds node from count).sec_overflow + node.alloc)

pub sectors_after-max :
    (s : Store) (node : Inode) (from count : ℕ)
    → IsPlaced s node from count
    → sectors_after node from count ≡ max node.alloc (1 + (from + count - 1) / sector_size)
sectors_after-max s node from count p =
    let l = bounds_lem node from count (IsPlaced-Fits s node from count p) in
    omega (arith, l.2, p.room)

pub moved-HasRoom :
    (rest junk : Sector) (s : Store) (node : Inode) (from count : ℕ)
    → IsPlaced s node from count
    → let (s', node') = relocate rest junk s node (sectors_after node from count) in
      HasRoom s node from count s' node'
moved-HasRoom rest junk s node from count p =
    let q = sectors_after-max s node from count p in
    relocate-HasRoom rest junk s node from count (sectors_after node from count) p
      (omega (arith, q)) (omega (arith, q)) (omega (arith, q, p.room))

pub make_room-HasRoom :
    (rest junk : Sector) {P : Type 0} (relink : Store → Inode → P → Store × P) (s : Store)
    (node : Inode) (from count : ℕ) (parent : P)
    → IsPlaced s node from count
    → (let (s', node') = relocate rest junk s node (sectors_after node from count) in
        Spares relink s' node' parent)
    → let (s', node', _) = make_room rest junk relink s node from count parent in
      HasRoom s node from count s' node'
unfolding make_room inode_realloc
make_room-HasRoom rest junk relink s node from count parent p spares =
    let f = IsPlaced-Fits s node from count p in
    let l = bounds_lem node from count f in
    let op = inode_calculate_operation_bounds node from count in
    elim (Bool-cases (op.sec_overflow == 0)) [
      | inl e ↦ rw e (record {
        size = refl;
        room = ground (arith, l.2);
        grows = omega arith;
        behind = p.behind;
        small = omega (arith, p.room, p.before);
        last = f.last;
        before = p.before;
        same = λ k h. refl;
      })
      | inr e ↦ rw e (
          relink-HasRoom relink s _ node _ from count parent spares
            (moved-HasRoom rest junk s node from count p))
    ]
