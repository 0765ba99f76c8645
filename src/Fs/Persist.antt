-- ===== src/Fs/Persist.antt =====
-- What src/fs.c puts on the disk and reads back: inodes and the first free sector.
use eedox.Base.{u32, ℕ, ◌+◌, ◌^◌, ◌≤◌, ◌<◌, ◌≡◌, ◌≢◌, inl, refl, Bool, true, false, arith, ◌==◌}
use eedox.Fs.Disk.{
  balloc, balloc_update, balloc_fetch, binit, balloc_sector, get_word, put_word, Sector, Store,
  ata_write, get_word-put_word, get_word-put_word_ne,
}
use eedox.Fs.Bounds.{Inode}
use eedox.Fs.Inode.{type_word, inode_bytes, inode_update, inode_fetch}

-- The fields are those of an inode in memory, each an uint32_t.
pub record IsWord32 (node : Inode) : Type 0 where
  pub isvalid : node.isvalid < 2 ^ 32
  pub index : node.index < 2 ^ 32
  pub size : node.size < 2 ^ 32
  pub alloc : node.alloc < 2 ^ 32
  pub child_count : node.child_count < 2 ^ 32

is_dir_word : (d : Bool) → (type_word d < 2 ^ 32) × ((type_word d == 1) ≡ d)
is_dir_word true = (omega arith, refl)
is_dir_word false = (omega arith, refl)

-- Each word of the bytes of an inode.
inode_words :
    (rest : Sector) (node : Inode)
    → IsWord32 node
    → let b = inode_bytes rest node in
      (get_word b 0 ≡ node.isvalid)
      × (get_word b 4 ≡ node.index)
      × (get_word b 8 ≡ node.size)
      × (get_word b 12 ≡ node.alloc)
      × (get_word b 16 ≡ node.child_count)
      × (get_word b 20 ≡ type_word node.is_dir)
unfolding inode_bytes
inode_words rest node w =
    let b0 = put_word rest 0 node.isvalid in
    let b1 = put_word b0 4 node.index in
    let b2 = put_word b1 8 node.size in
    let b3 = put_word b2 12 node.alloc in
    let b4 = put_word b3 16 node.child_count in
    let k = type_word node.is_dir in
    let l : (at : ℕ) → at + 4 ≤ 20 → _ = λ at h. get_word-put_word_ne b4 at 20 k (inl h) in
    let m : (at : ℕ) → at + 4 ≤ 16 → _ =
      λ at h. get_word-put_word_ne b3 at 16 node.child_count (inl h) in
    let n : (at : ℕ) → at + 4 ≤ 12 → _ = λ at h. get_word-put_word_ne b2 at 12 node.alloc (inl h) in
    (
      rw
          (
            l 0 (omega arith),
            m 0 (omega arith),
            n 0 (omega arith),
            get_word-put_word_ne b1 0 8 node.size (inl (omega arith)),
            get_word-put_word_ne b0 0 4 node.index (inl (omega arith)),
          )
          (get_word-put_word rest 0 node.isvalid w.isvalid),
      rw
          (
            l 4 (omega arith),
            m 4 (omega arith),
            n 4 (omega arith),
            get_word-put_word_ne b1 4 8 node.size (inl (omega arith)),
          )
          (get_word-put_word b0 4 node.index w.index),
      rw (l 8 (omega arith), m 8 (omega arith), n 8 (omega arith))
          (get_word-put_word b1 8 node.size w.size),
      rw (l 12 (omega arith), m 12 (omega arith)) (get_word-put_word b2 12 node.alloc w.alloc),
      rw (l 16 (omega arith)) (get_word-put_word b3 16 node.child_count w.child_count),
      get_word-put_word b4 20 k (is_dir_word node.is_dir).0,
    )

-- `inode_fetch` from the sector that `inode_update` wrote gives back the inode, and no other sector
-- is written, if the fields are words of 32 bits.
pub fetch-update :
    (rest : Sector) (s : Store) (node : Inode)
    → IsWord32 node
    → (inode_fetch (inode_update rest s node) node.index ≡ node)
      × ((sec : ℕ) → sec ≢ node.index → (inode_update rest s node).disk sec ≡ s.disk sec)
unfolding inode_fetch inode_update ata_write inode_bytes
fetch-update rest s node w =
    let d = is_dir_word node.is_dir in
    let v = inode_words rest node w in
    let t : (node.index == node.index) ≡ true = ground arith in
    (rw (t, v.0, v.1, v.2, v.3, v.4, v.5, d.1) refl, λ sec n. ground arith)

-- After a `balloc` that does not bring the first free sector to 0, a restart finds the allocator
-- as it was: `binit` reads back the first free sector, whatever the global held; and `balloc`
-- returns the old one, counts it up by the size, and writes no sector but the first.
pub binit-balloc :
    (junk : Sector) (s : Store) (size garbage : ℕ)
    → u32 (s.balloc_ptr + size) ≢ 0
    → let (p, s') = balloc junk s size in
      (p ≡ s.balloc_ptr)
      × (s'.balloc_ptr ≡ u32 (s.balloc_ptr + size))
      × ((binit junk (record s' { balloc_ptr = garbage })).balloc_ptr ≡ s'.balloc_ptr)
      × ((sec : ℕ) → sec ≢ balloc_sector → s'.disk sec ≡ s.disk sec)
unfolding balloc balloc_update binit balloc_fetch ata_write
binit-balloc junk s size garbage n =
    let e = get_word-put_word junk 0 (u32 (s.balloc_ptr + size)) (omega arith) in
    (refl, refl, ground (arith, e), λ sec h. ground arith)
