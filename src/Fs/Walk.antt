-- ===== src/Fs/Walk.antt =====
-- The walk along a path in src/fs.c ends, and gives back every lock that it takes.
use eedox.Base.{
  ℕ, zero, suc, ◌+◌, ◌<◌, ◌≡◌, ◌≢◌, inl, inr, refl, sym, ap, ◌∙◌, true, ◌||◌, not, some, List, [],
  ◌∷◌, ◌++◌, arith, ◌==◌, u32, Bool-cases, length,
}
use eedox.Fs.Disk.{Sector}
use eedox.Rwlock.{krwlock_init, krwlock_release}
use eedox.Descriptor.{at}
use eedox.Pathbuf.{Name, Pathbuf, pathbuf_root, pathbuf_cmp, pathbuf_len}
use eedox.Pathbuf.Laws.{cmp-eq}
use eedox.Fs.Tree.{Files, fs_node_root, close_all}
use eedox.Fs.Open.{not_found, Walk, found, not_found, popped, walk, fs_node_open, from_root}
use eedox.Fs.Child.{
  Returns, and_then-Returns, returned, LocksFree, one_reader, read_free, release_reader, with_lock,
  lock_after-runs, IsOn, path_ends, next_field, closed_locks, then-runs, same, child-Returns,
}

-- Where the walk found something, the node stands at the path.
abbrev pub Leads : Pathbuf → Walk → Files → Type 0
Leads p (found node parent gparent) s = pathbuf_cmp (s.path node) p ≡ true
Leads p not_found s = Unit {0}

closed_paths : (s : Files) (ns : List ℕ) → (close_all s ns).path ≡ s.path
unfolding close_all
closed_paths s [] = refl
closed_paths s (n ∷ ns) = closed_paths s ns

closed-LocksFree : (s : Files) (ns : List ℕ) → LocksFree s → LocksFree (close_all s ns)
closed-LocksFree s ns free n = ap (λ l. l n) (closed_locks s ns) ∙ free n

found-Returns :
    (s : Files) (p : Pathbuf) (ptr : ℕ) (loaded : List ℕ)
    → LocksFree s
    → pathbuf_cmp (s.path ptr) p ≡ true
    → Returns (popped s true ptr loaded) (λ w s'. LocksFree s' × Leads p w s')
found-Returns s p ptr [] free e = returned (free, e)
found-Returns s p ptr (n ∷ []) free e = returned (free, e)
found-Returns s p ptr (n ∷ m ∷ ns) free e =
    returned (closed-LocksFree s ns free, ap (λ q. pathbuf_cmp (q ptr) p) (closed_paths s ns) ∙ e)

-- The state with one more reference to a node.
abbrev with_ref : Files → ℕ → Files
with_ref s node = record s {
  shared = record s.shared { refs = at s.shared.refs node (u32 (s.shared.refs node + 1)) };
}

root_first :
    (s : Files) (root : ℕ) (others : List ℕ)
    → s.shared.inodelist ≡ root ∷ others
    → fs_node_root s ≡ some (root, with_ref s root)
unfolding fs_node_root
root_first s root others list = rw list refl

abbrev twice_locked : Files → ℕ → Files
twice_locked s ptr = with_lock (with_lock s ptr one_reader) ptr krwlock_init

twice_locked-LocksFree : (s : Files) (ptr : ℕ) → LocksFree s → LocksFree (twice_locked s ptr)
twice_locked-LocksFree s ptr free n = elim (Bool-cases (n == ptr)) [
  | inl e ↦ rw e refl
  | inr e ↦ rw e (free n)
]

module _ (rest junk : Sector) (kmalloc : List ℕ → ℕ) (past : Name) (curtask : ℕ) where
  walk-Returns :
      (fuel : ℕ) (s : Files) (p : Pathbuf) (ptr : ℕ) (loaded : List ℕ) (left : List Name)
      → length left < fuel
      → LocksFree s
      → IsOn s p ptr left
      → ptr ≢ 0
      → ((l : List ℕ) → kmalloc l ≢ 0)
      → Returns
          (walk rest junk kmalloc past curtask fuel p ptr loaded s)
          (λ w s'. LocksFree s' × Leads p w s')
  unfolding walk
  walk-Returns zero s p ptr loaded left l free on ne new = absurd (omega (arith, l))
  walk-Returns (suc fuel) s p ptr loaded [] l free on ne new =
      let e = path_ends s p ptr on in rw e (found-Returns s p ptr loaded free e)
  walk-Returns (suc fuel) s p ptr loaded (f ∷ left) l free on ne new =
      let s2 = twice_locked s ptr in
      let free2 = twice_locked-LocksFree s ptr free in
      let on2 : IsOn s2 p ptr (f ∷ left) = record {
        fields = on.fields;
        is_absolute = on.is_absolute;
        back = on.back;
      } in
      elim (Bool-cases (pathbuf_cmp (s.path ptr) p)) [
        | inl e ↦ rw e (found-Returns s p ptr loaded free e)
        | inr e ↦ rw e (
            then-runs _ (lock_after-runs s ptr (read_free curtask (s.lock ptr) (free ptr))) (
              then-runs _
                (lock_after-runs (with_lock s ptr one_reader) ptr
                  (ap krwlock_release (rw (same ptr) refl) ∙ release_reader))
                (elim (Bool-cases (((s.inode ptr).isvalid == 0) || not (s.inode ptr).is_dir)) [
                  | inl b ↦ rw b (returned (closed-LocksFree s2 (ptr ∷ loaded) free2, tt))
                  | inr b ↦
                      rw (b, next_field s2 p ptr past f left on2)
                        (and_then-Returns
                          (child-Returns rest junk kmalloc past curtask s2 p ptr f left free2 on2 ne
                            new)
                          (λ next s3 (free3, on3, ne3).
                            walk-Returns fuel s3 p next (ptr ∷ loaded) left (omega (arith, l)) free3
                              on3 ne3 new))
                ])))
      ]

  -- Where nobody holds a lock, the first inode of the list is not NULL and stands at the root,
  -- and kmalloc never returns NULL, `fs_node_open` of an absolute path that goes up from nowhere
  -- returns: it does not wait, nobody holds a lock behind it, and the node that it finds, if any,
  -- stands at the path.
  pub open-Returns :
      (s : Files) (p : Pathbuf) (root : ℕ) (others : List ℕ)
      → LocksFree s
      → s.shared.inodelist ≡ root ∷ others
      → pathbuf_cmp (s.path root) pathbuf_root ≡ true
      → root ≢ 0
      → p.is_absolute ≡ true
      → p.back ≡ 0
      → ((l : List ℕ) → kmalloc l ≢ 0)
      → Returns
          (fs_node_open rest junk kmalloc past curtask s p)
          (λ w s'. LocksFree s' × Leads p w s')
  unfolding fs_node_open fs_node_root pathbuf_len pathbuf_root
  open-Returns s p root others free list top ne a b new =
      let (fs, a', b') = (cmp-eq (s.path root) pathbuf_root).0 top in
      let r =
        walk-Returns (suc (length p.fields)) (with_ref s root) p root [] p.fields (omega arith) free
          (record {
            fields = ap (λ l. l ++ p.fields) fs;
            is_absolute = a' ∙ sym a;
            back = b' ∙ sym b;
          })
          ne new in
      record {
        value = r.value;
        state = r.state;
        run =
            ap (from_root rest junk kmalloc past curtask p) (root_first s root others list) ∙ r.run;
        holds = r.holds;
      }
