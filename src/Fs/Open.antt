-- ===== src/Fs/Open.antt =====
-- The walk along a path in src/fs.c (fs_node_child, fs_node_open), inode_create, inode_delete, and
-- fs_open, fs_read, fs_write, fs_readdir and fs_init. `past` is the text that the word behind the
-- fields of a path points to, or NULL. A flag is a Bool, but `dir` is 0, 1, or 2 for either type.
use eedox.Base.{
  ℕ, zero, suc, Bool, true, false, ◌&&◌, ◌||◌, not, Option, none, some, List, [], ◌∷◌, ltb, ◌==◌,
  if◌then◌else◌, length,
}
use eedox.Fs.Disk.{
  Sector, ata_write, put_word, get_word, Store, balloc, binit, root_index_sector, fs_start_sector,
}
use eedox.Fs.Bounds.{Inode}
use eedox.Fs.Inode.{inode_update, inode_fetch, inode_truncate, inode_read, inode_write}
use eedox.Fs.Directory.{
  ChildOperation, chop_add, chop_rem, inode_child, inode_child_set, inode_readdir, relink,
}
use eedox.Rwlock.{krwlock_read, krwlock_write, krwlock_release}
use eedox.Descriptor.{at, fs_node_close}
use eedox.Pathbuf.{
  Name, Pathbuf, pathbuf_root, pathbuf_cmp, pathbuf_child, pathbuf_name, pathbuf_field, pathbuf_len,
}
use eedox.Fs.Tree.{
  Files, fs_err_deleted, fs_err_invalid_path, fs_err_nonexisting, fs_err_dir_has_child,
  max_node_name_length, Outcome, returns, panics, out_of_fuel, and_then, lock_after, fs_node_rdlock,
  fs_node_wrlock, fs_node_unlock, inodelist_get, inode_new, fs_node_root, set_inode, close_all,
}

abbrev pub name_or : Name → Option Name → Name
name_or past none = past
name_or past (some name) = name

-- What `fs_node_open` finds: the node, its parent and the parent of that.
pub data Walk : Type 0 where
  found : ℕ → ℕ → ℕ → Walk
  not_found : Walk

-- The result and the vector `loaded` at the end of the walk; `vec_pop` takes from the front here.
abbrev pub popped : Files → Bool → ℕ → List ℕ → Outcome Walk
popped s false node loaded = returns not_found (close_all s loaded)
popped s true node [] = returns (found node 0 0) s
popped s true node (p ∷ []) = returns (found node p 0) s
popped s true node (p ∷ g ∷ loaded) = returns (found node p g) (close_all s loaded)

abbrev pub option_inode : Files → ℕ → Option Inode
option_inode s node = if node == 0 then none else some (s.inode node)

abbrev pub store_inode : Files → ℕ → Option Inode → Files
store_inode s node none = s
store_inode s node (some i) = set_inode s node i

-- The store, an inode and its parent, after an operation on them.
abbrev pub put_back : Files → ℕ → ℕ → Store × Inode × Option Inode → Files
put_back s node parent (store, i, p) =
    store_inode (set_inode (record s { store = store }) node i) parent p

module _ (rest junk : Sector) (kmalloc : List ℕ → ℕ) (past : Name) (curtask : ℕ) where
  unfoldable pub fs_node_child : Files → ℕ → Name → Outcome ℕ
  unfolding inodelist_get
  fs_node_child s node name =
      let pathbuf = pathbuf_child (s.path node) name true in
      let child = inodelist_get s pathbuf in
      if node == 0
      then returns 0 s
      else if not (child == 0)
      then returns child s
      else and_then (lock_after s node (krwlock_read curtask (s.lock node))) (λ _ s1.
        let again = inodelist_get s1 pathbuf in
        let (fresh, s2) = inode_new kmalloc s1 pathbuf in
        if not (again == 0)
        then returns again s1
        else and_then (lock_after s2 fresh (krwlock_write curtask (s2.lock fresh))) (λ _ s3.
          let s4 =
            set_inode s3 fresh
              (inode_child rest junk s3.store (s3.inode node) name (s3.inode fresh)) in
          and_then (lock_after s4 node (krwlock_release (s4.lock node))) (λ _ s5.
            and_then (lock_after s5 fresh (krwlock_release (s5.lock fresh)))
              (λ _ s6. returns fresh s6))))

  -- The loop of `fs_node_open`, at the node `ptr`.
  unfoldable pub walk : ℕ → Pathbuf → ℕ → List ℕ → Files → Outcome Walk
  unfolding fs_node_child
  walk zero pathbuf ptr loaded s = out_of_fuel
  walk (suc fuel) pathbuf ptr loaded s =
      if pathbuf_cmp (s.path ptr) pathbuf
      then popped s true ptr loaded
      else and_then (lock_after s ptr (krwlock_read curtask (s.lock ptr))) (λ _ s1.
        let bad = ((s1.inode ptr).isvalid == 0) || not (s1.inode ptr).is_dir in
        and_then (lock_after s1 ptr (krwlock_release (s1.lock ptr))) (λ _ s2.
          if bad
          then popped s2 false ptr (ptr ∷ loaded)
          else and_then
              (fs_node_child s2 ptr
                (name_or past (pathbuf_field pathbuf (pathbuf_len (s2.path ptr)))))
              (λ next s3. walk fuel pathbuf next (ptr ∷ loaded) s3)))

  abbrev pub from_root : Pathbuf → Option (ℕ × Files) → Outcome Walk
  from_root pathbuf none = panics
  from_root pathbuf (some (root, s)) = walk (suc (pathbuf_len pathbuf)) pathbuf root [] s

  -- Each round goes down one field of the path.
  unfoldable pub fs_node_open : Files → Pathbuf → Outcome Walk
  unfolding walk fs_node_root
  fs_node_open s pathbuf = from_root pathbuf (fs_node_root s)

  -- `inode_child_set` of the directory at an address, with the one above it.
  unfoldable pub child_set_at : Files → ℕ → ChildOperation → ℕ → Files
  child_set_at s node op parent = put_back s node parent (
      inode_child_set rest junk (relink rest junk (name_or past (pathbuf_name (s.path node))))
        s.store (s.inode node) op (option_inode s parent))

  unfoldable pub inode_create : Files → ℕ → ℕ → Name → ℕ → ℕ → Outcome (Unit {0})
  unfolding child_set_at
  inode_create s dir parent name node gparent =
      let (index, store1) = balloc junk s.store 1 in
      let created : Inode = record {
        isvalid = 1;
        index = index;
        size = 0;
        alloc = 0;
        child_count = 0;
        is_dir = not (dir == 0);
      } in
      let s1 = set_inode (record s { store = inode_update rest store1 created }) node created in
      if ltb max_node_name_length (length name)
      then panics
      else returns tt (child_set_at s1 parent (chop_add name index) gparent)

  -- The name is read behind the last field.
  unfoldable pub inode_delete : Files → ℕ → ℕ → Files
  unfolding child_set_at
  inode_delete s node parent =
      let deleted = record (s.inode node) { isvalid = 0 } in
      let s1 = set_inode (record s { store = inode_update rest s.store deleted }) node deleted in
      if parent == 0 then s1 else child_set_at s1 parent (chop_rem past) 0

  unfoldable pub truncate_at : Files → ℕ → Files
  truncate_at s node =
      let (store, i) = inode_truncate rest s.store (s.inode node) in
      set_inode (record s { store = store }) node i

  -- The middle of `fs_open`, under the locks. The result is a word; 0 is success.
  unfoldable pub act : Files → Pathbuf → Bool → Bool → ℕ → Bool → ℕ → ℕ → ℕ → Outcome ℕ
  unfolding inode_create inode_delete truncate_at
  act s pathbuf create truncate dir unlink node parent gparent =
      let i = s.inode node in
      let is_dir = if i.is_dir then 1 else 0 in
      let wrong_type = not (dir == 2) && not (dir == is_dir) in
      let has_child = i.is_dir && ltb 0 i.child_count in
      let result = if wrong_type then fs_err_invalid_path else 0 in
      let s1 = if unlink && not has_child then inode_delete s node parent else s in
      if i.isvalid == 0
      then (if create
          then and_then
              (inode_create s dir parent (name_or past (pathbuf_name pathbuf)) node gparent)
              (λ _ s'. returns 0 s')
          else returns fs_err_nonexisting s)
      else returns (if unlink && has_child then fs_err_dir_has_child else result)
          (if truncate then truncate_at s1 node else s1)

  abbrev pub open_found : Pathbuf → Bool → Bool → ℕ → Bool → Walk → Files → Outcome (ℕ × ℕ)
  open_found pathbuf create truncate dir unlink not_found s = returns (0, fs_err_invalid_path) s
  open_found pathbuf create truncate dir unlink (found node parent gparent) s =
      and_then (fs_node_wrlock curtask s gparent) (λ _ s1.
        and_then (fs_node_wrlock curtask s1 parent) (λ _ s2.
          and_then (fs_node_wrlock curtask s2 node) (λ _ s3.
            and_then (act s3 pathbuf create truncate dir unlink node parent gparent) (λ result s4.
              let s5 = record s4 {
                shared = record s4.shared { parent = at s4.shared.parent node parent };
              } in
              and_then (fs_node_unlock s5 gparent) (λ _ s6.
                and_then (fs_node_unlock s6 parent) (λ _ s7.
                  and_then (fs_node_unlock s7 node) (λ _ s8.
                    returns (node, result)
                      (record s8 { shared = fs_node_close s8.shared gparent }))))))))

  -- The node, NULL where the path leads nowhere, and the result.
  unfoldable pub fs_open : Files → Pathbuf → Bool → Bool → ℕ → Bool → Outcome (ℕ × ℕ)
  unfolding act fs_node_open
  fs_open s pathbuf create truncate dir unlink =
      and_then (fs_node_open s pathbuf) (open_found pathbuf create truncate dir unlink)

  -- The number of bytes, or FS_ERR_DELETED.
  unfoldable pub fs_write : Files → ℕ → Sector → ℕ → ℕ → Outcome ℕ
  fs_write s node str from len =
      let parent = s.shared.parent node in
      and_then (fs_node_wrlock curtask s parent) (λ _ s1.
        and_then (fs_node_wrlock curtask s1 node) (λ _ s2.
          let valid = not ((s2.inode node).isvalid == 0) in
          let written = put_back s2 node parent (
            inode_write rest junk (relink rest junk (name_or past (pathbuf_name (s2.path node))))
              s2.store (s2.inode node) from str len (option_inode s2 parent)) in
          and_then (fs_node_unlock (if valid then written else s2) parent) (λ _ s3.
            and_then (fs_node_unlock s3 node)
              (λ _ s4. returns (if valid then len else fs_err_deleted) s4))))

  -- The same, and the buffer.
  unfoldable pub fs_read : Files → ℕ → Sector → ℕ → ℕ → Outcome (ℕ × Sector)
  fs_read s node str from len = and_then (fs_node_rdlock curtask s node) (λ _ s1.
      let result =
        if (s1.inode node).isvalid == 0
        then (fs_err_deleted, str)
        else inode_read junk s1.store (s1.inode node) from str len in
      and_then (fs_node_unlock s1 node) (λ _ s2. returns result s2))

  -- The same, and the name.
  unfoldable pub fs_readdir : Files → ℕ → ℕ → Outcome (ℕ × Name)
  fs_readdir s node from = and_then (fs_node_rdlock curtask s node) (λ _ s1.
      let result =
        if (s1.inode node).isvalid == 0
        then (fs_err_deleted, [])
        else inode_readdir rest junk s1.store (s1.inode node) from in
      and_then (fs_node_unlock s1 node) (λ _ s2. returns result s2))

  -- After `ata_init`. A root that is not valid is made.
  unfoldable pub fs_init : Files → Files
  fs_init s =
      let store1 = binit junk s.store in
      let stored = get_word (store1.disk root_index_sector) 0 in
      let root_index = if stored == 0 then fs_start_sector else stored in
      let store2 =
        if stored == 0
        then record store1 {
          disk =
              ata_write store1.disk root_index_sector
                (put_word (store1.disk root_index_sector) 0 fs_start_sector);
        }
        else store1 in
      let (node, s1) =
        inode_new kmalloc (record s { store = store2; shared = record s.shared { inodelist = [] } })
          pathbuf_root in
      let root = inode_fetch store2 root_index in
      let (index, store3) = balloc junk store2 1 in
      let made : Inode = record {
        isvalid = 1;
        index = index;
        size = 0;
        alloc = 0;
        child_count = 0;
        is_dir = true;
      } in
      if root.isvalid == 0
      then set_inode (record s1 { store = inode_update rest store3 made }) node made
      else set_inode s1 node root
