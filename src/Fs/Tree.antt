-- ===== src/Fs/Tree.antt =====
-- The inodes in memory in src/fs.c: the list of the open ones, their locks and their counts. `kmalloc`
-- gives the address of a new inode, which is arbitrary; the address 0 is NULL. `waits` is a call that
-- has to sleep for a lock.
use eedox.Base.{ℕ, ◌+◌, ◌-◌, ◌^◌, Option, none, some, List, [], ◌∷◌, ◌++◌, ◌==◌, if◌then◌else◌, u32}
use eedox.Fs.Disk.{Store}
use eedox.Fs.Bounds.{Inode}
use eedox.Rwlock.{
  Rwlock, Operation, Result, sleeps, runs, krwlock_init, krwlock_read, krwlock_write,
  krwlock_release,
}
use eedox.Descriptor.{Shared, at, fs_node_close}
use eedox.Pathbuf.{Pathbuf, pathbuf_cmp}

-- The globals of src/fs.c, and the inode at each address.
pub record Files : Type 0 where
  pub shared : Shared
  pub store : Store
  pub inode : ℕ → Inode
  pub path : ℕ → Pathbuf
  pub lock : ℕ → Rwlock
  pub awoken : List (ℕ × Operation)

-- FS_ERR_DELETED and those behind it, as words.
abbrev pub fs_err_deleted : ℕ
fs_err_deleted = 2 ^ 32 - 1

abbrev pub fs_err_invalid_path : ℕ
fs_err_invalid_path = 2 ^ 32 - 2

abbrev pub fs_err_nonexisting : ℕ
fs_err_nonexisting = 2 ^ 32 - 3

abbrev pub fs_err_dir_has_child : ℕ
fs_err_dir_has_child = 2 ^ 32 - 4

abbrev pub max_node_name_length : ℕ
max_node_name_length = 256

-- A call goes on, or another task holds a lock that it waits for, or the kernel stops (`kpanic`), or
-- the fuel of the walk is used up.
pub data Outcome (A : Type 0) : Type 0 where
  returns : A → Files → Outcome A
  waits : Outcome A
  panics : Outcome A
  out_of_fuel : Outcome A

unfoldable pub and_then : {A B : Type 0} → Outcome A → (A → Files → Outcome B) → Outcome B
and_then (returns a s) f = f a s
and_then waits f = waits
and_then panics f = panics
and_then out_of_fuel f = out_of_fuel

-- The lock at an address after a call of src/lock.c.
unfoldable pub lock_after : Files → ℕ → Result → Outcome (Unit {0})
lock_after s node (sleeps l) = waits
lock_after s node (runs woken l) =
    returns tt (record s { lock = at s.lock node l; awoken = s.awoken ++ woken })

module _ (curtask : ℕ) where
  unfoldable pub fs_node_rdlock : Files → ℕ → Outcome (Unit {0})
  fs_node_rdlock s node =
      if node == 0 then returns tt s else lock_after s node (krwlock_read curtask (s.lock node))

  unfoldable pub fs_node_wrlock : Files → ℕ → Outcome (Unit {0})
  fs_node_wrlock s node =
      if node == 0 then returns tt s else lock_after s node (krwlock_write curtask (s.lock node))

unfoldable pub fs_node_unlock : Files → ℕ → Outcome (Unit {0})
fs_node_unlock s node =
    if node == 0 then returns tt s else lock_after s node (krwlock_release (s.lock node))

-- The loop of `inodelist_get`; 0 is NULL.
unfoldable pub find_path : (ℕ → Pathbuf) → List ℕ → Pathbuf → ℕ
find_path path [] pathbuf = 0
find_path path (n ∷ ns) pathbuf =
    let later = find_path path ns pathbuf in if pathbuf_cmp (path n) pathbuf then n else later

unfoldable pub inodelist_get : Files → Pathbuf → ℕ
unfolding find_path
inodelist_get s pathbuf = find_path s.path s.shared.inodelist pathbuf

unfoldable pub inodelist_add : Shared → ℕ → Shared
inodelist_add s node = record s { inodelist = s.inodelist ++ (node ∷ []) }

unfoldable pub inode_new : (List ℕ → ℕ) → Files → Pathbuf → ℕ × Files
inode_new kmalloc s pathbuf =
    let node = kmalloc s.shared.inodelist in
    (
      node,
      record s {
        shared =
            inodelist_add
              (record s.shared {
                refs = at s.shared.refs node 1;
                parent = at s.shared.parent node 0;
              })
              node;
        path = at s.path node pathbuf;
        lock = at s.lock node krwlock_init;
      },
    )

unfoldable pub fs_node_root : Files → Option (ℕ × Files)
fs_node_root s = elim (s.shared.inodelist) [
  | [] ↦ none
  | ◌∷◌ node _ ↦ some (
    node,
    record s {
      shared = record s.shared { refs = at s.shared.refs node (u32 (s.shared.refs node + 1)) };
    },
  )
]

unfoldable pub set_inode : Files → ℕ → Inode → Files
set_inode s node i = record s { inode = at s.inode node i }

-- The vector is given from its end.
unfoldable pub close_all : Files → List ℕ → Files
close_all s [] = s
close_all s (n ∷ ns) = let s' = close_all s ns in record s' { shared = fs_node_close s'.shared n }
