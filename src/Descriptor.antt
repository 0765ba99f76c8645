-- ===== src/Descriptor.antt =====
-- src/descriptor.c and src/descriptor.h: the descriptors of a task, and fs_close, fs_node_close and
-- inodelist_remove of src/fs.c. A table is the list of its records. What the records stand for is in
-- `Shared`: the pipe and the reference count at each address, the parent of each inode, the inodes
-- that are open, and what has been given to kfree. The address 0 is NULL.
pub mod Counts
use eedox.Base.{
  ℕ, suc, zero, suc, ◌+◌, ◌-◌, ◌*◌, ◌/◌, ◌%◌, ◌^◌, ◌≤◌, ◌<◌, min, max, ◌≡◌, ◌≢◌, ◌↔◌, ◌⊎◌, inl, inr,
  refl, sym, ap, ap₂, ◌∙◌, subst, fun_ext, Bool, true, false, ◌&&◌, ◌||◌, not, Option, none, some,
  List, [], ◌∷◌, ◌++◌, map, append-nil, append_assoc, arith, ltb, leb, ◌==◌, if◌then◌else◌, u32,
  sub32, ==_iff, Bool-cases, Option-cases, length, get_elem?, set, take, drop, length-append,
  length-set, get_elem?-set_self, get_elem?-set_ne, length-take, length-drop,
}
use eedox.Base.Int.{ℤ, pos, negsuc, pos_part, neg_part, sub_ℕ, ◌+ℤ◌, ◌-ℤ◌, ◌≤ℤ◌, leb_ℤ, ltb_ℤ}
use eedox.Pipe.{Pipe, pipe_close_rd, pipe_close_wr}

-- FD_KIND_STDIN and those behind it.
pub data Kind : Type 0 where
  stdin stdout disk dir pipe mq : Kind

-- `fd_t`; `place` is `pos`.
pub record Fd : Type 0 where
  pub kind : Kind
  pub place : ℕ
  pub isopen : Bool
  pub access : ℕ
  pub ptr : ℕ

pub record FdTable : Type 0 where
  pub records : List Fd
  pub cap : ℕ

pub record Shared : Type 0 where
  pub pipes : ℕ → Pipe
  pub refs : ℕ → ℕ
  pub parent : ℕ → ℕ
  pub inodelist : List ℕ
  pub freed : List ℕ

abbrev pub fd_access_read : ℕ
fd_access_read = 1

abbrev pub is_pipe : Kind → Bool
is_pipe pipe = true
is_pipe mq = true
is_pipe _ = false

abbrev pub is_file : Kind → Bool
is_file disk = true
is_file dir = true
is_file _ = false

abbrev is_mq : Kind → Bool
is_mq mq = true
is_mq _ = false

-- A write at one address.
abbrev pub at {ℓ} : {A : Type ℓ} → (ℕ → A) → ℕ → A → ℕ → A
at f p v x = if x == p then v else f x

unfoldable pub fd_table_create : ℕ → FdTable
fd_table_create initial_size = record { records = []; cap = initial_size }

-- The index at which the loop of `fd_table_add` ends.
unfoldable pub first_closed : List Fd → ℕ
first_closed [] = 0
first_closed (fd ∷ fds) = let rest = first_closed fds in if fd.isopen then suc rest else 0

unfoldable pub fd_table_add : FdTable → Fd → ℕ × FdTable
fd_table_add table fd =
    let index = first_closed table.records in
    let size = length table.records in
    let opened = record fd { isopen = true } in
    if index == size
    then (
      index,
      record {
        records = table.records ++ (opened ∷ []);
        cap = if table.cap == size then u32 (table.cap * 2) else table.cap;
      },
    )
    else (index, record table { records = set table.records index opened })

unfoldable pub add_reader : Pipe → Pipe
add_reader p = record p { reader_count = u32 (p.reader_count + 1) }

unfoldable pub add_writer : Pipe → Pipe
add_writer p = record p { writer_count = u32 (p.writer_count + 1) }

-- `node->_refs++`, after that of the parent.
unfoldable pub add_refs : Shared → ℕ → Shared
add_refs s node =
    let above = s.parent node in
    let refs = if above == 0 then s.refs else at s.refs above (u32 (s.refs above + 1)) in
    record s { refs = at refs node (u32 (refs node + 1)) }

unfoldable pub fd_table_clone_entry : Shared → Fd → Shared × Fd
fd_table_clone_entry s fd =
    if is_pipe fd.kind
    then (
      record s {
        pipes = at s.pipes fd.ptr (
            if fd.access == fd_access_read
            then add_reader (s.pipes fd.ptr)
            else add_writer (s.pipes fd.ptr));
      },
      fd,
    )
    else if is_file fd.kind
    then (add_refs s fd.ptr, fd)
    else (s, fd)

-- -1 as an uint32_t, where there is no such record.
abbrev pub dup_record : Shared → FdTable → Option Fd → ℕ × Shared × FdTable
dup_record s table none = (2 ^ 32 - 1, s, table)
dup_record s table (some fd) =
    let r = fd_table_clone_entry s fd in let a = fd_table_add table r.1 in (a.0, r.0, a.1)

unfoldable pub fd_table_dup : Shared → FdTable → ℕ → ℕ × Shared × FdTable
fd_table_dup s table index = dup_record s table (get_elem? table.records index)

-- The body of the loop of `fd_table_clone`.
unfoldable pub clone_if_open : Fd → Shared → Fd → Shared × Fd
clone_if_open unset s fd =
    if fd.isopen then fd_table_clone_entry s fd else (s, record unset { isopen = false })

-- The loop of `fd_table_clone`: `unset` is what a record of the new table holds before it is written.
unfoldable pub clone_records : Fd → Shared → List Fd → Shared × List Fd
clone_records unset s [] = (s, [])
clone_records unset s (fd ∷ fds) =
    let r = clone_if_open unset s fd in
    let rest = clone_records unset r.0 fds in (rest.0, r.1 ∷ rest.1)

unfoldable pub fd_table_clone : Fd → Shared → FdTable → Shared × FdTable
fd_table_clone unset s table =
    let (s', records) = clone_records unset s table.records in
    (s', record { records = records; cap = table.cap })

-- The loop of `inodelist_remove`, where the node stands in the list at most once.
unfoldable pub inodelist_remove : List ℕ → ℕ → List ℕ
inodelist_remove [] node = []
inodelist_remove (n ∷ ns) node =
    let rest = inodelist_remove ns node in if n == node then ns else n ∷ rest

unfoldable pub fs_node_close : Shared → ℕ → Shared
fs_node_close s node =
    let refs = at s.refs node (sub32 (s.refs node) 1) in
    if node == 0
    then s
    else if refs node == 0
    then record s {
      refs = refs;
      inodelist = inodelist_remove s.inodelist node;
      freed = node ∷ s.freed;
    }
    else record s { refs = refs }

unfoldable pub fs_close : Shared → ℕ → Shared
fs_close s node =
    let above = if node == 0 then 0 else s.parent node in fs_node_close (fs_node_close s node) above

-- What is left of a pipe of which an end was closed: the struct is freed, unless a name leads to it.
unfoldable pub closed_pipe : Shared → Fd → ℕ × Pipe → Shared
closed_pipe s fd (gone, p) =
    let s' = record s { pipes = at s.pipes fd.ptr p } in
    if not (gone == 0) && not (is_mq fd.kind) then record s' { freed = fd.ptr ∷ s.freed } else s'

unfoldable pub close_shared : Shared → Fd → Shared
close_shared s fd =
    if is_file fd.kind
    then fs_close s fd.ptr
    else if is_pipe fd.kind
    then closed_pipe s fd (
        if fd.access == fd_access_read
        then pipe_close_rd (s.pipes fd.ptr)
        else pipe_close_wr (s.pipes fd.ptr))
    else s

abbrev pub rem_record : FdTable → ℕ → Option Fd → FdTable
rem_record table index none = table
rem_record table index (some fd) = record table {
  records = set table.records index (record fd { isopen = false });
}

unfoldable pub fd_table_rem : FdTable → ℕ → FdTable
fd_table_rem table index = rem_record table index (get_elem? table.records index)

abbrev pub close_record : Shared → FdTable → ℕ → Option Fd → Shared × FdTable
close_record s table fd_id none = (s, table)
close_record s table fd_id (some fd) =
    if fd.isopen then (close_shared s fd, fd_table_rem table fd_id) else (s, table)

unfoldable pub fd_table_close : Shared → FdTable → ℕ → Shared × FdTable
fd_table_close s table fd_id = close_record s table fd_id (get_elem? table.records fd_id)
