-- ===== src/Descriptor/Counts.antt =====
-- The ends of a pipe that are counted in it are those that the descriptors of src/descriptor.c hold.
use eedox.Base.{
  ◌∙◌, sym, sub32, refl, ◌≤◌, Option-cases, ap, ℕ, zero, suc, ◌+◌, ◌^◌, ◌<◌, ◌≡◌, ◌≢◌, ◌⊎◌, inl,
  inr, Bool, true, false, ◌&&◌, not, some, List, [], ◌∷◌, ◌++◌, arith, ◌==◌, if◌then◌else◌,
  Bool-cases, length, get_elem?, set,
}
use eedox.Pipe.{Pipe, pipe_close_rd, pipe_close_wr, pipe_destroy}
use eedox.Descriptor.{
  Kind, stdin, stdout, disk, dir, pipe, mq, is_file, fs_node_close, at, fs_close, closed_pipe,
  clone_if_open, clone_records, fd_table_clone, fd_table_dup, close_shared, fd_table_close,
  fd_table_rem, Fd, FdTable, Shared, fd_access_read, is_pipe, first_closed, fd_table_add,
  add_reader, add_writer, add_refs, fd_table_clone_entry,
}

-- An end of a pipe: its address, and whether it is the one that is read from.
pub record PipeEnd : Type 0 where
  pub ptr : ℕ
  pub reads : Bool

-- How many ends of this kind the pipe counts.
abbrev pub counted : Shared → PipeEnd → ℕ
counted s e = if e.reads then (s.pipes e.ptr).reader_count else (s.pipes e.ptr).writer_count

-- Whether the record is open on this end.
abbrev pub is_on : PipeEnd → Fd → Bool
is_on e fd =
    fd.isopen
    && (is_pipe fd.kind
        && ((fd.ptr == e.ptr)
            && (if e.reads
                then fd.access == fd_access_read
                else not (fd.access == fd_access_read))))

abbrev pub holds : PipeEnd → Fd → ℕ
holds e fd = if is_on e fd then 1 else 0

-- How many of the records are open on it.
unfoldable pub open_on : PipeEnd → List Fd → ℕ
open_on e [] = 0
open_on e (fd ∷ fds) = holds e fd + open_on e fds

open_on-append :
    (e : PipeEnd) (fds gds : List Fd) → open_on e (fds ++ gds) ≡ open_on e fds + open_on e gds
unfolding open_on
open_on-append e [] gds = omega arith
open_on-append e (fd ∷ fds) gds = omega (arith, open_on-append e fds gds)

open_on-set :
    (e : PipeEnd) (fds : List Fd) (i : ℕ) (old new : Fd)
    → get_elem? fds i ≡ some old
    → open_on e (set fds i new) + holds e old ≡ open_on e fds + holds e new
unfolding open_on
open_on-set e [] i old new h = absurd (grind arith)
open_on-set e (fd ∷ fds) zero old new h = ground arith
open_on-set e (fd ∷ fds) (suc i) old new h = omega (arith, open_on-set e fds i old new h)

open_on_one : (e : PipeEnd) (fd : Fd) → open_on e (fd ∷ []) ≡ holds e fd
unfolding open_on
open_on_one e fd = omega arith

first_closed_lem :
    (fds : List Fd)
    → (first_closed fds ≡ length fds)
      ⊎ ((old : Fd) × (get_elem? fds (first_closed fds) ≡ some old)
          × (old.isopen ≡ false)
          × (first_closed fds ≢ length fds))
unfolding first_closed
first_closed_lem [] = inl refl
first_closed_lem (fd ∷ fds) = elim (Bool-cases fd.isopen) [
  | inl o ↦ rw o (elim (first_closed_lem fds) [
    | inl e ↦ inl (omega arith)
    | inr (old, g, c, n) ↦ inr (old, g, c, omega arith)
  ])
  | inr c ↦
      let z : first_closed (fd ∷ fds) ≡ 0 = ground (arith, c) in
      inr (fd, ap (get_elem? (fd ∷ fds)) z, c, omega (arith, z))
]

-- A new record is in the table beside those that were.
add-open_on :
    (e : PipeEnd) (table : FdTable) (fd : Fd)
    → open_on e (fd_table_add table fd).1.records
      ≡ open_on e table.records + holds e (record fd { isopen = true })
unfolding fd_table_add
add-open_on e table fd = elim (first_closed_lem table.records) [
  | inl t ↦ ground (
    arith,
    open_on-append e table.records (record fd { isopen = true } ∷ []),
    open_on_one e (record fd { isopen = true }),
  )
  | inr (old, g, c, n) ↦ ground (
    arith,
    open_on-set e table.records (first_closed table.records) old (record fd { isopen = true }) g,
    c,
  )
]

-- A copy of an open record is counted in its pipe.
clone_entry-counted :
    (e : PipeEnd) (s : Shared) (fd : Fd)
    → counted s e + holds e fd < 2 ^ 32
    → fd.isopen ≡ true
    → let (s', copy) = fd_table_clone_entry s fd in
      (counted s' e ≡ counted s e + holds e fd) × (copy ≡ fd)
unfolding fd_table_clone_entry add_reader add_writer add_refs
clone_entry-counted e s fd b o = (ground arith, ground arith)

-- `fd_table_dup` of an open record: of each end of a pipe the pipe counts as many more as the table
-- has more descriptors on it, where the count does not wrap.
pub dup-counted :
    (e : PipeEnd) (s : Shared) (table : FdTable) (index : ℕ) (fd : Fd)
    → get_elem? table.records index ≡ some fd
    → fd.isopen ≡ true
    → counted s e + holds e fd < 2 ^ 32
    → let (new, s', table') = fd_table_dup s table index in
      (counted s' e ≡ counted s e + holds e fd)
      × (open_on e table'.records ≡ open_on e table.records + holds e fd)
unfolding fd_table_dup
dup-counted e s table index fd g o b =
    let c = clone_entry-counted e s fd b o in
    let a = add-open_on e table (fd_table_clone_entry s fd).1 in
    rw g (c.0, ground (arith, a, c.1, o))

fs_node_close-pipes : (s : Shared) (node : ℕ) → (fs_node_close s node).pipes ≡ s.pipes
unfolding fs_node_close
fs_node_close-pipes s node = ground arith

fs_close-pipes : (s : Shared) (node : ℕ) → (fs_close s node).pipes ≡ s.pipes
unfolding fs_close
fs_close-pipes s node =
    fs_node_close-pipes (fs_node_close s node) (if node == 0 then 0 else s.parent node)
    ∙ fs_node_close-pipes s node

closed_pipe-pipes :
    (s : Shared) (fd : Fd) (r : ℕ × Pipe) → (closed_pipe s fd r).pipes ≡ at s.pipes fd.ptr r.1
unfolding closed_pipe
closed_pipe-pipes s fd r = ground arith

close_rd-counts :
    (p : Pipe)
    → let p' = (pipe_close_rd p).1 in
      (p'.reader_count ≡ sub32 p.reader_count 1) × (p'.writer_count ≡ p.writer_count)
unfolding pipe_close_rd pipe_destroy
close_rd-counts p = (ground arith, ground arith)

close_wr-counts :
    (p : Pipe)
    → let p' = (pipe_close_wr p).1 in
      (p'.reader_count ≡ p.reader_count) × (p'.writer_count ≡ sub32 p.writer_count 1)
unfolding pipe_close_wr pipe_destroy
close_wr-counts p = (ground arith, ground arith)

close_pipes :
    (s : Shared) (fd : Fd)
    → (close_shared s fd).pipes ≡ (
        if is_file fd.kind
        then s.pipes
        else if is_pipe fd.kind
        then at s.pipes fd.ptr (
            if fd.access == fd_access_read
            then (pipe_close_rd (s.pipes fd.ptr)).1
            else (pipe_close_wr (s.pipes fd.ptr)).1)
        else s.pipes)
unfolding close_shared
close_pipes s fd = ground (
  arith,
  fs_close-pipes s fd.ptr,
  closed_pipe-pipes s fd (pipe_close_rd (s.pipes fd.ptr)),
  closed_pipe-pipes s fd (pipe_close_wr (s.pipes fd.ptr)),
)

file_is_no_pipe : (k : Kind) → is_pipe k ≡ true → is_file k ≡ false
file_is_no_pipe stdin h = refl
file_is_no_pipe stdout h = refl
file_is_no_pipe disk h = sym h
file_is_no_pipe dir h = sym h
file_is_no_pipe pipe h = refl
file_is_no_pipe mq h = refl

-- An end is closed in its pipe, if that counts one.
close_shared-counted :
    (e : PipeEnd) (s : Shared) (fd : Fd)
    → fd.isopen ≡ true
    → holds e fd ≤ counted s e
    → counted s e < 2 ^ 32
    → counted (close_shared s fd) e + holds e fd ≡ counted s e
close_shared-counted e s fd o h b = ground (
  arith,
  ap (λ (f : ℕ → Pipe). f e.ptr) (close_pipes s fd),
  close_rd-counts (s.pipes fd.ptr),
  close_wr-counts (s.pipes fd.ptr),
  file_is_no_pipe fd.kind,
)

-- `fd_table_close` of any index, for each end of a pipe of which the pipe counts at least the
-- descriptors of the table, and fewer than 2^32: the pipe counts as many fewer as the table has
-- fewer descriptors on it.
pub close-counted :
    (e : PipeEnd) (s : Shared) (table : FdTable) (fd_id : ℕ)
    → open_on e table.records ≤ counted s e
    → counted s e < 2 ^ 32
    → let (s', table') = fd_table_close s table fd_id in
      counted s' e + open_on e table.records ≡ counted s e + open_on e table'.records
unfolding fd_table_close fd_table_rem
close-counted e s table fd_id h b = elim (Option-cases (get_elem? table.records fd_id)) [
  | inl n ↦ rw n refl
  | inr (fd, g) ↦
      let r = open_on-set e table.records fd_id fd (record fd { isopen = false }) g in
      rw g (ground (arith, r, g, close_shared-counted e s fd))
]

clone_if_open-counted :
    (e : PipeEnd) (unset : Fd) (s : Shared) (fd : Fd)
    → counted s e + holds e fd < 2 ^ 32
    → let (s', copy) = clone_if_open unset s fd in
      (counted s' e ≡ counted s e + holds e fd) × (holds e copy ≡ holds e fd)
unfolding clone_if_open
clone_if_open-counted e unset s fd b =
    (ground (arith, clone_entry-counted e s fd b), ground (arith, clone_entry-counted e s fd b))

-- The records of `fd_table_clone`.
clone_records-counted :
    (e : PipeEnd) (unset : Fd) (s : Shared) (fds : List Fd)
    → counted s e + open_on e fds < 2 ^ 32
    → let (s', copies) = clone_records unset s fds in
      (counted s' e ≡ counted s e + open_on e fds) × (open_on e copies ≡ open_on e fds)
unfolding clone_records open_on
clone_records-counted e unset s [] b = (omega arith, refl)
clone_records-counted e unset s (fd ∷ fds) b =
    let c = clone_if_open-counted e unset s fd (omega arith) in
    let r = clone_records-counted e unset (clone_if_open unset s fd).0 fds (omega (arith, c.0)) in
    (omega (arith, c.0, r.0), omega (arith, c.1, r.1))

-- `fd_table_clone`, the copy that fork makes: of each end of a pipe the pipe counts as many more as
-- the new table has descriptors on it, which are as many as the old one has, where the count does
-- not wrap.
pub clone-counted :
    (e : PipeEnd) (unset : Fd) (s : Shared) (table : FdTable)
    → counted s e + open_on e table.records < 2 ^ 32
    → let (s', table') = fd_table_clone unset s table in
      (counted s' e ≡ counted s e + open_on e table'.records)
      × (open_on e table'.records ≡ open_on e table.records)
unfolding fd_table_clone
clone-counted e unset s table b =
    let r = clone_records-counted e unset s table.records b in (omega (arith, r.0, r.1), r.1)
