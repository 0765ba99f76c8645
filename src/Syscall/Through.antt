-- ===== src/Syscall/Through.antt =====
-- A pipe of src/pipe.c through the calls of src/syscall.c: pipe, write and read.
use eedox.Base.{
  ℕ, ◌^◌, ◌≤◌, ◌<◌, ◌≡◌, ◌≢◌, refl, ap, ◌∙◌, Bool, true, false, some, List, [], ◌∷◌, arith, length,
  get_elem?,
}
use eedox.Fs.Disk.{Sector}
use eedox.Fs.Directory.{first_bytes, buffer_of}
use eedox.Descriptor.{pipe, Fd, FdTable, fd_table_add}
use eedox.Pathbuf.{Name}
use eedox.Pipe.{Pipe, pipe_new, pipe_write, pipe_read, until_nul}
use eedox.Task.{Context, task_curtask, head_of}
use eedox.Syscall.{System, ret, kernel_of, set_kernel}
use eedox.Syscall.Io.{
  awake_if, caller, set_table, shared_of, set_pipe, open_record, if_open, not_positive, from_pipe,
  two_ends, read_open, write_open, syscall_pipe, syscall_read, syscall_write,
}
use eedox.Syscall.Ends.{
  same, add-get, add-keeps, until_nul-first, length-first_bytes, holding, new-write, new-read,
}

caller-set : (s : System) (table : FdTable) → (caller (set_table s table)).table ≡ table
unfolding task_curtask
caller-set s table = rw (same (head_of (kernel_of s).rr_queue)) refl

set_pipe-caller : (s : System) (a : ℕ) (p : Pipe) → caller (set_pipe s a p) ≡ caller s
unfolding task_curtask
set_pipe-caller s a p = refl

set_pipe-at : (s : System) (a : ℕ) (p : Pipe) → (shared_of (set_pipe s a p)).pipes a ≡ p
set_pipe-at s a p = rw (same a) refl

-- A descriptor of an end of a pipe.
abbrev end_of : ℕ → ℕ → Fd
end_of address access = record {
  kind = pipe;
  place = 0;
  isopen = true;
  access = access;
  ptr = address;
}

found-open :
    (table : FdTable) (i address access : ℕ)
    → get_elem? table.records i ≡ some (end_of address access)
    → open_record table i ≡ some (end_of address access)
unfolding open_record
found-open table i address access e = ap if_open e

-- The two descriptors are in the table of the caller, and the pipes stay.
record AreEnds (s : System) (address : ℕ) (rd wr : ℕ) (s1 : System) : Type 0 where
  rd_open : open_record (caller s1).table rd ≡ some (end_of address 1)
  wr_open : open_record (caller s1).table wr ≡ some (end_of address 2)
  pipes : (shared_of s1).pipes ≡ (shared_of s).pipes

ends-AreEnds :
    (unset_fd : Fd) (s : System) (address : ℕ)
    → (rd : ℕ) × (wr : ℕ) × (s1 : System) × (two_ends unset_fd s pipe address ≡ ret (rd, wr) s1)
      × AreEnds s address rd wr s1
ends-AreEnds unset_fd s address =
    let a = fd_table_add (caller s).table (end_of address 1) in
    let t1 = set_table s a.1 in
    let b = fd_table_add (caller t1).table (end_of address 2) in
    let s1 = set_table t1 b.1 in
    let e1 = caller-set s a.1 in
    let e2 = caller-set t1 b.1 in
    let g = add-get (caller s).table (end_of address 1) in
    (
      a.0,
      b.0,
      s1,
      refl,
      record {
        rd_open =
            ap (λ t. open_record t a.0) e2
            ∙ found-open b.1 a.0 address 1 (
                add-keeps (caller t1).table (end_of address 2) (end_of address 1) a.0
                  (ap (λ t. get_elem? t.records a.0) e1 ∙ g) refl);
        wr_open =
            ap (λ t. open_record t b.0) e2
            ∙ found-open b.1 b.0 address 2 (add-get (caller t1).table (end_of address 2));
        pipes = refl;
      },
    )

module _ (rest junk : Sector) (kmalloc : List ℕ → ℕ) (past : Name) (unset : Bool) (s : System)
    (address : ℕ) where
  write-new :
      (wr : ℕ) (ptr : Sector) (n : ℕ)
      → open_record (caller s).table wr ≡ some (end_of address 2)
      → (shared_of s).pipes address ≡ pipe_new
      → 0 < n
      → n < 2 ^ 31
      → syscall_write rest junk kmalloc past unset s wr ptr n
        ≡ ret n (set_pipe s address (holding (first_bytes ptr n ∷ []) 1))
  unfolding syscall_write
  write-new wr ptr n e p above below =
      let z : not_positive n ≡ false = ground arith in
      ap (write_open rest junk kmalloc past unset s wr ptr n) e
      ∙ rw z (
          ap
            (λ r.
              ret n
                (let s' = set_pipe s address r.1 in set_kernel s' (awake_if (kernel_of s') r.0)))
            (ap (λ q. pipe_write q (first_bytes ptr n)) p ∙ new-write (first_bytes ptr n)))

  read-message :
      (context : Context) (rd : ℕ) (buffer : Sector) (m : List ℕ) (len : ℕ)
      → open_record (caller s).table rd ≡ some (end_of address 1)
      → (shared_of s).pipes address ≡ holding (m ∷ []) 1
      → until_nul m ≡ m
      → length m ≤ len
      → 0 < len
      → len < 2 ^ 31
      → syscall_read rest junk kmalloc past unset s context rd buffer len
        ≡ ret (length m, buffer_of buffer m) (set_pipe s address (holding [] 0))
  unfolding syscall_read
  read-message context rd buffer m len e p t l above below =
      let z : not_positive len ≡ false = ground arith in
      ap (read_open rest junk kmalloc past unset s context rd buffer len) e
      ∙ rw z (
          ap (from_pipe s context address buffer) (
            ap (λ q. pipe_read (task_curtask (kernel_of s)) q len) p
            ∙ new-read (task_curtask (kernel_of s)) m len t l))

-- A pipe that a task makes carries what it writes: `syscall_pipe` returns two descriptors; then a
-- `syscall_write` of a text without NUL, which is not empty, to the second one returns its
-- length, and a `syscall_read` of at least that length, below 2^31, from the first one returns
-- the length of the text too and copies it.
pub pipe-carries :
    (rest junk : Sector) (kmalloc : List ℕ → ℕ) (past : Name) (unset : Bool) (unset_fd : Fd)
    (s : System) (context : Context) (address : ℕ) (ptr buffer : Sector) (n len : ℕ)
    → ((i : ℕ) → i < n → ptr i ≢ 0)
    → 0 < n
    → n ≤ len
    → len < 2 ^ 31
    → (rd : ℕ) × (wr : ℕ) × (s1 : System) × (s2 : System) × (s3 : System) × (syscall_pipe unset_fd s
          address
        ≡ ret (rd, wr) s1)
      × (syscall_write rest junk kmalloc past unset s1 wr ptr n ≡ ret n s2)
      × (syscall_read rest junk kmalloc past unset s2 context rd buffer len
          ≡ ret (n, buffer_of buffer (first_bytes ptr n)) s3)
unfolding syscall_pipe
pipe-carries rest junk kmalloc past unset unset_fd s context address ptr buffer n len chars some_n
      within small =
    let s0 = set_pipe s address pipe_new in
    let m = first_bytes ptr n in
    let size = length-first_bytes ptr n in
    let (rd, wr, s1, made, ends) = ends-AreEnds unset_fd s0 address in
    let s2 = set_pipe s1 address (holding (m ∷ []) 1) in
    let new = ap (λ f. f address) ends.pipes ∙ set_pipe-at s address pipe_new in
    let same_table = ap (λ t. t.table) (set_pipe-caller s1 address (holding (m ∷ []) 1)) in
    (
      rd,
      wr,
      s1,
      s2,
      set_pipe s2 address (holding [] 0),
      made,
      write-new rest junk kmalloc past unset s1 address wr ptr n ends.wr_open new some_n
          (omega arith),
      read-message rest junk kmalloc past unset s2 address context rd buffer m len
            (ap (λ t. open_record t rd) same_table ∙ ends.rd_open)
            (set_pipe-at s1 address (holding (m ∷ []) 1)) (until_nul-first ptr n chars)
            (omega (arith, size)) (omega arith) small
          ∙ ap (λ k. ret (k, buffer_of buffer m) (set_pipe s2 address (holding [] 0))) size,
    )
