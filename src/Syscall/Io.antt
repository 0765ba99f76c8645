-- ===== src/Syscall/Io.antt =====
-- The system calls on descriptors, pipes and files in src/syscall.c. `unset` is what a variable holds
-- before it is written; the other parameters are those of Fs/Open.antt. A task that has slept in
-- pipe_read goes on with `read_message` of Pipe.antt, one that has slept for a line with `line_read`.
use eedox.Base.{
  ℕ, ◌+◌, ◌*◌, ◌/◌, ◌%◌, ◌^◌, min, Bool, true, false, ◌||◌, Option, none, some, List, [], ◌∷◌, ltb,
  leb, ◌==◌, if◌then◌else◌, u32, length, get_elem?, set, take, drop,
}
use eedox.Fs.Disk.{Sector}
use eedox.Fs.Directory.{first_bytes, buffer_of}
use eedox.Fs.Tree.{Outcome, fs_err_deleted}
use eedox.Fs.Open.{fs_open, fs_read, fs_write, fs_readdir}
use eedox.Descriptor.{
  Kind, stdin, stdout, disk, dir, pipe, mq, Fd, FdTable, Shared, at, fd_access_read, fd_table_add,
  fd_table_dup, fd_table_close, fs_close,
}
use eedox.Pathbuf.{Name, Pathbuf, pathbuf_parse}
use eedox.Pipe.{
  until_nul, Pipe, pipe_new, pipe_read, pipe_write, ReadResult, eof, sleeps, bytes, fault,
}
use eedox.Mq.{mqlist_open}
use eedox.Semaphore.{Semaphore, ksemaphore_wait, ksemaphore_signal}
use eedox.Terminal.{term_print_buffer}
use eedox.Task.{Context, Task, Kernel, set_task, set_shared, task_curtask, task_awake, task_fork}
use eedox.Syscall.{
  System, Call, ret, sleeping, blocked, kernel_of, set_kernel, on_files, err_invalid_fd,
  err_writeonly, err_readonly, err_invalid_length, err_unlinked_file, syscall_translate_fs_err,
  resolve_path, task_sleep,
}

-- The task that calls, and its table.
abbrev pub caller : System → Task
caller s = let k = kernel_of s in k.tasks (task_curtask k)

abbrev pub set_table : System → FdTable → System
set_table s table =
    let k = kernel_of s in
    set_kernel s (set_task k (task_curtask k) (record (caller s) { table = table }))

abbrev pub shared_of : System → Shared
shared_of s = (kernel_of s).files.shared

abbrev pub put_shared : System → Shared → System
put_shared s shared = set_kernel s (set_shared (kernel_of s) shared)

-- `fd_table_add` to the caller's table.
abbrev pub added : System → Fd → ℕ × System
added s fd = let (index, table) = fd_table_add (caller s).table fd in (index, set_table s table)

-- The record of a descriptor, if the test of its number and that of `isopen` pass.
abbrev pub if_open : Option Fd → Option Fd
if_open none = none
if_open (some fd) = if fd.isopen then some fd else none

unfoldable pub open_record : FdTable → ℕ → Option Fd
open_record table fd_id = if_open (get_elem? table.records fd_id)

-- `fd->pos += ret`
abbrev pub move_on : System → ℕ → Fd → ℕ → System
move_on s fd_id fd n =
    let table = (caller s).table in
    set_table s (record table {
      records = set table.records fd_id (record fd { place = u32 (fd.place + n) });
    })

-- The task that a semaphore gives back to the queue.
abbrev pub awake_if : Kernel → Option ℕ → Kernel
awake_if k none = k
awake_if k (some task) = task_awake k task

-- A length that is not above 0 as an int32_t.
abbrev pub not_positive : ℕ → Bool
not_positive len = (len == 0) || leb (2 ^ 31) len

-- `access | FD_ACCESS_READ` and `access & FD_ACCESS_WRITE`, for an access of two bits.
abbrev pub or_read : ℕ → ℕ
or_read access = if access % 2 == 1 then access else access + 1

abbrev pub and_write : ℕ → ℕ
and_write access = access / 2 % 2 * 2

abbrev pub set_pipe : System → ℕ → Pipe → System
set_pipe s ptr p =
    let shared = shared_of s in put_shared s (record shared { pipes = at shared.pipes ptr p })

-- `pipe_read` for the caller; the bytes go to `ptr`.
abbrev pub from_pipe : System → Context → ℕ → Sector → ReadResult → Call (ℕ × Sector)
from_pipe s context pipe_ptr ptr eof = ret (0, ptr) s
from_pipe s context pipe_ptr ptr (sleeps p) =
    let s' = set_pipe s pipe_ptr p in sleeping (set_kernel s' (task_sleep (kernel_of s') context))
from_pipe s context pipe_ptr ptr (bytes given woken p) =
    let s' = set_pipe s pipe_ptr p in
    ret (length given, buffer_of ptr given) (set_kernel s' (awake_if (kernel_of s') woken))
from_pipe s context pipe_ptr ptr fault = blocked

unfoldable pub syscall_write_stdout : System → Sector → ℕ → Call ℕ
syscall_write_stdout s ptr len = ret len (record s {
  input = record s.input {
    glb_term = term_print_buffer s.input.glb_term (first_bytes ptr len);
    keyboard_input_size = 0;
  };
})

-- `syscall_read_stdin` where it has the lock and there is a line, the text of which ends at its first
-- NUL: the bytes that are read.
abbrev pub line_read : System → Sector → ℕ → List (List ℕ) → Call (ℕ × Sector)
line_read s ptr len [] = blocked
line_read s ptr len (line ∷ lines) =
    let text = until_nul line in
    let count = min len (length text) in
    let left = if ltb len (length text) then drop len text ∷ lines else lines in
    let (woken, lock) = ksemaphore_signal s.stdin_lock in
    let s' = record s { stdin_lock = lock; input = record s.input { input_list = left } } in
    ret (count, buffer_of ptr (take count text)) (set_kernel s' (awake_if (kernel_of s') woken))

-- `syscall_read_stdin` behind `ksemaphore_wait`.
unfoldable pub read_locked : System → Context → Sector → ℕ → Call (ℕ × Sector)
read_locked s context ptr len =
    let k = kernel_of s in
    if length s.input.input_list == 0
    then sleeping (
        set_kernel (record s { input = record s.input { reader_task = task_curtask k } })
          (task_sleep k context))
    else line_read s ptr len s.input.input_list

abbrev pub when_locked : System → Context → Sector → ℕ → Bool × Semaphore → Call (ℕ × Sector)
when_locked s context ptr len (true, lock) =
    sleeping (set_kernel (record s { stdin_lock = lock }) (task_sleep (kernel_of s) context))
when_locked s context ptr len (false, lock) =
    read_locked (record s { stdin_lock = lock }) context ptr len

unfoldable pub syscall_read_stdin : System → Context → Sector → ℕ → Call (ℕ × Sector)
syscall_read_stdin s context ptr len =
    when_locked s context ptr len (ksemaphore_wait (task_curtask (kernel_of s)) s.stdin_lock)

abbrev pub closed_at : System → ℕ → Option Fd → Call ℕ
closed_at s fd_id none = ret err_invalid_fd s
closed_at s fd_id (some fd) =
    let (shared, table) = fd_table_close (shared_of s) (caller s).table fd_id in
    ret 0 (set_table (put_shared s shared) table)

unfoldable pub syscall_close : System → ℕ → Call ℕ
syscall_close s fd_id = closed_at s fd_id (open_record (caller s).table fd_id)

abbrev pub duped_at : System → ℕ → Option Fd → Call ℕ
duped_at s index none = ret err_invalid_fd s
duped_at s index (some fd) =
    let (copy, shared, table) = fd_table_dup (shared_of s) (caller s).table index in
    ret copy (set_table (put_shared s shared) table)

unfoldable pub syscall_dup : System → ℕ → Call ℕ
syscall_dup s index = duped_at s index (open_record (caller s).table index)

-- The two descriptors of a pipe: `unset` is what a record on the stack holds.
abbrev pub two_ends : Fd → System → Kind → ℕ → Call (ℕ × ℕ)
two_ends unset s kind ptr =
    let fd : Fd = record {
      isopen = true;
      place = 0;
      kind = kind;
      ptr = ptr;
      access = fd_access_read;
    } in
    let (rd, s1) = added s fd in
    let (wr, s2) = added s1 (record fd { access = 2 }) in ret (rd, wr) s2

-- `ptr` is what kmalloc returns.
unfoldable pub syscall_pipe : Fd → System → ℕ → Call (ℕ × ℕ)
syscall_pipe unset s ptr = two_ends unset (set_pipe s ptr pipe_new) pipe ptr

unfoldable pub syscall_mqopen : Fd → System → Name → ℕ → Call (ℕ × ℕ)
syscall_mqopen unset s name fresh =
    let shared = shared_of s in
    let (ptr, l) =
      mqlist_open (record { entries = s.mq_entries; store = shared.pipes }) name fresh in
    two_ends unset
      (put_shared (record s { mq_entries = l.entries }) (record shared { pipes = l.store })) mq ptr

-- `fork` of src/task.c.
unfoldable pub syscall_fork : (ℕ → ℕ) → Fd → System → ℕ → Context → Call ℕ
syscall_fork clone unset s newtask context =
    let (pid, k) = task_fork clone unset (kernel_of s) newtask context in ret pid (set_kernel s k)

module _ (rest junk : Sector) (kmalloc : List ℕ → ℕ) (past : Name) (unset : Bool) where
  abbrev pub open_at : System → Pathbuf → Bool → Bool → ℕ → Outcome (ℕ × ℕ)
  open_at s path create truncate kind =
      let k = kernel_of s in
      fs_open rest junk kmalloc past (task_curtask k) k.files path create truncate kind false

  -- The path that a text gives to the caller.
  abbrev pub path_of : System → Name → Pathbuf
  path_of s text = resolve_path (kernel_of s) (pathbuf_parse unset text)

  abbrev pub close_node : System → ℕ → System
  close_node s node = put_shared s (fs_close (shared_of s) node)

  unfoldable pub syscall_setcwd : System → Name → Call ℕ
  syscall_setcwd s text =
      let path = path_of s text in
      on_files s (open_at s path false false 1) (λ (node, res) s1.
        let s2 = close_node s1 node in
        if res == 0
        then ret 0 (
            let k = kernel_of s2 in
            set_kernel s2 (set_task k (task_curtask k) (record (caller s2) { cwd = path })))
        else ret (syscall_translate_fs_err res) s2)

  -- A descriptor of what was opened.
  abbrev pub opened_fd : Kind → ℕ → ℕ × ℕ → System → Call ℕ
  opened_fd kind access (node, res) s =
      let (index, s') =
        added s (record { access = access; place = 0; ptr = node; kind = kind; isopen = true }) in
      if res == 0 then ret index s' else ret (syscall_translate_fs_err res) s

  unfoldable pub syscall_open : System → Name → ℕ → Call ℕ
  syscall_open s text flags =
      on_files s (open_at s (path_of s text) (flags % 2 == 1) (flags / 2 % 2 == 1) 0)
        (opened_fd disk 3)

  unfoldable pub syscall_opendir : System → Name → Call ℕ
  syscall_opendir s text =
      on_files s (open_at s (path_of s text) false false 1) (opened_fd dir fd_access_read)

  unfoldable pub syscall_mkdir : System → Name → Call ℕ
  syscall_mkdir s text = on_files s (open_at s (path_of s text) true false 1) (λ (node, res) s1.
      ret (if res == 0 then 0 else syscall_translate_fs_err res) (close_node s1 node))

  -- `stat_t`, where it is written: the index, whether it is a directory, the size and the blocks.
  unfoldable pub syscall_stat : System → Name → Call (ℕ × Option (ℕ × Bool × ℕ × ℕ))
  syscall_stat s text = on_files s (open_at s (path_of s text) false false 2) (λ (node, res) s1.
      let i = (kernel_of s1).files.inode node in
      if res == 0
      then ret (0, some (i.index, i.is_dir, i.size, u32 (i.alloc + 1))) s1
      else ret (syscall_translate_fs_err res, none) s1)

  -- The number of bytes and the name; the test of the kind is the third one.
  abbrev pub entry_kind : System → ℕ → Fd → Kind → Call (ℕ × Name)
  entry_kind s fd_id fd dir =
      let k = kernel_of s in
      on_files s (fs_readdir rest junk kmalloc past (task_curtask k) k.files fd.ptr fd.place)
        (λ (n, name) s1.
          if n == fs_err_deleted
          then ret (err_unlinked_file, name) s1
          else ret (n, name) (move_on s1 fd_id fd n))
  entry_kind s fd_id fd _ = ret (err_invalid_fd, []) s

  abbrev pub read_entry : System → ℕ → Option Fd → Call (ℕ × Name)
  read_entry s fd_id none = ret (err_invalid_fd, []) s
  read_entry s fd_id (some fd) = entry_kind s fd_id fd fd.kind

  unfoldable pub syscall_readdir : System → ℕ → Call (ℕ × Name)
  syscall_readdir s fd_id = read_entry s fd_id (open_record (caller s).table fd_id)

  unfoldable pub syscall_read_disk : System → ℕ → Fd → Sector → ℕ → Call (ℕ × Sector)
  syscall_read_disk s fd_id fd ptr len =
      let k = kernel_of s in
      on_files s (fs_read rest junk kmalloc past (task_curtask k) k.files fd.ptr ptr fd.place len)
        (λ (n, buffer) s1.
          if n == fs_err_deleted
          then ret (err_unlinked_file, buffer) s1
          else ret (n, buffer) (move_on s1 fd_id fd n))

  unfoldable pub syscall_write_disk : System → ℕ → Fd → Sector → ℕ → Call ℕ
  syscall_write_disk s fd_id fd ptr len =
      let k = kernel_of s in
      on_files s (fs_write rest junk kmalloc past (task_curtask k) k.files fd.ptr ptr fd.place len)
        (λ n s1.
          if n == fs_err_deleted then ret err_unlinked_file s1 else ret n (move_on s1 fd_id fd n))

  -- The end of `syscall_read`, by the kind of the descriptor.
  abbrev pub read_kind : System → Context → ℕ → Fd → Sector → ℕ → Kind → Call (ℕ × Sector)
  read_kind s context fd_id fd ptr len stdin = syscall_read_stdin s context ptr len
  read_kind s context fd_id fd ptr len pipe =
      from_pipe s context fd.ptr ptr
        (pipe_read (task_curtask (kernel_of s)) ((shared_of s).pipes fd.ptr) len)
  read_kind s context fd_id fd ptr len mq =
      from_pipe s context fd.ptr ptr
        (pipe_read (task_curtask (kernel_of s)) ((shared_of s).pipes fd.ptr) len)
  read_kind s context fd_id fd ptr len _ = syscall_read_disk s fd_id fd ptr len

  abbrev pub read_open : System → Context → ℕ → Sector → ℕ → Option Fd → Call (ℕ × Sector)
  read_open s context fd_id ptr len none = ret (err_invalid_fd, ptr) s
  read_open s context fd_id ptr len (some fd) =
      if or_read fd.access == 0
      then ret (err_writeonly, ptr) s
      else if not_positive len
      then ret (err_invalid_length, ptr) s
      else read_kind s context fd_id fd ptr len fd.kind

  unfoldable pub syscall_read : System → Context → ℕ → Sector → ℕ → Call (ℕ × Sector)
  syscall_read s context fd_id ptr len =
      read_open s context fd_id ptr len (open_record (caller s).table fd_id)

  abbrev pub to_pipe : System → Fd → Sector → ℕ → Call ℕ
  to_pipe s fd ptr len =
      let (woken, p) = pipe_write ((shared_of s).pipes fd.ptr) (first_bytes ptr len) in
      let s' = set_pipe s fd.ptr p in ret len (set_kernel s' (awake_if (kernel_of s') woken))

  -- The end of `syscall_write`, by the kind of the descriptor.
  abbrev pub write_kind : System → ℕ → Fd → Sector → ℕ → Kind → Call ℕ
  write_kind s fd_id fd ptr len stdout = syscall_write_stdout s ptr len
  write_kind s fd_id fd ptr len pipe = to_pipe s fd ptr len
  write_kind s fd_id fd ptr len mq = to_pipe s fd ptr len
  write_kind s fd_id fd ptr len _ = syscall_write_disk s fd_id fd ptr len

  abbrev pub write_open : System → ℕ → Sector → ℕ → Option Fd → Call ℕ
  write_open s fd_id ptr len none = ret err_invalid_fd s
  write_open s fd_id ptr len (some fd) =
      if and_write fd.access == 0
      then ret err_readonly s
      else if not_positive len
      then ret err_invalid_length s
      else write_kind s fd_id fd ptr len fd.kind

  unfoldable pub syscall_write : System → ℕ → Sector → ℕ → Call ℕ
  syscall_write s fd_id ptr len = write_open s fd_id ptr len (open_record (caller s).table fd_id)
