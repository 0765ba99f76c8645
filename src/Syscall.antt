-- ===== src/Syscall.antt =====
-- src/syscall.c and src/syscall.h: what the system calls have in common, and those on tasks. A value
-- that a register points to is an argument, and one that a call writes through a pointer a result. An
-- int32_t is its word. `past` gives the words behind the vector of tasks.
pub mod Io
pub mod Waiting
pub mod Ends
pub mod Through
use eedox.Base.{
  ℕ, ◌-◌, ◌%◌, ◌^◌, Bool, true, false, ◌||◌, not, Option, none, some, List, ◌==◌, if◌then◌else◌,
}
use eedox.Fs.Tree.{
  Files, Outcome, returns, waits, panics, out_of_fuel, fs_err_deleted, fs_err_invalid_path,
  fs_err_nonexisting, fs_err_dir_has_child,
}
use eedox.Pathbuf.{Name, Pathbuf, pathbuf_join, pathbuf_stringify}
use eedox.Semaphore.{Semaphore}
use eedox.Keyboard.{Input}
use eedox.Task.{
  Context, Wait, wait_none, wait_pid, wait_all, Kernel, running, set_task, multk_getpid,
  task_curtask, task_awake, task_switch, task_gettask, task_find_zombie, task_killtask,
  task_close_all_fds,
}

-- The globals that the calls use.
pub record System : Type 0 where
  pub input : Input
  pub stdin_lock : Semaphore
  pub mq_entries : List (List ℕ × ℕ)

-- A call returns, or goes to sleep in `task_sleep`, or waits for the lock of an inode, or stops the
-- kernel.
pub data Call (A : Type 0) : Type 0 where
  ret : A → System → Call A
  sleeping : System → Call A
  blocked : Call A

abbrev pub kernel_of : System → Kernel
kernel_of s = s.input.kernel

abbrev pub set_kernel : System → Kernel → System
set_kernel s k = record s { input = record s.input { kernel = k } }

abbrev pub set_files : System → Files → System
set_files s files = set_kernel s (record (kernel_of s) { files = files })

-- A call of src/fs.c and what follows it.
abbrev pub on_files : {A B : Type 0} → System → Outcome A → (A → System → Call B) → Call B
on_files s (returns a files) f = f a (set_files s files)
on_files s waits f = blocked
on_files s panics f = blocked
on_files s out_of_fuel f = blocked

-- The errors, as words.
abbrev pub err_invalid_fd : ℕ
err_invalid_fd = 2 ^ 32 - 1

abbrev pub err_writeonly : ℕ
err_writeonly = 2 ^ 32 - 2

abbrev pub err_readonly : ℕ
err_readonly = 2 ^ 32 - 3

abbrev pub err_invalid_length : ℕ
err_invalid_length = 2 ^ 32 - 4

abbrev pub err_unlinked_file : ℕ
err_unlinked_file = 2 ^ 32 - 5

abbrev pub err_invalid_path : ℕ
err_invalid_path = 2 ^ 32 - 6

abbrev pub err_nonexisting : ℕ
err_nonexisting = 2 ^ 32 - 7

abbrev pub err_has_child : ℕ
err_has_child = 2 ^ 32 - 8

abbrev pub err_not_executable : ℕ
err_not_executable = 2 ^ 32 - 9

abbrev pub err_inval_childpid : ℕ
err_inval_childpid = 2 ^ 32 - 10

unfoldable pub syscall_translate_fs_err : ℕ → ℕ
syscall_translate_fs_err err =
    if err == fs_err_deleted
    then err_unlinked_file
    else if err == fs_err_dir_has_child
    then err_has_child
    else if err == fs_err_nonexisting
    then err_nonexisting
    else if err == fs_err_invalid_path
    then err_invalid_path
    else 0

unfoldable pub resolve_path : Kernel → Pathbuf → Pathbuf
resolve_path k path =
    if path.is_absolute then path else pathbuf_join (k.tasks (task_curtask k)).cwd path

-- `task_sleep`, called with the context.
abbrev pub task_sleep : Kernel → Context → Kernel
task_sleep k context = task_switch k context true

module _ (past : ℕ → ℕ) where
  -- `syscall_wait` of a task, from where it goes on after `task_sleep`: the number of the child and its
  -- status.
  unfoldable pub wait_after : System → ℕ → Call (ℕ × ℕ)
  wait_after s task =
      let k = kernel_of s in
      let child = (k.tasks task).chwait in
      ret ((k.tasks child).pid, (k.tasks child).exit_status)
        (set_kernel s (task_killtask past k child))

  unfoldable pub syscall_wait : System → Context → Call (ℕ × ℕ)
  syscall_wait s context =
      let k = kernel_of s in
      let task = task_curtask k in
      if task_find_zombie k task == 0
      then sleeping (
          set_kernel s
            (task_sleep (set_task k task (record (k.tasks task) { wait = wait_all })) context))
      else wait_after s task

  -- `syscall_waitpid` from where it goes on after `task_sleep`.
  unfoldable pub waitpid_after : System → ℕ → ℕ → Call (ℕ × Option ℕ)
  waitpid_after s child child_pid =
      let k = kernel_of s in
      ret (child_pid, some (k.tasks child).exit_status) (set_kernel s (task_killtask past k child))

  -- The result, and the status where one is written.
  unfoldable pub syscall_waitpid : System → Context → ℕ → Call (ℕ × Option ℕ)
  syscall_waitpid s context child_pid =
      let k = kernel_of s in
      let task = task_curtask k in
      let child = task_gettask past k child_pid in
      let t = k.tasks task in
      if (child == 0) || not (t.parent == task)
      then ret (err_inval_childpid, none) s
      else if (k.tasks child).exit_status == running
      then sleeping (
          set_kernel s
            (task_sleep (set_task k task (record t { wait = wait_pid; chwait = child })) context))
      else waitpid_after s child child_pid

unfoldable pub syscall_getcwd : System → Call Name
syscall_getcwd s = let k = kernel_of s in ret (pathbuf_stringify (k.tasks (task_curtask k)).cwd) s

unfoldable pub syscall_getpid : System → Call ℕ
syscall_getpid s = ret (multk_getpid (kernel_of s)) s

-- Whether the parent waits for a task.
abbrev pub is_awaited : Wait → ℕ → ℕ → Bool
is_awaited wait_none chwait task = false
is_awaited wait_pid chwait task = chwait == task
is_awaited wait_all chwait task = true

-- `syscall_exit` between the closing of the descriptors and `task_sleep`.
unfoldable pub tell_parent : Kernel → ℕ → ℕ → Kernel
tell_parent k task parent =
    let p = k.tasks parent in
    if is_awaited p.wait p.chwait task
    then task_awake (set_task k parent (record p { chwait = task; wait = wait_none })) parent
    else k

unfoldable pub syscall_exit : System → Context → ℕ → Call ℕ
syscall_exit s context status =
    let k = kernel_of s in
    let task = task_curtask k in
    let ended = set_task k task (record (k.tasks task) { exit_status = status % 2 ^ 16 }) in
    sleeping (
      set_kernel s
        (task_sleep (tell_parent (task_close_all_fds ended) task (k.tasks task).parent) context))
