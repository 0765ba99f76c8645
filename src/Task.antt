-- ===== src/Task.antt =====
-- src/task.c and src/task.h: the tasks, the queue of those that can run, and the list of all. A task is
-- given by its address, and 0 is NULL: what stands there is `tasks 0`. The queue and the vector are
-- lists, as Kqueue/Fifo.antt and Vec/Laws.antt justify. An int16_t is its word of 16 bits. A call of
-- `task_switch` is followed up to asm_task_switch; `context` has what asm_get_eip, asm_get_esp and
-- asm_get_ebp return. The test that fd_table_close is only called for an open record is in
-- fd_table_close too.
pub mod Schedule
pub mod Table
use eedox.Base.{
  ℕ, zero, suc, ◌+◌, ◌-◌, ◌^◌, Bool, true, false, ◌&&◌, not, Option, none, some, List, [], ◌∷◌,
  ◌++◌, ◌==◌, if◌then◌else◌, u32, length, get_elem?, set,
}
use eedox.Descriptor.{
  stdin, stdout, Fd, FdTable, Shared, at, fd_access_read, fd_table_create, fd_table_add,
  fd_table_clone, fd_table_close,
}
use eedox.Pathbuf.{Pathbuf, pathbuf_root, pathbuf_copy}
use eedox.Fs.Tree.{Files}

-- TASK_WAIT_NONE, TASK_WAIT_PID, TASK_WAIT_ALL
pub data Wait : Type 0 where
  wait_none wait_pid wait_all : Wait

-- The registers that a task is switched by.
pub record Context : Type 0 where
  pub eip : ℕ
  pub esp : ℕ
  pub ebp : ℕ

pub record Task : Type 0 where
  pub pid : ℕ
  pub context : Context
  pub brk : ℕ
  pub page_dir : ℕ
  pub table : FdTable
  pub cwd : Pathbuf
  pub parent : ℕ
  pub exit_status : ℕ
  pub chwait : ℕ
  pub wait : Wait

-- The globals of src/task.c, and those behind its calls. `buffer` is what asm_task_switch loads.
pub record Kernel : Type 0 where
  pub tasks : ℕ → Task
  pub tasklist : List ℕ
  pub rr_queue : List ℕ
  pub task_count : ℕ
  pub current_task : ℕ
  pub current_page_directory : ℕ
  pub buffer : Context
  pub files : Files

-- -1 as an int16_t: a task that has not ended.
abbrev pub running : ℕ
running = 2 ^ 16 - 1

-- What asm_get_eip returns where a task goes on after a switch.
abbrev pub resumed : ℕ
resumed = 2 ^ 32 - 1

abbrev pub set_task : Kernel → ℕ → Task → Kernel
set_task k task t = record k { tasks = at k.tasks task t }

abbrev pub set_shared : Kernel → Shared → Kernel
set_shared k shared = record k { files = record k.files { shared = shared } }

unfoldable pub multk_getpid : Kernel → ℕ
multk_getpid k = (k.tasks k.current_task).pid

-- `kqueue_peek`, where the queue is not empty.
abbrev pub head_of : List ℕ → ℕ
head_of [] = 0
head_of (t ∷ q) = t

unfoldable pub task_curtask : Kernel → ℕ
task_curtask k = head_of k.rr_queue

unfoldable pub task_awake : Kernel → ℕ → Kernel
task_awake k task = record k { rr_queue = k.rr_queue ++ (task ∷ []) }

-- The end of `task_switch`.
unfoldable pub switch_to : Kernel → ℕ → Kernel
switch_to k nextask = record k {
  buffer = (k.tasks nextask).context;
  current_task = nextask;
  current_page_directory = (k.tasks nextask).page_dir;
}

-- `task_switch` where `curtask` is popped off a queue of several tasks.
unfoldable pub switch_from : Kernel → Context → Bool → ℕ → List ℕ → Kernel
unfolding switch_to
switch_from k context sleep curtask q =
    let queue = if sleep then q else q ++ (curtask ∷ []) in
    let saved = record (k.tasks curtask) { context = context } in
    let k1 = record (set_task k curtask saved) { rr_queue = q } in
    if context.eip == resumed
    then k1
    else switch_to (record k1 { rr_queue = queue }) (head_of queue)

unfoldable pub task_switch : Kernel → Context → Bool → Kernel
unfolding switch_from
task_switch k context sleep = elim (k.rr_queue) [
  | [] ↦ k
  | ◌∷◌ curtask q ↦ elim q [ [] ↦ k | ◌∷◌ t q' ↦ switch_from k context sleep curtask (t ∷ q') ]
]

-- `newtask` is what kmalloc returns, `clone` is page_directory_clone. 0 is what the child gets.
unfoldable pub task_fork : (ℕ → ℕ) → Fd → Kernel → ℕ → Context → ℕ × Kernel
unfolding task_curtask
task_fork clone unset k newtask context =
    let curtask = k.tasks (task_curtask k) in
    let pid = k.task_count in
    let (shared, table) = fd_table_clone unset k.files.shared curtask.table in
    let old = k.tasks newtask in
    let begun = record old { pid = pid; brk = curtask.brk; context = context } in
    let made = record begun {
      exit_status = running;
      wait = wait_none;
      page_dir = clone curtask.page_dir;
      table = table;
      cwd = pathbuf_copy curtask.cwd;
      parent = task_curtask k;
      chwait = 0;
    } in
    if context.eip == resumed
    then (0, record (set_task k newtask begun) { task_count = u32 (k.task_count + 1) })
    else (
      pid,
      record (set_shared (set_task k newtask made) shared) {
        task_count = u32 (k.task_count + 1);
        rr_queue = k.rr_queue ++ (newtask ∷ []);
        tasklist = k.tasklist ++ (newtask ∷ []);
      },
    )

-- `pos` is not set: it is that of `unset`.
unfoldable pub init_fdt : Fd → FdTable
init_fdt unset =
    let in_fd = record unset { access = fd_access_read; ptr = 0; kind = stdin; isopen = true } in
    let out_fd = record unset { access = 2; ptr = 0; kind = stdout; isopen = true } in
    (fd_table_add (fd_table_add (fd_table_create 2) in_fd).1 out_fd).1

abbrev pub entry_or : ℕ → Option ℕ → ℕ
entry_or a none = a
entry_or a (some b) = b

-- `past` gives the words behind the vector.
unfoldable pub task_gettask : (ℕ → ℕ) → Kernel → ℕ → ℕ
task_gettask past k pid = entry_or (past pid) (get_elem? k.tasklist pid)

-- The loop of `task_find_zombie`. An entry that is NULL is read as any other.
unfoldable pub find_zombie : (ℕ → Task) → ℕ → List ℕ → ℕ
find_zombie tasks task [] = 0
find_zombie tasks task (child ∷ l) =
    let later = find_zombie tasks task l in
    if ((tasks child).parent == task) && not ((tasks child).exit_status == running)
    then child
    else later

unfoldable pub task_find_zombie : Kernel → ℕ → ℕ
unfolding find_zombie
task_find_zombie k task = find_zombie k.tasks task k.tasklist

-- The body of the loop of `task_orphan_all`, where the first task is at `init`.
unfoldable pub adopt : (ℕ → Task) → ℕ → ℕ → ℕ → ℕ → Task
adopt tasks task init child =
    if (tasks child).parent == task
    then at tasks child (record (tasks child) { parent = init })
    else tasks

-- The loop.
unfoldable pub orphan : (ℕ → Task) → ℕ → ℕ → List ℕ → ℕ → Task
orphan tasks task init [] = tasks
orphan tasks task init (child ∷ l) = orphan (adopt tasks task init child) task init l

abbrev pub init_pid : ℕ
init_pid = 1

unfoldable pub task_orphan_all : (ℕ → ℕ) → Kernel → ℕ → Kernel
unfolding orphan task_gettask
task_orphan_all past k task = record k {
  tasks = orphan k.tasks task (task_gettask past k init_pid) k.tasklist;
}

-- `task_free` gives memory back to the heap; the struct itself is kept.
unfoldable pub task_killtask : (ℕ → ℕ) → Kernel → ℕ → Kernel
unfolding task_orphan_all
task_killtask past k task =
    let pid = (k.tasks task).pid in
    let k1 = task_orphan_all past k task in record k1 { tasklist = set k1.tasklist pid 0 }

-- The loop of `task_close_all_fds`, from index `i`, with `n` rounds left.
unfoldable pub close_fds : ℕ → ℕ → Shared → FdTable → Shared × FdTable
close_fds i zero s table = (s, table)
close_fds i (suc n) s table =
    let (s1, table1) = fd_table_close s table i in close_fds (i + 1) n s1 table1

unfoldable pub task_close_all_fds : Kernel → Kernel
unfolding close_fds task_curtask
task_close_all_fds k =
    let t = k.tasks (task_curtask k) in
    let (shared, table) = close_fds 0 (length t.table.records) k.files.shared t.table in
    set_task (set_shared k shared) (task_curtask k) (record t { table = table })

-- `first` is what kmalloc returns.
unfoldable pub multitasking_init : Fd → Kernel → ℕ → Kernel
unfolding init_fdt
multitasking_init unset k first =
    let t = record (k.tasks first) {
      pid = k.task_count;
      page_dir = k.current_page_directory;
      brk = 0;
      table = init_fdt unset;
      cwd = pathbuf_root;
      wait = wait_none;
      exit_status = running;
      chwait = 0;
      parent = 0;
    } in
    record (set_task k first t) {
      task_count = u32 (k.task_count + 1);
      rr_queue = first ∷ [];
      current_task = first;
      tasklist = first ∷ [];
    }

unfoldable pub task_timer : Kernel → Context → Kernel
unfolding task_switch
task_timer k context = task_switch k context false
