-- ===== src/Tests/State.antt =====
-- A kernel with three tasks, for the other runs.
use eedox.Base.{ℕ, true, false, [], ◌∷◌, ◌==◌, if◌then◌else◌}
use eedox.Fs.Disk.{Sector}
use eedox.Fs.Tree.{Files}
use eedox.Rwlock.{krwlock_init}
use eedox.Descriptor.{FdTable}
use eedox.Pipe.{pipe_new}
use eedox.Pathbuf.{pathbuf_root}
use eedox.Semaphore.{ksemaphore_init}
use eedox.Task.{Context, Task, Wait, wait_none, wait_all, Kernel, running}
use eedox.Syscall.{System}

abbrev pub zeros : Sector
zeros i = 0

abbrev pub start : Context
start = record { eip = 1000; esp = 2000; ebp = 3000 }

abbrev pub empty_table : FdTable
empty_table = record { records = []; cap = 2 }

-- The task with the number `n`, child of the task at `parent`.
abbrev pub task_of : ℕ → ℕ → Wait → Task
task_of n parent wait = record {
  pid = n;
  context = start;
  brk = 0;
  page_dir = 0;
  table = empty_table;
  cwd = pathbuf_root;
  parent = parent;
  exit_status = running;
  chwait = 0;
  wait = wait;
}

-- The inode at 50 is the root.
abbrev pub files : Files
files = record {
  shared = record {
    pipes = λ a. pipe_new;
    refs = λ a. 1;
    parent = λ a. 0;
    inodelist = 50 ∷ [];
    freed = [];
  };
  store = record { disk = λ s i. 0; balloc_ptr = 2 };
  inode =
      λ a. record { isvalid = 1; index = 2; size = 0; alloc = 0; child_count = 0; is_dir = true };
  path = λ a. pathbuf_root;
  lock = λ a. krwlock_init;
  awoken = [];
}

-- The first task is at 10, a shell that waits at 20, and its child, which runs, at 30.
abbrev pub tasks : ℕ → Task
tasks a =
    if a == 10
    then task_of 0 0 wait_none
    else if a == 20
    then task_of 1 10 wait_all
    else task_of 2 20 wait_none

abbrev pub kernel : Kernel
kernel = record {
  tasks = tasks;
  tasklist = 10 ∷ 20 ∷ 30 ∷ [];
  rr_queue = 30 ∷ 10 ∷ [];
  task_count = 3;
  current_task = 30;
  current_page_directory = 0;
  buffer = start;
  files = files;
}

abbrev pub system : System
system = record {
  input = record {
    key_shift = false;
    key_ctrl = false;
    key_alt = false;
    terminal_buffer = [];
    input_list = [];
    reader_task = 0;
    keyboard_input_size = 0;
    glb_term = record {
      active = false;
      currow = 0;
      curcol = 0;
      cells = zeros;
      frame_buffer = zeros;
      cursor = 0;
    };
    multitasking_flag = true;
    kernel = kernel;
  };
  stdin_lock = ksemaphore_init 1;
  mq_entries = [];
}
