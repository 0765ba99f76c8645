-- ===== src/Tests/OnTask.antt =====
-- Runs of the tasks of src/task.c.
use eedox.Base.{ℕ, zero, suc, ◌≡◌, ◌≢◌, ◌++◌, refl, false, [], ◌∷◌, some, arith, get_elem?}
use eedox.Descriptor.{Fd, stdout}
use eedox.Task.{Context, running, task_fork, task_killtask, task_gettask, task_curtask}
use eedox.Task.Schedule.{ticks, no_context, one_context, not_here, not_first, Runs, ticks-same}
use eedox.Task.Table.{IsTable, kill-IsTable, fork-IsTable}
use eedox.Tests.State.{start, kernel}

abbrev later : Context
later = record { eip = 1004; esp = 2004; ebp = 3004 }

ticks-same_example : Runs (ticks (later ∷ start ∷ []) kernel) 30 (10 ∷ []) later
ticks-same_example =
    ticks-same 30 10 [] later (start ∷ []) kernel refl
      (one_context (omega arith) (one_context (omega arith) no_context))
      (not_first (omega arith) not_here) refl

kernel-IsTable : IsTable kernel
kernel-IsTable = record { count = refl; pid = go }
  where
    go : (p a : ℕ) → get_elem? kernel.tasklist p ≡ some a → a ≢ 0 → (kernel.tasks a).pid ≡ p
    go zero a h n = ground arith
    go (suc zero) a h n = ground arith
    go (suc (suc zero)) a h n = ground arith
    go (suc (suc (suc p))) a h n = absurd cc

abbrev no_word : ℕ → ℕ
no_word p = 0

kill-IsTable_example :
    let k' = task_killtask no_word kernel 30 in
    IsTable k'
    × (task_gettask no_word k' 2 ≡ 0)
    × ((p a : ℕ) → get_elem? k'.tasklist p ≡ some a → a ≢ 0 → (k'.tasks a).parent ≢ 30)
    × ((a : ℕ) → (kernel.tasks a).parent ≢ 30 → (k'.tasks a).parent ≡ (kernel.tasks a).parent)
unfolding task_gettask
kill-IsTable_example = kill-IsTable no_word kernel 30 kernel-IsTable refl (omega arith)

abbrev same_dir : ℕ → ℕ
same_dir d = d

abbrev unset : Fd
unset = record { kind = stdout; place = 0; isopen = false; access = 0; ptr = 0 }

fork-IsTable_example :
    let r = task_fork same_dir unset kernel 40 later in
    let t = r.1.tasks 40 in
    IsTable r.1
    × (get_elem? r.1.tasklist r.0 ≡ some 40)
    × (t.pid ≡ r.0)
    × (t.exit_status ≡ running)
    × (t.parent ≡ task_curtask kernel)
    × (t.cwd ≡ (kernel.tasks (task_curtask kernel)).cwd)
    × (r.1.rr_queue ≡ kernel.rr_queue ++ (40 ∷ []))
fork-IsTable_example =
    fork-IsTable same_dir unset kernel 40 later kernel-IsTable
      (not_first (omega arith) (not_first (omega arith) (not_first (omega arith) not_here)))
      (omega arith) (omega arith)
