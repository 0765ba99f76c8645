-- ===== src/Syscall/Waiting.antt =====
-- syscall_wait and syscall_exit of src/syscall.c against each other.
use eedox.Base.{
  ℕ, ◌%◌, ◌^◌, ◌≡◌, ◌≢◌, refl, ap, ap₂, ◌∙◌, true, false, List, [], ◌∷◌, ◌++◌, arith, ◌==◌, ==_iff,
}
use eedox.Task.{
  Context, wait_none, Kernel, resumed, set_task, head_of, task_curtask, task_awake, task_switch,
  switch_from, switch_to, task_killtask, task_close_all_fds,
}
use eedox.Syscall.{
  System, ret, sleeping, kernel_of, set_kernel, wait_after, is_awaited, tell_parent, syscall_exit,
  task_sleep,
}

-- The task that goes to sleep leaves the queue.
sleep_queue :
    (k : Kernel) (c : Context) (t u : ℕ) (q : List ℕ)
    → c.eip ≢ resumed
    → k.rr_queue ≡ t ∷ u ∷ q
    → (task_sleep k c).rr_queue ≡ u ∷ q
unfolding task_switch switch_from switch_to
sleep_queue k c t u q saved e = let d : (c.eip == resumed) ≡ false = ground arith in rw (e, d) refl

-- The other tasks stay as they are.
sleep_other :
    (k : Kernel) (c : Context) (t u v : ℕ) (q : List ℕ)
    → c.eip ≢ resumed
    → k.rr_queue ≡ t ∷ u ∷ q
    → v ≢ t
    → (task_sleep k c).tasks v ≡ k.tasks v
unfolding task_switch switch_from switch_to
sleep_other k c t u v q saved e n =
    let d : (c.eip == resumed) ≡ false = ground arith in
    let o : (v == t) ≡ false = ground arith in rw (e, d, o) refl

-- What does not change of the task that sleeps.
sleep_same :
    (k : Kernel) (c : Context) (t u : ℕ) (q : List ℕ)
    → c.eip ≢ resumed
    → k.rr_queue ≡ t ∷ u ∷ q
    → (task_sleep k c).tasks t ≡ record (k.tasks t) { context = c }
unfolding task_switch switch_from switch_to
sleep_same k c t u q saved e =
    let d : (c.eip == resumed) ≡ false = ground arith in
    let o : (t == t) ≡ true = (==_iff t t).1 refl in rw (e, d, o) refl

-- The same where the queue is seen from its end.
sleep_queue_end :
    (k : Kernel) (c : Context) (t : ℕ) (q : List ℕ) (p : ℕ)
    → c.eip ≢ resumed
    → k.rr_queue ≡ t ∷ (q ++ (p ∷ []))
    → ((task_sleep k c).rr_queue ≡ q ++ (p ∷ []))
      × ((v : ℕ) → v ≢ t → (task_sleep k c).tasks v ≡ k.tasks v)
      × ((task_sleep k c).tasks t ≡ record (k.tasks t) { context = c })
sleep_queue_end k c t [] p saved e = (
  sleep_queue k c t p [] saved e,
  (λ v n. sleep_other k c t p v [] saved e n),
  sleep_same k c t p [] saved e,
)
sleep_queue_end k c t (u ∷ q) p saved e = (
  sleep_queue k c t u (q ++ (p ∷ [])) saved e,
  (λ v n. sleep_other k c t u v (q ++ (p ∷ [])) saved e n),
  sleep_same k c t u (q ++ (p ∷ [])) saved e,
)

-- What `task_close_all_fds` leaves as it is.
module _ (k : Kernel) {c : ℕ} (cur : task_curtask k ≡ c) where
  close_other : (v : ℕ) → v ≢ c → (task_close_all_fds k).tasks v ≡ k.tasks v
  unfolding task_close_all_fds
  close_other v n = let o : (v == c) ≡ false = ground arith in rw (cur, o) refl

  close_same :
      (task_close_all_fds k).tasks c
      ≡ record (k.tasks c) { table = ((task_close_all_fds k).tasks c).table }
  unfolding task_close_all_fds
  close_same = let o : (c == c) ≡ true = (==_iff c c).1 refl in rw (cur, o) refl

close_queue : (k : Kernel) → (task_close_all_fds k).rr_queue ≡ k.rr_queue
unfolding task_close_all_fds
close_queue k = refl

told :
    (k : Kernel) (task parent : ℕ)
    → is_awaited (k.tasks parent).wait (k.tasks parent).chwait task ≡ true
    → tell_parent k task parent
      ≡ task_awake
          (set_task k parent (record (k.tasks parent) { chwait = task; wait = wait_none }))
          parent
unfolding tell_parent
told k task parent e = rw e refl

-- What the last call of a task leaves for its parent, which has been woken.
pub record IsTold (past : ℕ → ℕ) (s : System) (q : List ℕ) (parent child pid status : ℕ)
    : Type 0 where
  pub queue : (kernel_of s).rr_queue ≡ q ++ (parent ∷ [])
  pub stops : ((kernel_of s).tasks parent).wait ≡ wait_none
  pub waits :
      wait_after past s parent
      ≡ ret (pid, status) (set_kernel s (task_killtask past (kernel_of s) child))

-- The task has its status.
abbrev ended : Kernel → ℕ → ℕ → Kernel
ended k task status = set_task k task (record (k.tasks task) { exit_status = status % 2 ^ 16 })

module _ (k : Kernel) (context : Context) (status child : ℕ) (q : List ℕ)
    (e : k.rr_queue ≡ child ∷ q) (saved : context.eip ≢ resumed)
    (n : (k.tasks child).parent ≢ child) where
  abbrev closed : Kernel
  closed = task_close_all_fds (ended k child status)

  abbrev parent_of : ℕ
  parent_of = (k.tasks child).parent

  abbrev informed : Kernel
  informed =
      task_awake
        (set_task closed parent_of
          (record (closed.tasks parent_of) { chwait = child; wait = wait_none }))
        parent_of

  abbrev asleep : Kernel
  asleep = task_sleep informed context

  cur : task_curtask (ended k child status) ≡ child
  unfolding task_curtask
  cur = ap head_of e

  parent_kept : closed.tasks parent_of ≡ k.tasks parent_of
  parent_kept =
      let o : (parent_of == child) ≡ false = ground arith in
      close_other (ended k child status) cur parent_of n ∙ rw o refl

  child_closed : (closed.tasks child).pid ≡ (k.tasks child).pid
  child_closed =
      let o : (child == child) ≡ true = (==_iff child child).1 refl in
      ap (λ t. t.pid) (close_same (ended k child status) cur) ∙ rw o refl

  child_ended : (closed.tasks child).exit_status ≡ status % 2 ^ 16
  child_ended =
      let o : (child == child) ≡ true = (==_iff child child).1 refl in
      ap (λ t. t.exit_status) (close_same (ended k child status) cur) ∙ rw o refl

  informed_queue : informed.rr_queue ≡ child ∷ (q ++ (parent_of ∷ []))
  unfolding task_awake
  informed_queue = ap (λ l. l ++ (parent_of ∷ [])) (close_queue (ended k child status) ∙ e)

  informed_child : informed.tasks child ≡ closed.tasks child
  unfolding task_awake
  informed_child = let o : (child == parent_of) ≡ false = ground arith in rw o refl

  informed_parent :
      informed.tasks parent_of
      ≡ record (closed.tasks parent_of) { chwait = child; wait = wait_none }
  unfolding task_awake
  informed_parent =
      let o : (parent_of == parent_of) ≡ true = (==_iff parent_of parent_of).1 refl in rw o refl

  asleep-facts :
      (asleep.rr_queue ≡ q ++ (parent_of ∷ []))
      × ((v : ℕ) → v ≢ child → asleep.tasks v ≡ informed.tasks v)
      × (asleep.tasks child ≡ record (informed.tasks child) { context = context })
  asleep-facts = sleep_queue_end informed context child q parent_of saved informed_queue

-- `syscall_exit` of the task in front of the queue, called with the context of a first return,
-- where its parent is another task that waits for it, puts the parent at the end of the queue,
-- takes the caller out, and sleeps; where the parent goes on in `syscall_wait`, it gets the
-- number of the child and the low 16 bits of the status that the child gave, and takes the child
-- out of the table.
pub exit-IsTold :
    (past : ℕ → ℕ) (s : System) (context : Context) (status child : ℕ) (q : List ℕ)
    → (kernel_of s).rr_queue ≡ child ∷ q
    → context.eip ≢ resumed
    → let k = kernel_of s in
      let parent = (k.tasks child).parent in
      parent ≢ child
      → is_awaited (k.tasks parent).wait (k.tasks parent).chwait child ≡ true
      → (s' : System) × (syscall_exit s context status ≡ sleeping s')
        × IsTold past s' q parent child (k.tasks child).pid (status % 2 ^ 16)
unfolding syscall_exit task_curtask wait_after
exit-IsTold past s context status child q e saved n awaited =
    let k = kernel_of s in
    let parent = (k.tasks child).parent in
    let k2 = closed k context status child q e saved n in
    let k3 = informed k context status child q e saved n in
    let k4 = task_sleep k3 context in
    let kept = parent_kept k context status child q e saved n in
    let (queue, others, own) = asleep-facts k context status child q e saved n in
    let up = others parent n ∙ informed_parent k context status child q e saved n in
    let down =
      ap (λ t. t.pid) own ∙ ap (λ t. t.pid) (informed_child k context status child q e saved n) in
    let done =
      ap (λ t. t.exit_status) own
      ∙ ap (λ t. t.exit_status) (informed_child k context status child q e saved n) in
    (
      set_kernel s k4,
      ap
            (λ t. sleeping (
              set_kernel s (
                task_sleep
                  (tell_parent (task_close_all_fds (ended k t status)) t (k.tasks t).parent)
                  context)))
            (ap head_of e)
          ∙ ap (λ x. sleeping (set_kernel s (task_sleep x context)))
              (told k2 child parent (ap (λ t. is_awaited t.wait t.chwait child) kept ∙ awaited)),
      record {
        queue = queue;
        stops = ap (λ t. t.wait) up;
        waits =
            ap
              (λ c.
                ret ((k4.tasks c).pid, (k4.tasks c).exit_status)
                  (set_kernel s (task_killtask past k4 c)))
              (ap (λ t. t.chwait) up)
            ∙ ap₂ (λ a b. ret (a, b) (set_kernel s (task_killtask past k4 child)))
                (down ∙ child_closed k context status child q e saved n)
                (done ∙ child_ended k context status child q e saved n);
      },
    )
