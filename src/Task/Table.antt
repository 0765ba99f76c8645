-- ===== src/Task/Table.antt =====
-- The list of all tasks of src/task.c, by their numbers.
use eedox.Base.{
  ℕ, zero, suc, ◌+◌, ◌^◌, ◌<◌, ◌≡◌, ◌≢◌, ◌⊎◌, inl, inr, refl, sym, ap, ◌∙◌, subst, true, false,
  some, List, [], ◌∷◌, ◌++◌, arith, ◌==◌, ==_iff, Bool-cases, length, get_elem?, set, length-append,
  length-set, get_elem?-set_self, get_elem?-set_ne,
}
use eedox.Descriptor.{Fd}
use eedox.Pathbuf.{pathbuf_copy}
use eedox.Task.{
  Context, Task, Kernel, running, resumed, task_curtask, task_fork, task_gettask, entry_or, adopt,
  orphan, init_pid, task_orphan_all, task_killtask,
}
use eedox.Task.Schedule.{IsNot, not_here, not_first}

-- The entry of each process is NULL or has a task with that number.
pub record IsTable (k : Kernel) : Type 0 where
  pub count : length k.tasklist ≡ k.task_count
  pub pid : (p a : ℕ) → get_elem? k.tasklist p ≡ some a → a ≢ 0 → (k.tasks a).pid ≡ p

module _ (task init : ℕ) where
  adopt-pid : (tasks : ℕ → Task) (child a : ℕ) → (adopt tasks task init child a).pid ≡ (tasks a).pid
  unfolding adopt
  adopt-pid tasks child a = elim (Bool-cases ((tasks child).parent == task)) [
    | inr e ↦ rw e refl
    | inl e ↦ elim (Bool-cases (a == child)) [
      | inl d ↦ rw (e, d) (ap (λ x. (tasks x).pid) (ground arith))
      | inr d ↦ rw (e, d) refl
    ]
  ]

  adopt-kept :
      (tasks : ℕ → Task) (child a : ℕ)
      → (tasks a).parent ≢ task
      → (adopt tasks task init child a).parent ≡ (tasks a).parent
  unfolding adopt
  adopt-kept tasks child a n = elim (Bool-cases ((tasks child).parent == task)) [
    | inr e ↦ rw e refl
    | inl e ↦ elim (Bool-cases (a == child)) [
      | inl d ↦
          let same : a ≡ child = (==_iff a child).0 d in
          absurd (n (ap (λ x. (tasks x).parent) same ∙ (==_iff (tasks child).parent task).0 e))
      | inr d ↦ rw (e, d) refl
    ]
  ]

  adopt-done :
      (tasks : ℕ → Task) (child : ℕ)
      → init ≢ task
      → (adopt tasks task init child child).parent ≢ task
  unfolding adopt
  adopt-done tasks child n = elim (Bool-cases ((tasks child).parent == task)) [
    | inl e ↦ let same : (child == child) ≡ true = (==_iff child child).1 refl in rw (e, same) n
    | inr e ↦ rw e (ground arith)
  ]

  orphan-pid :
      (tasks : ℕ → Task) (l : List ℕ) (a : ℕ) → (orphan tasks task init l a).pid ≡ (tasks a).pid
  unfolding orphan
  orphan-pid tasks [] a = refl
  orphan-pid tasks (child ∷ l) a =
      orphan-pid (adopt tasks task init child) l a ∙ adopt-pid tasks child a

  orphan-kept :
      (tasks : ℕ → Task) (l : List ℕ) (a : ℕ)
      → (tasks a).parent ≢ task
      → (orphan tasks task init l a).parent ≡ (tasks a).parent
  unfolding orphan
  orphan-kept tasks [] a n = refl
  orphan-kept tasks (child ∷ l) a n =
      let e = adopt-kept tasks child a n in
      orphan-kept (adopt tasks task init child) l a (λ d. n (sym e ∙ d)) ∙ e

  orphan-done :
      (tasks : ℕ → Task) (l : List ℕ) (p a : ℕ)
      → init ≢ task
      → get_elem? l p ≡ some a
      → (orphan tasks task init l a).parent ≢ task
  unfolding orphan
  orphan-done tasks [] p a n h = absurd cc
  orphan-done tasks (child ∷ l) zero a n h =
      let here : child ≡ a = cc in
      let done =
        subst (λ x. (adopt tasks task init child x).parent ≢ task) here
          (adopt-done tasks child n) in
      λ d. done (sym (orphan-kept (adopt tasks task init child) l a done) ∙ d)
  orphan-done tasks (child ∷ l) (suc p) a n h = orphan-done (adopt tasks task init child) l p a n h

in_range : (l : List ℕ) (p a : ℕ) → get_elem? l p ≡ some a → p < length l
in_range [] p a h = absurd cc
in_range (x ∷ l) zero a h = omega arith
in_range (x ∷ l) (suc p) a h = omega (arith, in_range l p a h)

-- What is not NULL in a list with a new NULL was there before.
left_over :
    (l : List ℕ) (q p a : ℕ)
    → q < length l
    → get_elem? (set l q 0) p ≡ some a
    → a ≢ 0
    → get_elem? l p ≡ some a
left_over l q p a r h n = elim (Bool-cases (q == p)) [
  | inl e ↦
      let d : q ≡ p = (==_iff q p).0 e in
      let z : some 0 ≡ some a =
        sym (get_elem?-set_self l q 0 r) ∙ ap (get_elem? (set l q 0)) d ∙ h in
      absurd (n (sym (some_inj z)))
  | inr e ↦ sym (get_elem?-set_ne l 0 (ground arith)) ∙ h
]
  where
    some_inj : {x y : ℕ} → some x ≡ some y → x ≡ y
    some_inj e = cc

-- `task_killtask` of a task in the table takes it out, and keeps the table valid; where the first task
-- is another one, no task that is listed has it as its parent any more, and the parents of the others
-- stay.
pub kill-IsTable :
    (past : ℕ → ℕ) (k : Kernel) (task : ℕ)
    → IsTable k
    → get_elem? k.tasklist (k.tasks task).pid ≡ some task
    → task_gettask past k init_pid ≢ task
    → let k' = task_killtask past k task in
      IsTable k'
      × (task_gettask past k' (k.tasks task).pid ≡ 0)
      × ((p a : ℕ) → get_elem? k'.tasklist p ≡ some a → a ≢ 0 → (k'.tasks a).parent ≢ task)
      × ((a : ℕ) → (k.tasks a).parent ≢ task → (k'.tasks a).parent ≡ (k.tasks a).parent)
unfolding task_killtask task_gettask task_orphan_all
kill-IsTable past k task is there n =
    let q = (k.tasks task).pid in
    let r = in_range k.tasklist q task there in
    let init = task_gettask past k init_pid in
    (
      record {
        count = length-set k.tasklist q 0 ∙ is.count;
        pid = λ p a h ne.
            orphan-pid task init k.tasks k.tasklist a
            ∙ is.pid p a (left_over k.tasklist q p a r h ne) ne;
      },
      ap (entry_or (past q)) (get_elem?-set_self k.tasklist q 0 r),
      (λ p a h ne.
          orphan-done task init k.tasks k.tasklist p a n (left_over k.tasklist q p a r h ne)),
      orphan-kept task init k.tasks k.tasklist,
    )

get_elem?-snoc :
    (l : List ℕ) (t p a : ℕ)
    → get_elem? (l ++ (t ∷ [])) p ≡ some a
    → (get_elem? l p ≡ some a) ⊎ ((p ≡ length l) × (a ≡ t))
get_elem?-snoc [] t zero a h = inr (refl, cc)
get_elem?-snoc [] t (suc p) a h = absurd cc
get_elem?-snoc (x ∷ l) t zero a h = inl h
get_elem?-snoc (x ∷ l) t (suc p) a h = elim (get_elem?-snoc l t p a h) [
  | inl e ↦ inl e
  | inr (e, d) ↦ inr (ap suc e, d)
]

get_elem?-last : (l : List ℕ) (t : ℕ) → get_elem? (l ++ (t ∷ [])) (length l) ≡ some t
get_elem?-last [] t = refl
get_elem?-last (x ∷ l) t = get_elem?-last l t

IsNot-listed : {t : ℕ} {l : List ℕ} → IsNot t l → (p a : ℕ) → get_elem? l p ≡ some a → a ≢ t
IsNot-listed not_here p a h = absurd cc
IsNot-listed (not_first n m) zero a h = λ e. n (cc)
IsNot-listed (not_first n m) (suc p) a h = IsNot-listed m p a h

-- `task_fork`, on its first return, keeps the table valid, for a new task at an address that is not
-- in it and fewer than 2^32 - 1 tasks so far. The new task has the number that is returned, runs, is
-- the child of the caller, in the same directory, and stands at the end of the queue.
pub fork-IsTable :
    (clone : ℕ → ℕ) (unset : Fd) (k : Kernel) (newtask : ℕ) (context : Context)
    → IsTable k
    → IsNot newtask k.tasklist
    → k.task_count + 1 < 2 ^ 32
    → context.eip ≢ resumed
    → let r = task_fork clone unset k newtask context in
      let t = r.1.tasks newtask in
      IsTable r.1
      × (get_elem? r.1.tasklist r.0 ≡ some newtask)
      × (t.pid ≡ r.0)
      × (t.exit_status ≡ running)
      × (t.parent ≡ task_curtask k)
      × (t.cwd ≡ (k.tasks (task_curtask k)).cwd)
      × (r.1.rr_queue ≡ k.rr_queue ++ (newtask ∷ []))
unfolding task_fork pathbuf_copy
fork-IsTable clone unset k newtask context is new small saved =
    let e : (context.eip == resumed) ≡ false = ground arith in
    let same : (newtask == newtask) ≡ true = (==_iff newtask newtask).1 refl in
    rw (e, same)
      (
        record {
          count = omega (arith, is.count, length-append k.tasklist (newtask ∷ []));
          pid = λ p a h ne. elim (get_elem?-snoc k.tasklist newtask p a h) [
            | inl h' ↦
                let other : (a == newtask) ≡ false = ground (arith, IsNot-listed new p a h') in
                rw other (is.pid p a h' ne)
            | inr (d, d') ↦
                let here : (a == newtask) ≡ true = (==_iff a newtask).1 d' in
                rw here (sym is.count ∙ sym d)
          ];
        },
        ap (get_elem? (k.tasklist ++ (newtask ∷ []))) (sym is.count)
            ∙ get_elem?-last k.tasklist newtask,
        refl,
        refl,
        refl,
        refl,
        refl,
      )
