-- ===== src/Task/Schedule.antt =====
-- The queue of src/task.c is a round: every task in it runs again, with its own registers.
use eedox.Base.{
  ℕ, suc, ◌≡◌, ◌≢◌, refl, sym, ap, ◌∙◌, subst, true, false, List, [], ◌∷◌, ◌++◌, append_assoc,
  arith, ◌==◌, ==_iff, length,
}
use eedox.Task.{Context, Kernel, resumed, set_task, switch_to, switch_from, task_switch, task_timer}

-- The timer interrupts, one after the other; each finds the running task with a context.
unfoldable pub ticks : List Context → Kernel → Kernel
ticks [] k = k
ticks (c ∷ cs) k = ticks cs (task_timer k c)

-- The contexts are ones that a task is interrupted with.
pub data AllSaved : List Context → Type 0 where
  no_context : AllSaved []
  one_context :
      {c : Context} {cs : List Context} → c.eip ≢ resumed → AllSaved cs → AllSaved (c ∷ cs)

-- The task is none of the list.
pub data IsNot (t : ℕ) : List ℕ → Type 0 where
  not_here : IsNot t []
  not_first : {u : ℕ} {q : List ℕ} → t ≢ u → IsNot t q → IsNot t (u ∷ q)

-- The kernel after an interrupt of `t`, where `u` is next.
abbrev after_tick : Kernel → Context → ℕ → ℕ → List ℕ → Kernel
after_tick k c t u q =
    switch_to
      (record (set_task k t (record (k.tasks t) { context = c })) {
        rr_queue = u ∷ (q ++ (t ∷ []));
      })
      u

tick :
    (k : Kernel) (c : Context) (t u : ℕ) (q : List ℕ)
    → c.eip ≢ resumed
    → k.rr_queue ≡ t ∷ u ∷ q
    → task_timer k c ≡ after_tick k c t u q
unfolding task_timer task_switch switch_from
tick k c t u q saved e = let d : (c.eip == resumed) ≡ false = ground arith in rw (e, d) refl

other_task :
    (k : Kernel) (c : Context) (t u v : ℕ) (q : List ℕ)
    → v ≢ t
    → (after_tick k c t u q).tasks v ≡ k.tasks v
unfolding switch_to
other_task k c t u v q n = let e : (v == t) ≡ false = ground arith in rw e refl

-- What holds when the task at the front of the queue runs.
pub record Runs (k : Kernel) (t : ℕ) (q : List ℕ) (context : Context) : Type 0 where
  pub queue : k.rr_queue ≡ t ∷ q
  pub current : k.current_task ≡ t
  pub buffer : k.buffer ≡ context

-- With as many interrupts as tasks stand before it in the queue, at least one, none of them the
-- task itself and none a resumed context, a task runs with the context it has, and those tasks
-- stand behind the others in their order.
pub ticks-Runs :
    (x : ℕ) (xs : List ℕ) (y : ℕ) (ys : List ℕ) (cs : List Context) (k : Kernel)
    → length cs ≡ suc (length xs)
    → AllSaved cs
    → IsNot y (x ∷ xs)
    → k.rr_queue ≡ x ∷ (xs ++ (y ∷ ys))
    → Runs (ticks cs k) y (ys ++ (x ∷ xs)) (k.tasks y).context
unfolding ticks switch_to
ticks-Runs x xs y ys [] k l saved n e = absurd (omega (arith, l))
ticks-Runs x [] y ys (c ∷ []) k l (one_context s no_context) (not_first n n') e =
    subst (λ k'. Runs k' y (ys ++ (x ∷ [])) (k.tasks y).context) (sym (tick k c x y ys s e))
      (record {
        queue = refl;
        current = refl;
        buffer = ap (λ t. t.context) (other_task k c x y y ys n);
      })
ticks-Runs x [] y ys (c ∷ c' ∷ cs) k l saved n e = absurd (omega (arith, l))
ticks-Runs x (x' ∷ xs) y ys (c ∷ cs) k l (one_context s saved) (not_first n n') e =
    let q = xs ++ (y ∷ ys) in
    let k1 = after_tick k c x x' q in
    let r =
      ticks-Runs x' xs y (ys ++ (x ∷ [])) cs k1 (omega (arith, l)) saved n'
        (ap (λ z. x' ∷ z) (append_assoc xs (y ∷ ys) (x ∷ []))) in
    subst (λ k'. Runs (ticks cs k') y (ys ++ (x ∷ x' ∷ xs)) (k.tasks y).context)
      (sym (tick k c x x' q s e))
      (record {
        queue = r.queue ∙ ap (λ z. y ∷ z) (append_assoc ys (x ∷ []) (x' ∷ xs));
        current = r.current;
        buffer = r.buffer ∙ ap (λ t. t.context) (other_task k c x x' y q n);
      })

-- In a queue of several tasks, of which the first stands in it once, with one interrupt for each
-- task, none with a resumed context, the task that ran at first runs again, with the context that
-- it was interrupted with, and the queue is as it was.
pub ticks-same :
    (t u : ℕ) (q : List ℕ) (c : Context) (cs : List Context) (k : Kernel)
    → length cs ≡ suc (length q)
    → AllSaved (c ∷ cs)
    → IsNot t (u ∷ q)
    → k.rr_queue ≡ t ∷ u ∷ q
    → Runs (ticks (c ∷ cs) k) t (u ∷ q) c
unfolding ticks switch_to
ticks-same t u q c cs k l (one_context s saved) n e =
    let k1 = after_tick k c t u q in
    let same : (t == t) ≡ true = (==_iff t t).1 refl in
    let r = ticks-Runs u q t [] cs k1 l saved n refl in
    subst (λ k'. Runs (ticks cs k') t (u ∷ q) c) (sym (tick k c t u q s e))
      (record { queue = r.queue; current = r.current; buffer = r.buffer ∙ rw same refl })
