-- ===== src/Rwlock.antt =====
-- src/lock.c: the lock of many readers or one writer. `procq` and `opq` are pushed and popped
-- together in every function, so that the model holds them as one list of pairs. `task_sleep` returns
-- when another task wakes the caller: what follows it in `krwlock_read` and `krwlock_write` is a
-- function of its own, which is also what a caller runs that need not sleep. `readers` counts tasks,
-- of which there are fewer than an uint32_t holds.
pub mod System
pub mod Safety
pub mod Overlap
use eedox.Base.{
  ℕ, zero, suc, ◌+◌, ◌-◌, ◌*◌, ◌/◌, ◌%◌, ◌^◌, ◌≤◌, ◌<◌, min, max, ◌≡◌, ◌≢◌, ◌↔◌, ◌⊎◌, inl, inr,
  refl, sym, ap, ap₂, ◌∙◌, subst, fun_ext, Bool, true, false, ◌&&◌, ◌||◌, not, Option, none, some,
  List, [], ◌∷◌, ◌++◌, map, append-nil, append_assoc, arith, ltb, leb, ◌==◌, if◌then◌else◌, u32,
  sub32, ==_iff, Bool-cases, Option-cases, length, get_elem?, set, take, drop, length-append,
  length-set, get_elem?-set_self, get_elem?-set_ne, length-take, length-drop,
}
use eedox.Base.Int.{ℤ, pos, negsuc, pos_part, neg_part, sub_ℕ, ◌+ℤ◌, ◌-ℤ◌, ◌≤ℤ◌, leb_ℤ, ltb_ℤ}

-- KRWLOCK_NONE, KRWLOCK_READ, KRWLOCK_WRITE
pub data Operation : Type 0 where
  op_none op_read op_write : Operation

pub record Rwlock : Type 0 where
  pub waiting : List (ℕ × Operation)
  pub readers : ℕ
  pub operation : Operation

-- A caller goes to sleep, or it goes on and puts the listed tasks back on the run queue.
pub data Result : Type 0 where
  sleeps : Rwlock → Result
  runs : List (ℕ × Operation) → Rwlock → Result

unfoldable pub krwlock_init : Rwlock
krwlock_init = record { waiting = []; readers = 0; operation = op_none }

-- `opq.size && kqueue_peek(&opq) == KRWLOCK_WRITE`
abbrev pub writer_first : List (ℕ × Operation) → Bool
writer_first [] = false
writer_first ((_, op_write) ∷ q) = true
writer_first ((_, _) ∷ q) = false

-- The test of `krwlock_read`.
unfoldable pub read_waits : Rwlock → Bool
read_waits lock = elim (lock.operation) [
  | op_write ↦ true
  | op_read ↦ writer_first lock.waiting
  | op_none ↦ false
]

-- The loop of `krwlock_read`: the readers in front of the queue are woken.
unfoldable pub wake_readers : List (ℕ × Operation) → List (ℕ × Operation) × List (ℕ × Operation)
wake_readers [] = ([], [])
wake_readers ((t, op_read) ∷ q) = let r = wake_readers q in ((t, op_read) ∷ r.0, r.1)
wake_readers ((t, op) ∷ q) = ([], (t, op) ∷ q)

-- `krwlock_read` behind its `if`.
unfoldable pub read_enter : Rwlock → Result
read_enter lock =
    let (woken, rest) = wake_readers lock.waiting in
    runs woken (record { waiting = rest; readers = lock.readers + 1; operation = op_read })

unfoldable pub krwlock_read : ℕ → Rwlock → Result
krwlock_read curtask lock =
    if read_waits lock
    then sleeps (record lock { waiting = lock.waiting ++ ((curtask, op_read) ∷ []) })
    else read_enter lock

-- `krwlock_write` behind its `if`.
unfoldable pub write_enter : Rwlock → Result
write_enter lock = runs [] (record lock { operation = op_write })

unfoldable pub krwlock_write : ℕ → Rwlock → Result
krwlock_write curtask lock = elim (lock.operation) [
  | op_none ↦ write_enter lock
  | _ ↦ sleeps (record lock { waiting = lock.waiting ++ ((curtask, op_write) ∷ []) })
]

-- `krwlock_release` where `flag` is set, with the new number of readers: the first of the queue is
-- woken, and nobody holds the lock.
unfoldable pub hand_over : List (ℕ × Operation) → ℕ → Result
hand_over [] readers = runs [] (record { waiting = []; readers = readers; operation = op_none })
hand_over (x ∷ q) readers =
    runs (x ∷ []) (record { waiting = q; readers = readers; operation = op_none })

unfoldable pub krwlock_release : Rwlock → Result
krwlock_release lock =
    if lock.readers == 0
    then hand_over lock.waiting 0
    else if lock.readers - 1 == 0
    then hand_over lock.waiting (lock.readers - 1)
    else runs [] (record lock { readers = lock.readers - 1 })
