-- ===== src/Rwlock/System.antt =====
-- Tasks that share one lock of src/lock.c: a step is one call, or the rest of a call of a task that
-- has been woken.
use eedox.Base.{ℕ, ◌≡◌, Bool, true, false, List, [], ◌∷◌, ◌++◌}
use eedox.Rwlock.{
  Operation, op_read, op_write, Rwlock, Result, sleeps, runs, krwlock_init, read_enter,
  krwlock_read, write_enter, krwlock_write, krwlock_release,
}

-- Who has returned from `krwlock_read` and from `krwlock_write` and has not called
-- `krwlock_release`, and who is back on the run queue inside one of the two.
pub record System : Type 0 where
  pub lock : Rwlock
  pub reading : List ℕ
  pub writing : List ℕ
  pub woken : List (ℕ × Operation)

unfoldable pub start : System
start = record { lock = krwlock_init; reading = []; writing = []; woken = [] }

-- The call of `krwlock_read` or `krwlock_write` by `t` ends with this result.
abbrev pub read_result : ℕ → System → Result → System
read_result t s (sleeps lock) = record s { lock = lock }
read_result t s (runs woken lock) = record s {
  lock = lock;
  reading = t ∷ s.reading;
  woken = s.woken ++ woken;
}

abbrev pub write_result : ℕ → System → Result → System
write_result t s (sleeps lock) = record s { lock = lock }
write_result t s (runs woken lock) = record s {
  lock = lock;
  writing = t ∷ s.writing;
  woken = s.woken ++ woken;
}

abbrev pub release_result : System → Result → System
release_result s (sleeps lock) = record s { lock = lock }
release_result s (runs woken lock) = record s { lock = lock; woken = s.woken ++ woken }

-- With `prompt` a task makes a call only when no woken task has yet to go on.
abbrev pub Allowed : Bool → System → Type 0
Allowed true s = s.woken ≡ []
Allowed false s = Unit

pub data Step (prompt : Bool) (s u : System) : Type 0 where
  read : (t : ℕ) → Allowed prompt s → u ≡ read_result t s (krwlock_read t s.lock) → Step prompt s u
  write :
      (t : ℕ) → Allowed prompt s → u ≡ write_result t s (krwlock_write t s.lock) → Step prompt s u
  release_read :
      (xs : List ℕ) (t : ℕ) (ys : List ℕ)
      → Allowed prompt s
      → s.reading ≡ xs ++ (t ∷ ys)
      → u ≡ release_result (record s { reading = xs ++ ys }) (krwlock_release s.lock)
      → Step prompt s u
  release_write :
      (xs : List ℕ) (t : ℕ) (ys : List ℕ)
      → Allowed prompt s
      → s.writing ≡ xs ++ (t ∷ ys)
      → u ≡ release_result (record s { writing = xs ++ ys }) (krwlock_release s.lock)
      → Step prompt s u
  resume_read :
      (xs : List (ℕ × Operation)) (t : ℕ) (ys : List (ℕ × Operation))
      → s.woken ≡ xs ++ ((t, op_read) ∷ ys)
      → u ≡ read_result t (record s { woken = xs ++ ys }) (read_enter s.lock)
      → Step prompt s u
  resume_write :
      (xs : List (ℕ × Operation)) (t : ℕ) (ys : List (ℕ × Operation))
      → s.woken ≡ xs ++ ((t, op_write) ∷ ys)
      → u ≡ write_result t (record s { woken = xs ++ ys }) (write_enter s.lock)
      → Step prompt s u

pub data Reach (prompt : Bool) : System → Type 0 where
  here : Reach prompt start
  next : {s u : System} → Reach prompt s → Step prompt s u → Reach prompt u
