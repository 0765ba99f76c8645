-- ===== src/Rwlock/Overlap.antt =====
-- Without that order of steps the lock lets two tasks in.
use eedox.Base.{ℕ, ◌≡◌, refl, false, [], ◌∷◌}
use eedox.Rwlock.{
  krwlock_init, wake_readers, read_waits, read_enter, krwlock_read, write_enter, krwlock_write,
  hand_over, krwlock_release,
}
use eedox.Rwlock.System.{System, start, read, write, release_write, resume_write, Reach, here, next}

-- A task that calls `krwlock_write` between a release and the return of the writer that the
-- release woke is let in, and so is the woken one: for any three tasks a state is reachable in
-- which two hold the lock for writing.
pub two_writers : (a b c : ℕ) → (s : System) × Reach false s × (s.writing ≡ b ∷ c ∷ [])
unfolding start krwlock_init krwlock_write write_enter krwlock_release hand_over
two_writers a b c = (
  _,
  next
      (next
        (next (next (next here (write a tt refl)) (write b tt refl))
          (release_write [] a [] tt refl refl))
        (write c tt refl))
      (resume_write [] b [] refl refl),
  refl,
)

-- In the same way a reader is let in beside the woken writer.
pub reader_and_writer :
    (a b c : ℕ) → (s : System) × Reach false s × (s.writing ≡ b ∷ []) × (s.reading ≡ c ∷ [])
unfolding start krwlock_init krwlock_write write_enter krwlock_release hand_over krwlock_read
    read_waits read_enter wake_readers
reader_and_writer a b c = (
  _,
  next
      (next
        (next (next (next here (write a tt refl)) (write b tt refl))
          (release_write [] a [] tt refl refl))
        (read c tt refl))
      (resume_write [] b [] refl refl),
  refl,
  refl,
)
