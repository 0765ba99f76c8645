-- ===== src/Tests/OnLocks.antt =====
-- Runs of the semaphore and of the lock of src/lock.c.
use eedox.Base.{arith, ◌+◌, ◌≤◌, min, ◌≡◌, ◌⊎◌, refl, true, false, [], ◌∷◌, ◌++◌, length}
use eedox.Semaphore.System.{calls, start, wait, signal, passed-min}
use eedox.Rwlock.{op_read, krwlock_init, krwlock_read, read_waits, read_enter, wake_readers}
use eedox.Rwlock.System.{System, Reach, here, next, read}
use eedox.Rwlock.Safety.{exclusion_of_prompt}
use eedox.Rwlock.Overlap.{two_writers, reader_and_writer}

passed-min_example :
    let s = calls (start 1) (wait 3 ∷ wait 4 ∷ wait 5 ∷ signal ∷ []) in
    (s.passed ≡ min s.waits (1 + s.signals)) × (s.slept ≡ s.woken ++ s.sem.sq)
passed-min_example = passed-min 1 (wait 3 ∷ wait 4 ∷ wait 5 ∷ signal ∷ []) (omega arith)

-- Two readers.
abbrev both_reading : System
both_reading = record {
  lock = record { waiting = []; readers = 2; operation = op_read };
  reading = 4 ∷ 3 ∷ [];
  writing = [];
  woken = [];
}

both_reading-Reach : Reach true both_reading
unfolding eedox.Rwlock.System.start krwlock_init krwlock_read read_waits read_enter wake_readers
both_reading-Reach = next (next here (read 3 refl refl)) (read 4 refl refl)

exclusion_of_prompt_example :
    (length both_reading.writing ≤ 1) × ((both_reading.writing ≡ []) ⊎ (both_reading.reading ≡ []))
exclusion_of_prompt_example = exclusion_of_prompt both_reading both_reading-Reach

two_writers_example : (s : System) × Reach false s × (s.writing ≡ 4 ∷ 5 ∷ [])
two_writers_example = two_writers 3 4 5

reader_and_writer_example :
    (s : System) × Reach false s × (s.writing ≡ 4 ∷ []) × (s.reading ≡ 5 ∷ [])
reader_and_writer_example = reader_and_writer 3 4 5
