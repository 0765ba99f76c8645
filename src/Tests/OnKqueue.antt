-- ===== src/Tests/OnKqueue.antt =====
-- Runs of the queue of src/kqueue.c.
use eedox.Base.{ℕ, ◌≡◌, ◌≢◌, refl, false, none, some, [], ◌∷◌, ◌++◌, arith, ◌==◌, if◌then◌else◌}
use eedox.Kqueue.{Heap, Kqueue, done, put, kqueue_push, kqueue_pop}
use eedox.Kqueue.Fifo.{Cells, IsQueue, has, push-snoc, pop-cons}

-- A queue with the value 5 at the address 8.
abbrev one_element : Heap
one_element x = if x == 8 then some (record { next = 0; value = 5 }) else none

abbrev one_queue : Kqueue
one_queue = record { head = 8; tail = 8; size = 1 }

abbrev one_cell : Cells
one_cell = (8, 5) ∷ []

one_queue-IsQueue : IsQueue one_element one_queue one_cell
one_queue-IsQueue = record {
  chain = (omega arith, refl, refl, tt);
  head = refl;
  tail = refl;
  size = refl;
  small = omega arith;
}

push-snoc_example :
    (q' : Kqueue) × (g : Heap) × (kqueue_push 16 one_queue 6 one_element ≡ done q' g)
    × IsQueue g q' (one_cell ++ ((16, 6) ∷ []))
    × ((a : ℕ) → a ≢ 16 → has a one_cell ≡ false → g a ≡ one_element a)
push-snoc_example =
    push-snoc {h = one_element} {q = one_queue} 16 6 {xs = one_cell} one_queue-IsQueue (omega arith)
      refl (omega arith)

pop-cons_example :
    (q' : Kqueue) × (kqueue_pop one_queue one_element ≡ done (5, q') (put one_element 8 none))
    × IsQueue (put one_element 8 none) q' []
pop-cons_example =
    pop-cons {h = one_element} {q = one_queue} {a = 8} {v = 5} {xs = []} one_queue-IsQueue
