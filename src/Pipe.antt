-- ===== src/Pipe.antt =====
-- src/pipe.c and src/pipe.h: a pipe is a queue of messages under a semaphore. A message is the
-- buffer that `pipe_write` allocates, without the terminator behind it; `kmalloc` is taken to return
-- a buffer, since the code does not test it. The copies that the code makes with memcpy are given
-- by what they leave, as Memory/Copy.antt proves it.
pub mod Stream
pub mod Counts
use eedox.Base.{
  ℕ, zero, suc, ◌+◌, ◌-◌, ◌*◌, ◌/◌, ◌%◌, ◌^◌, ◌≤◌, ◌<◌, min, max, ◌≡◌, ◌≢◌, ◌↔◌, ◌⊎◌, inl, inr,
  refl, sym, ap, ap₂, ◌∙◌, subst, fun_ext, Bool, true, false, ◌&&◌, ◌||◌, not, Option, none, some,
  List, [], ◌∷◌, ◌++◌, map, append-nil, append_assoc, arith, ltb, leb, ◌==◌, if◌then◌else◌, u32,
  sub32, ==_iff, Bool-cases, Option-cases, length, get_elem?, set, take, drop, length-append,
  length-set, get_elem?-set_self, get_elem?-set_ne, length-take, length-drop,
}
use eedox.Base.Int.{ℤ, pos, negsuc, pos_part, neg_part, sub_ℕ, ◌+ℤ◌, ◌-ℤ◌, ◌≤ℤ◌, leb_ℤ, ltb_ℤ}
use eedox.Semaphore.{Semaphore, ksemaphore_init, ksemaphore_wait, ksemaphore_signal}

pub record Pipe : Type 0 where
  pub list : List (List ℕ)
  pub reader_count : ℕ
  pub writer_count : ℕ
  pub dead : Bool
  pub lock : Semaphore

unfoldable pub pipe_new : Pipe
pipe_new = record {
  list = [];
  reader_count = 1;
  writer_count = 1;
  dead = false;
  lock = ksemaphore_init 0;
}

-- The text that a buffer holds: what `strlen` counts.
unfoldable pub until_nul : List ℕ → List ℕ
until_nul [] = []
until_nul (c ∷ s) = if c == 0 then [] else c ∷ until_nul s

-- The result has the task that is woken. The length `len` is that of the list.
unfoldable pub pipe_write : Pipe → List ℕ → Option ℕ × Pipe
pipe_write pipe buffer =
    if pipe.reader_count == 0
    then (none, pipe)
    else (let (woken, lock) = ksemaphore_signal pipe.lock in
        (woken, record pipe { list = pipe.list ++ (buffer ∷ []); lock = lock }))

-- `eof`: 0 is returned at once. `sleeps`: the caller sleeps in `ksemaphore_wait`, and goes on with
-- `read_message` when it is woken. `bytes`: the bytes that are copied out and the task that is woken.
-- `fault`: the queue is read while it is empty.
pub data ReadResult : Type 0 where
  eof : ReadResult
  sleeps : Pipe → ReadResult
  bytes : List ℕ → Option ℕ → Pipe → ReadResult
  fault : ReadResult

-- `pipe_read` behind `ksemaphore_wait`.
unfoldable pub read_message : Pipe → ℕ → ReadResult
read_message pipe len = elim (pipe.list) [
  | [] ↦ fault
  | ◌∷◌ message rest ↦
      let input = until_nul message in
      let input_len = length input in
      let count = if ltb input_len len then input_len else len in
      let (woken, lock) = ksemaphore_signal pipe.lock in
      if ltb len input_len
      then bytes (take count input) woken
          (record pipe { list = drop len input ∷ rest; lock = lock })
      else bytes (take count input) none (record pipe { list = rest })
]

unfoldable pub after_wait : ℕ → Bool × Semaphore → Pipe → ReadResult
after_wait len (true, lock) pipe = sleeps (record pipe { lock = lock })
after_wait len (false, lock) pipe = read_message (record pipe { lock = lock }) len

unfoldable pub pipe_read : ℕ → Pipe → ℕ → ReadResult
pipe_read curtask pipe len =
    if (length pipe.list == 0) && (pipe.writer_count == 0)
    then eof
    else after_wait len (ksemaphore_wait curtask pipe.lock) pipe

-- `pipe_destroy` frees every message.
unfoldable pub pipe_destroy : Pipe → Pipe
pipe_destroy pipe = record pipe { list = [] }

abbrev close_if_unused : Pipe → ℕ × Pipe
close_if_unused pipe =
    if (pipe.reader_count == 0) && (pipe.writer_count == 0)
    then (1, record (pipe_destroy pipe) { dead = true })
    else (0, pipe)

unfoldable pub pipe_close_rd : Pipe → ℕ × Pipe
pipe_close_rd pipe = close_if_unused (record pipe { reader_count = sub32 pipe.reader_count 1 })

unfoldable pub pipe_close_wr : Pipe → ℕ × Pipe
pipe_close_wr pipe = close_if_unused (record pipe { writer_count = sub32 pipe.writer_count 1 })
