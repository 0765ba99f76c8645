-- ===== src/Tests/OnPipe.antt =====
-- Runs of the pipe of src/pipe.c.
use eedox.Base.{ℕ, refl, false, List, [], ◌∷◌, arith}
use eedox.Base.Int.{pos}
use eedox.Pipe.{Pipe}
use eedox.Pipe.Stream.{IsReady, put, get, Streamed, run-Streamed}

-- A pipe with the message `abc`.
abbrev one_message : Pipe
one_message = record {
  list = (97 ∷ 98 ∷ 99 ∷ []) ∷ [];
  reader_count = 1;
  writer_count = 1;
  dead = false;
  lock = record { value = pos 1; sq = [] };
}

one_message-IsReady : IsReady one_message
one_message-IsReady = record { value = refl; awake = refl }

abbrev de : List ℕ
de = 100 ∷ 101 ∷ []

run-Streamed_example : Streamed [] one_message (get 2 ∷ put de ∷ get 2 ∷ get 8 ∷ [])
run-Streamed_example =
    run-Streamed (get 2 ∷ put de ∷ get 2 ∷ get 8 ∷ []) [] one_message (omega arith) (omega arith)
      one_message-IsReady

-- Two ends for reading and one for writing.
abbrev three_ends : Pipe
three_ends = record one_message { reader_count = 2 }
