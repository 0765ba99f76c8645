-- ===== src/Tests/OnDescriptor.antt =====
-- Runs of the descriptors of src/descriptor.c.
use eedox.Base.{◌+◌, ◌≡◌, true, false, [], ◌∷◌, arith}
use eedox.Base.Int.{pos}
use eedox.Pipe.{Pipe}
use eedox.Descriptor.{stdin, pipe, Fd, FdTable, Shared, fd_table_close, fd_table_clone}
use eedox.Descriptor.Counts.{PipeEnd, counted, open_on, close-counted, clone-counted}

-- Two readers and one writer.
abbrev one_pipe : Pipe
one_pipe = record {
  list = [];
  reader_count = 2;
  writer_count = 1;
  dead = false;
  lock = record { value = pos 0; sq = [] };
}

abbrev shared : Shared
shared = record {
  pipes = λ x. one_pipe;
  refs = λ x. 1;
  parent = λ x. 0;
  inodelist = [];
  freed = [];
}

abbrev reader : Fd
reader = record { kind = pipe; place = 0; isopen = true; access = 1; ptr = 64 }

abbrev closed_fd : Fd
closed_fd = record { kind = stdin; place = 0; isopen = false; access = 1; ptr = 0 }

-- A closed record, a reader of the pipe at 64, and its writer.
abbrev table : FdTable
table = record { records = closed_fd ∷ reader ∷ record reader { access = 2 } ∷ []; cap = 4 }

-- The end of that pipe that is read from.
abbrev read_end : PipeEnd
read_end = record { ptr = 64; reads = true }

close-counted_example :
    let (s', table') = fd_table_close shared table 1 in
    counted s' read_end + 1 ≡ 2 + open_on read_end table'.records
unfolding open_on
close-counted_example = close-counted read_end shared table 1 (omega arith) (omega arith)

clone-counted_example :
    let (s', table') = fd_table_clone closed_fd shared table in
    (counted s' read_end ≡ 2 + open_on read_end table'.records)
    × (open_on read_end table'.records ≡ 1)
unfolding open_on
clone-counted_example = clone-counted read_end closed_fd shared table (omega arith)
