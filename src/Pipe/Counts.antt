-- ===== src/Pipe/Counts.antt =====
-- The ends of a pipe of src/pipe.c are closed one by one.
use eedox.Base.{ℕ, suc, ◌+◌, ◌^◌, ◌<◌, ◌≡◌, ap, ap₂, true, List, [], ◌∷◌, arith}
use eedox.Pipe.{Pipe, pipe_destroy, pipe_close_rd, pipe_close_wr}

pub data End : Type 0 where
  rd wr : End

unfoldable pub close : End → Pipe → ℕ × Pipe
close rd p = pipe_close_rd p
close wr p = pipe_close_wr p

-- The results of closing the listed ends, in order, and the pipe that is left.
unfoldable pub close_all : List End → Pipe → List ℕ × Pipe
close_all [] p = ([], p)
close_all (e ∷ es) p = let r = close e p in let rest = close_all es r.1 in (r.0 ∷ rest.0, rest.1)

abbrev pub readers : List End → ℕ
readers [] = 0
readers (rd ∷ es) = suc (readers es)
readers (wr ∷ es) = readers es

abbrev pub writers : List End → ℕ
writers [] = 0
writers (rd ∷ es) = writers es
writers (wr ∷ es) = suc (writers es)

-- 0 for each close but the last, which returns 1.
abbrev pub last_is_one : List End → List ℕ
last_is_one [] = []
last_is_one (e ∷ []) = 1 ∷ []
last_is_one (e ∷ f ∷ es) = 0 ∷ last_is_one (f ∷ es)

-- The pipe has gone: no message, no end, and the mark that a queue looks for.
pub record IsGone (p : Pipe) : Type 0 where
  pub list : p.list ≡ []
  pub dead : p.dead ≡ true
  pub reader_count : p.reader_count ≡ 0
  pub writer_count : p.writer_count ≡ 0

close_last :
    (e : End) (p : Pipe)
    → p.reader_count ≡ readers (e ∷ [])
    → p.writer_count ≡ writers (e ∷ [])
    → ((close e p).0 ≡ 1) × IsGone (close e p).1
unfolding close pipe_close_rd pipe_close_wr pipe_destroy
close_last rd p r w = ground arith
close_last wr p r w = ground arith

-- A close of one of several ends.
close_more :
    (e : End) (es : List End) (p : Pipe)
    → 0 < readers es + writers es
    → p.reader_count ≡ readers (e ∷ es)
    → p.writer_count ≡ writers (e ∷ es)
    → p.reader_count < 2 ^ 32
    → p.writer_count < 2 ^ 32
    → let (result, p') = close e p in
      (result ≡ 0)
      × (p'.reader_count ≡ readers es)
      × (p'.writer_count ≡ writers es)
      × (p'.list ≡ p.list)
      × (p'.dead ≡ p.dead)
unfolding close pipe_close_rd pipe_close_wr
close_more rd es p h r w a b = ground arith
close_more wr es p h r w a b = ground arith

nonempty_count : (e : End) (es : List End) → 0 < readers (e ∷ es) + writers (e ∷ es)
nonempty_count rd es = omega arith
nonempty_count wr es = omega arith

-- When every end of a pipe that its counts, both below 2^32, stand for is closed once, in any
-- order, each close but the last returns 0, so that its caller keeps the pipe, and the last
-- returns 1 and leaves the pipe empty and dead.
pub close_all-IsGone :
    (e : End) (es : List End) (p : Pipe)
    → p.reader_count ≡ readers (e ∷ es)
    → p.writer_count ≡ writers (e ∷ es)
    → p.reader_count < 2 ^ 32
    → p.writer_count < 2 ^ 32
    → ((close_all (e ∷ es) p).0 ≡ last_is_one (e ∷ es)) × IsGone (close_all (e ∷ es) p).1
unfolding close_all
close_all-IsGone e [] p r w a b = let l = close_last e p r w in (ap (λ k. k ∷ []) l.0, l.1)
close_all-IsGone e (f ∷ es) p r w a b =
    let c = close_more e (f ∷ es) p (nonempty_count f es) r w a b in
    let rest =
      close_all-IsGone f es (close e p).1 c.1 c.2 (bounded e c.1 r a) (bounded' e c.2 w b) in
    (ap₂ ◌∷◌ c.0 rest.0, rest.1)
  where
    bounded :
        (e : End) {x y : ℕ}
        → x ≡ readers (f ∷ es)
        → y ≡ readers (e ∷ f ∷ es)
        → y < 2 ^ 32
        → x < 2 ^ 32
    bounded rd h k l = omega arith
    bounded wr h k l = omega arith

    bounded' :
        (e : End) {x y : ℕ}
        → x ≡ writers (f ∷ es)
        → y ≡ writers (e ∷ f ∷ es)
        → y < 2 ^ 32
        → x < 2 ^ 32
    bounded' rd h k l = omega arith
    bounded' wr h k l = omega arith
