-- ===== src/Pipe/Stream.antt =====
-- A pipe of src/pipe.c carries a stream of bytes.
use eedox.Base.{
  ◌+◌, ◌<◌, ◌≤◌, ◌^◌, ℕ, zero, suc, min, ◌≡◌, ◌≢◌, ◌⊎◌, inl, inr, refl, sym, ap, ◌∙◌, subst, Bool,
  false, Option, none, some, List, [], ◌∷◌, ◌++◌, append-nil, append_assoc, arith, ltb, ◌==◌,
  if◌then◌else◌, Bool-cases, length, take, drop, length-append, length-take,
}
use eedox.Base.Int.{ℤ, pos, ◌+ℤ◌, ◌-ℤ◌, int32, int32_in_range}
use eedox.Semaphore.{ksemaphore_wait, ksemaphore_signal}
use eedox.Pipe.{
  Pipe, until_nul, pipe_write, ReadResult, eof, sleeps, bytes, fault, read_message, after_wait,
  pipe_read,
}

-- The bytes that a pipe holds: of each message what stands before its first NUL.
unfoldable pub stream : List (List ℕ) → List ℕ
stream [] = []
stream (m ∷ ms) = until_nul m ++ stream ms

stream-append : (xs ys : List (List ℕ)) → stream (xs ++ ys) ≡ stream xs ++ stream ys
unfolding stream
stream-append [] ys = refl
stream-append (x ∷ xs) ys = rw (stream-append xs ys, append_assoc)

until_nul-drop : (n : ℕ) (s : List ℕ) → until_nul (drop n (until_nul s)) ≡ drop n (until_nul s)
unfolding until_nul
until_nul-drop zero [] = refl
until_nul-drop zero (c ∷ s) = elim (Bool-cases (c == 0)) [
  | inl e ↦ rw e
  | inr e ↦ rw (e, e) (ap (λ l. c ∷ l) (until_nul-drop zero s))
]
until_nul-drop (suc n) [] = refl
until_nul-drop (suc n) (c ∷ s) = elim (Bool-cases (c == 0)) [
  | inl e ↦ rw e
  | inr e ↦ rw e (until_nul-drop n s)
]

take-append-drop : (n : ℕ) (xs : List ℕ) → take n xs ++ drop n xs ≡ xs
take-append-drop zero xs = refl
take-append-drop (suc n) [] = refl
take-append-drop (suc n) (x ∷ xs) = ap (λ l. x ∷ l) (take-append-drop n xs)

take_all : (n : ℕ) (xs : List ℕ) → length xs ≡ n → take n xs ≡ xs
take_all zero [] h = refl
take_all zero (x ∷ xs) h = absurd (omega arith)
take_all (suc n) [] h = refl
take_all (suc n) (x ∷ xs) h = ap (λ l. x ∷ l) (take_all n xs (omega arith))

-- Nobody sleeps, and the semaphore counts the messages.
pub record IsReady (p : Pipe) : Type 0 where
  pub value : p.lock.value ≡ pos (length p.list)
  pub awake : p.lock.sq ≡ []

-- What a client of a pipe sees: its calls in order, with the bytes that they return.
pub data PipeCall : Type 0 where
  put : List ℕ → PipeCall
  get : ℕ → PipeCall

-- The bytes read so far and the pipe, or nothing when a call sleeps or faults.
abbrev pub got : List ℕ → ReadResult → Pipe → Option (List ℕ × Pipe)
got out eof p = some (out, p)
got out (sleeps _) p = none
got out (bytes data_read _ p') p = some (out ++ data_read, p')
got out fault p = none

abbrev pub go_on :
    Option (List ℕ × Pipe) → (List ℕ → Pipe → Option (List ℕ × Pipe)) → Option (List ℕ × Pipe)
go_on none k = none
go_on (some (out, p)) k = k out p

unfoldable pub run : List ℕ → Pipe → List PipeCall → Option (List ℕ × Pipe)
run out p [] = some (out, p)
run out p (put buffer ∷ cs) = run out (pipe_write p buffer).1 cs
run out p (get len ∷ cs) = go_on (got out (pipe_read 0 p len) p) (λ out' p'. run out' p' cs)

-- The bytes that the writes put in.
unfoldable pub written : List PipeCall → List ℕ
written [] = []
written (put buffer ∷ cs) = until_nul buffer ++ written cs
written (get len ∷ cs) = written cs

-- A signal at `n`.
signal-pos : (n : ℕ) → n + 1 < 2 ^ 31 → int32 (pos n +ℤ pos 1) ≡ pos (n + 1)
unfolding ◌+ℤ◌
signal-pos n few =
    ap int32 (let e : pos n +ℤ pos 1 ≡ pos (n + 1) = ground arith in e)
    ∙ int32_in_range (pos (n + 1)) few (omega arith)

-- `pipe_write` on a pipe with a reader appends the bytes of the buffer, up to its first NUL, wakes nobody when nobody sleeps.
pub write-stream :
    (p : Pipe) (buffer : List ℕ)
    → p.reader_count ≢ 0
    → length p.list + 1 < 2 ^ 31
    → IsReady p
    → let (woken, p') = pipe_write p buffer in
      (stream p'.list ≡ stream p.list ++ until_nul buffer)
      × (woken ≡ none)
      × IsReady p'
      × (p'.reader_count ≡ p.reader_count)
      × (p'.writer_count ≡ p.writer_count)
      × (length p'.list ≡ length p.list + 1)
unfolding pipe_write ksemaphore_signal ◌+ℤ◌ stream
write-stream p buffer r few is =
    let t : (p.reader_count == 0) ≡ false = ground arith in
    let n = length-append p.list (buffer ∷ []) in
    let e : int32 (p.lock.value +ℤ pos 1) ≡ pos (length p.list + 1) =
      rw (is.value) (signal-pos (length p.list) few) in
    rw (t, is.awake)
      (
        stream-append p.list (buffer ∷ [])
            ∙ ap (λ l. stream p.list ++ l) (append-nil (until_nul buffer)),
        refl,
        record { value = e ∙ ap pos (omega (arith, n)); awake = refl },
        refl,
        refl,
        n,
      )

-- What a successful read has done to the pipe `p` with the first message `m`.
pub record ReadDone (p : Pipe) (m : List ℕ) (len : ℕ) (d : List ℕ) (p' : Pipe) : Type 0 where
  pub split : d ++ stream p'.list ≡ stream p.list
  pub count : length d ≡ min len (length (until_nul m))
  pub ready : IsReady p'
  pub readers : p'.reader_count ≡ p.reader_count
  pub writers : p'.writer_count ≡ p.writer_count
  pub fewer : length p'.list ≤ length p.list

-- A semaphore above zero lets the caller pass.
wait-pos :
    (t n : ℕ)
    → n < 2 ^ 31
    → ksemaphore_wait t (record { value = pos (suc n); sq = [] })
      ≡ (false, record { value = pos n; sq = [] })
unfolding ksemaphore_wait ◌-ℤ◌
wait-pos t n few = ground (arith, int32_in_range (pos n) few (omega arith))

module _ (m : List ℕ) (ms : List (List ℕ)) (r w : ℕ) (dead : Bool) where
  abbrev pipe : ℤ → Pipe
  pipe value = record {
    list = m ∷ ms;
    reader_count = r;
    writer_count = w;
    dead = dead;
    lock = record { value = value; sq = [] };
  }

  -- The part behind the semaphore, which has let the reader pass.
  read_message-ReadDone :
      (len : ℕ) (p : Pipe)
      → p.list ≡ m ∷ ms
      → p.reader_count ≡ r
      → p.writer_count ≡ w
      → length p.list < 2 ^ 31
      → (d : List ℕ) × (p' : Pipe) × (read_message (pipe (pos (length ms))) len ≡ bytes d none p')
        × ReadDone p m len d p'
  unfolding read_message stream ksemaphore_signal ◌+ℤ◌
  read_message-ReadDone len p e er ew few = elim (Bool-cases (ltb len (length (until_nul m)))) [
    | inl c ↦ (
      take len (until_nul m),
      record (pipe (pos (length ms))) {
        list = drop len (until_nul m) ∷ ms;
        lock = record { value = pos (length ms + 1); sq = [] };
      },
      (let c2 : ltb (length (until_nul m)) len ≡ false = ground arith in
          let u : int32 (pos (length ms) +ℤ pos 1) ≡ pos (length ms + 1) =
            signal-pos (length ms) (omega (arith, ap length e)) in
          rw (c, c2, u)),
      record {
        split = rw (e, until_nul-drop, ← append_assoc, take-append-drop);
        count = omega (arith, length-take len (until_nul m));
        ready = record { value = ground arith; awake = refl };
        readers = sym er;
        writers = sym ew;
        fewer = omega (arith, ap length e);
      },
    )
    | inr c ↦ (
      until_nul m,
      record (pipe (pos (length ms))) { list = ms },
      (let e2 : (if ltb (length (until_nul m)) len then length (until_nul m) else len)
              ≡ length (until_nul m) =
            ground arith in
          rw (c, e2, take_all (length (until_nul m)) (until_nul m) refl)),
      record {
        split = rw e;
        count = ground arith;
        ready = record { value = refl; awake = refl };
        readers = sym er;
        writers = sym ew;
        fewer = omega (arith, ap length e);
      },
    )
  ]

  -- The whole call.
  pipe_read-ReadDone :
      (t len : ℕ)
      → suc (length ms) < 2 ^ 31
      → let p = pipe (pos (suc (length ms))) in
        (d : List ℕ) × (p' : Pipe) × (pipe_read t p len ≡ bytes d none p') × ReadDone p m len d p'
  unfolding pipe_read after_wait
  pipe_read-ReadDone t len few =
      let (d, p', run, done) =
        read_message-ReadDone len (pipe (pos (suc (length ms)))) refl refl refl few in
      (
        d,
        p',
        (let n : (suc (length ms) == 0) ≡ false = ground arith in
            rw (n, wait-pos t (length ms) (omega arith)) run),
        done,
      )

-- `pipe_read` from a pipe that holds a message does not sleep: it returns as many bytes of the first
-- message as it has and the caller asked for, and what it returns followed by what the pipe then
-- holds is what the pipe held.
pub read-stream :
    (t : ℕ) (p : Pipe) (m : List ℕ) (ms : List (List ℕ)) (len : ℕ)
    → length p.list < 2 ^ 31
    → IsReady p
    → p.list ≡ m ∷ ms
    → (d : List ℕ) × (p' : Pipe) × (pipe_read t p len ≡ bytes d none p') × ReadDone p m len d p'
read-stream t p m ms len few is e =
    let e1 : p ≡ pipe m ms p.reader_count p.writer_count p.dead (pos (suc (length ms))) =
      ground (arith, is.value, is.awake, e) in
    subst
      (λ q.
        (d : List ℕ) × (p' : Pipe) × (pipe_read t q len ≡ bytes d none p') × ReadDone q m len d p')
      (sym e1)
      (pipe_read-ReadDone m ms p.reader_count p.writer_count p.dead t len
        (omega (arith, ap length e)))

-- The outcome of a run from `p`: it ends with all bytes in order, or a read comes to an empty pipe.
abbrev pub Streamed : List ℕ → Pipe → List PipeCall → Type 0
Streamed out p cs =
    ((out' : List ℕ) × (p' : Pipe) × (run out p cs ≡ some (out', p'))
      × (out' ++ stream p'.list ≡ out ++ (stream p.list ++ written cs))
      × IsReady p')
    ⊎ ((before : List PipeCall) × (len : ℕ) × (after : List PipeCall) × (out' : List ℕ)
        × (p' : Pipe) × (cs ≡ before ++ (get len ∷ after))
        × (run out p before ≡ some (out', p'))
        × (p'.list ≡ []))

put-Streamed :
    (out : List ℕ) (p : Pipe) (buffer : List ℕ) (cs : List PipeCall)
    → p.reader_count ≢ 0
    → length p.list + 1 < 2 ^ 31
    → IsReady p
    → Streamed out (pipe_write p buffer).1 cs
    → Streamed out p (put buffer ∷ cs)
unfolding run written
put-Streamed out p buffer cs r few is (inl (o, q, run_is, eq, ok)) =
    inl (o, q, run_is, eq ∙ rw ((write-stream p buffer r few is).0, append_assoc), ok)
put-Streamed out p buffer cs r few is (inr (b, len, a, o, q, e, run_is, n)) =
    inr (put buffer ∷ b, len, a, o, q, ap (λ l. put buffer ∷ l) e, run_is, n)

get-Streamed :
    (out : List ℕ) (p : Pipe) (len : ℕ) (cs : List PipeCall) (d : List ℕ) (p' : Pipe)
    → pipe_read 0 p len ≡ bytes d none p'
    → d ++ stream p'.list ≡ stream p.list
    → Streamed (out ++ d) p' cs
    → Streamed out p (get len ∷ cs)
unfolding run written
get-Streamed out p len cs d p' e split (inl (o, q, run_is, eq, ok)) =
    inl (o, q, rw e run_is, eq ∙ rw (append_assoc, ← append_assoc d, split), ok)
get-Streamed out p len cs d p' e split (inr (b, len', a, o, q, f, run_is, n)) =
    inr (get len ∷ b, len', a, o, q, ap (λ l. get len ∷ l) f, rw e run_is, n)

List-cases :
    (xs : List (List ℕ)) → (xs ≡ []) ⊎ ((m : List ℕ) × (ms : List (List ℕ)) × (xs ≡ m ∷ ms))
List-cases [] = inl refl
List-cases (m ∷ ms) = inr (m, ms, refl)

-- However writes and reads follow one another, from a pipe with a reader on which nobody sleeps
-- and whose semaphore counts its messages, while the messages and the calls together are less than
-- 2^31, above which the count of the semaphore wraps: the bytes that the reads have returned and those still
-- in the pipe are, in order, those that were in the pipe and those that were written, each buffer
-- up to its first NUL; or else some read comes to a pipe that is empty.
pub run-Streamed :
    (cs : List PipeCall) (out : List ℕ) (p : Pipe)
    → p.reader_count ≢ 0
    → length p.list + length cs < 2 ^ 31
    → IsReady p
    → Streamed out p cs
unfolding run written
run-Streamed [] out p r few is = inl (out, p, refl, rw append-nil, is)
run-Streamed (put buffer ∷ cs) out p r few is =
    let room : length p.list + 1 < 2 ^ 31 = omega arith in
    let w = write-stream p buffer r room is in
    put-Streamed out p buffer cs r room is
      (run-Streamed cs out (pipe_write p buffer).1 (λ z. r (sym w.3 ∙ z)) (omega (arith, w.5)) w.2)
run-Streamed (get len ∷ cs) out p r few is = elim (List-cases p.list) [
  | inl e ↦ inr ([], len, cs, out, p, refl, refl, e)
  | inr (m, ms, e) ↦
      let (d, p', run_is, done) = read-stream 0 p m ms len (omega arith) is e in
      get-Streamed out p len cs d p' run_is done.split (
        run-Streamed cs (out ++ d) p' (λ z. r (sym done.readers ∙ z)) (omega (arith, done.fewer))
          done.ready)
]
