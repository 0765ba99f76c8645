-- ===== src/Syscall/Ends.antt =====
-- The table of descriptors and a new pipe, as the calls of src/syscall.c use them.
use eedox.Base.{
  ℕ, zero, suc, ◌≤◌, ◌<◌, ◌≡◌, ◌≢◌, inl, inr, refl, sym, ap, ◌∙◌, true, false, none, some, List, [],
  ◌∷◌, ◌++◌, arith, ltb, ◌==◌, if◌then◌else◌, ==_iff, Bool-cases, length, get_elem?, take,
  length-append, get_elem?-set_self, get_elem?-set_ne,
}
use eedox.Base.Int.{pos}
use eedox.Base.Int.{pos}
use eedox.Fs.Disk.{Sector}
use eedox.Fs.Directory.{first_bytes}
use eedox.Descriptor.{Fd, FdTable, first_closed, fd_table_add}
use eedox.Semaphore.{ksemaphore_init, ksemaphore_wait, ksemaphore_signal}
use eedox.Pipe.{Pipe, pipe_new, pipe_write, pipe_read, read_message, after_wait, until_nul, bytes}

pub same : (n : ℕ) → (n == n) ≡ true
same n = (==_iff n n).1 refl

-- Where `fd_table_add` puts a record, no open one stands.
first_closed_place :
    (fds : List Fd) (i : ℕ) (fd : Fd)
    → get_elem? fds i ≡ some fd
    → fd.isopen ≡ true
    → first_closed fds ≢ i
unfolding first_closed
first_closed_place [] i fd e o = absurd cc
first_closed_place (x ∷ fds) zero fd e o =
    let p : x ≡ fd = cc in
    let q : x.isopen ≡ true = ap (λ y. y.isopen) p ∙ o in λ z. ground (arith, q)
first_closed_place (x ∷ fds) (suc i) fd e o =
    let r = first_closed_place fds i fd e o in λ z. ground (arith, r)

get_elem?-new : (fds : List Fd) (fd : Fd) → get_elem? (fds ++ (fd ∷ [])) (length fds) ≡ some fd
get_elem?-new [] fd = refl
get_elem?-new (x ∷ fds) fd = get_elem?-new fds fd

get_elem?-old :
    (fds gds : List Fd) (i : ℕ) (fd : Fd)
    → get_elem? fds i ≡ some fd
    → get_elem? (fds ++ gds) i ≡ some fd
get_elem?-old [] gds i fd e = absurd cc
get_elem?-old (x ∷ fds) gds zero fd e = e
get_elem?-old (x ∷ fds) gds (suc i) fd e = get_elem?-old fds gds i fd e

first_closed_bound : (fds : List Fd) → first_closed fds ≤ length fds
unfolding first_closed
first_closed_bound [] = omega arith
first_closed_bound (x ∷ fds) = ground (arith, first_closed_bound fds)

-- The record that is added is found, and the open ones stay.
pub add-get :
    (table : FdTable) (fd : Fd)
    → let r = fd_table_add table fd in
      get_elem? r.1.records r.0 ≡ some (record fd { isopen = true })
unfolding fd_table_add
add-get table fd =
    let records = table.records in
    let index = first_closed records in
    let fd' : Fd = record fd { isopen = true } in
    elim (Bool-cases (index == length records)) [
      | inl e ↦ rw e (
          ap (get_elem? (records ++ (fd' ∷ []))) ((==_iff index (length records)).0 e)
          ∙ get_elem?-new records fd')
      | inr e ↦
          let n : index ≢ length records = ground arith in
          let b = first_closed_bound records in
          rw e (get_elem?-set_self records index fd' (omega (arith, n, b)))
    ]

pub add-keeps :
    (table : FdTable) (fd old : Fd) (i : ℕ)
    → get_elem? table.records i ≡ some old
    → old.isopen ≡ true
    → get_elem? (fd_table_add table fd).1.records i ≡ some old
unfolding fd_table_add
add-keeps table fd old i g o =
    let records = table.records in
    let index = first_closed records in
    let fd' : Fd = record fd { isopen = true } in
    elim (Bool-cases (index == length records)) [
      | inl e ↦ rw e (get_elem?-old records (fd' ∷ []) i old g)
      | inr e ↦ rw e (get_elem?-set_ne records fd' (first_closed_place records i old g o) ∙ g)
    ]

-- The text of a message without NUL.
until_nul-snoc :
    (m : List ℕ) (c : ℕ) → until_nul m ≡ m → c ≢ 0 → until_nul (m ++ (c ∷ [])) ≡ m ++ (c ∷ [])
unfolding until_nul
until_nul-snoc [] c e n = let z : (c == 0) ≡ false = ground arith in rw z refl
until_nul-snoc (x ∷ m) c e n = elim (Bool-cases (x == 0)) [
  | inl z ↦
      let e' : [] ≡ x ∷ m = sym (ap (λ b. if b then [] else x ∷ until_nul m) z) ∙ e in absurd cc
  | inr z ↦
      let e' : x ∷ until_nul m ≡ x ∷ m = sym (ap (λ b. if b then [] else x ∷ until_nul m) z) ∙ e in
      let t : until_nul m ≡ m = cc in rw z (ap (λ l. x ∷ l) (until_nul-snoc m c t n))
]

pub until_nul-first :
    (ptr : Sector) (len : ℕ)
    → ((i : ℕ) → i < len → ptr i ≢ 0)
    → until_nul (first_bytes ptr len) ≡ first_bytes ptr len
unfolding until_nul first_bytes
until_nul-first ptr zero h = refl
until_nul-first ptr (suc len) h =
    until_nul-snoc (first_bytes ptr len) (ptr len)
      (until_nul-first ptr len (λ i l. h i (omega arith))) (h len (omega arith))

pub length-first_bytes : (ptr : Sector) (len : ℕ) → length (first_bytes ptr len) ≡ len
unfolding first_bytes
length-first_bytes ptr zero = refl
length-first_bytes ptr (suc len) =
    length-append (first_bytes ptr len) (ptr len ∷ []) ∙ omega (arith, length-first_bytes ptr len)

take-length : (m : List ℕ) → take (length m) m ≡ m
take-length [] = refl
take-length (c ∷ m) = ap (λ l. c ∷ l) (take-length m)

-- A new pipe, and what is left of it when a message has been written, and when it has been read.
abbrev pub holding : List (List ℕ) → ℕ → Pipe
holding l value = record {
  list = l;
  reader_count = 1;
  writer_count = 1;
  dead = false;
  lock = record { value = pos value; sq = [] };
}

pub new-write : (m : List ℕ) → pipe_write pipe_new m ≡ (none, holding (m ∷ []) 1)
unfolding pipe_write pipe_new ksemaphore_signal ksemaphore_init
new-write m = refl

pub new-read :
    (t : ℕ) (m : List ℕ) (len : ℕ)
    → until_nul m ≡ m
    → length m ≤ len
    → pipe_read t (holding (m ∷ []) 1) len ≡ bytes m none (holding [] 0)
unfolding pipe_read after_wait ksemaphore_wait read_message
new-read t m len e l =
    let f : ltb len (length m) ≡ false = ground arith in
    let g : (if ltb (length m) len then length m else len) ≡ length m = ground arith in
    rw (e, f, g, take-length m) refl
