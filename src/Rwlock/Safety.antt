-- ===== src/Rwlock/Safety.antt =====
-- The lock keeps readers and writers apart if each woken task goes on before any other call.
use eedox.Base.{
  ℕ, suc, ◌-◌, ◌≤◌, ◌≡◌, ◌≢◌, ◌⊎◌, inl, inr, refl, sym, ap, ◌∙◌, subst, true, false, List, [], ◌∷◌,
  ◌++◌, arith, ◌==◌, Bool-cases, length, length-append,
}
use eedox.Rwlock.{
  writer_first, Operation, op_none, op_read, op_write, Rwlock, krwlock_init, wake_readers,
  read_waits, read_enter, krwlock_read, write_enter, krwlock_write, hand_over, krwlock_release,
}
use eedox.Rwlock.System.{
  System, start, read_result, write_result, release_result, Step, read, write, release_read,
  release_write, resume_read, resume_write, Reach, here, next,
}

abbrev AllRead : List (ℕ × Operation) → Type 0
AllRead [] = Unit
AllRead ((t, op_read) ∷ q) = AllRead q
AllRead ((t, _) ∷ q) = ⊥

-- What the state of the lock says of the tasks.
abbrev Phase : Operation → System → Type 0
Phase op_read s = (s.writing ≡ []) × (s.lock.readers ≡ length s.reading) × AllRead s.woken
Phase op_write s = (length s.writing ≡ 1) × (s.reading ≡ []) × (s.lock.readers ≡ 0) × (s.woken ≡ [])
Phase op_none s = (s.writing ≡ []) × (s.reading ≡ []) × (s.lock.readers ≡ 0) × (length s.woken ≤ 1)

abbrev Inv : System → Type 0
Inv s = Phase s.lock.operation s

AllRead-append : (xs ys : List (ℕ × Operation)) → AllRead xs → AllRead ys → AllRead (xs ++ ys)
AllRead-append [] ys a b = b
AllRead-append ((t, op_read) ∷ xs) ys a b = AllRead-append xs ys a b
AllRead-append ((t, op_none) ∷ xs) ys a b = absurd a
AllRead-append ((t, op_write) ∷ xs) ys a b = absurd a

AllRead-split :
    (xs : List (ℕ × Operation)) (x : ℕ × Operation) (ys : List (ℕ × Operation))
    → AllRead (xs ++ (x ∷ ys))
    → AllRead (xs ++ ys) × (x.1 ≡ op_read)
AllRead-split [] (t, op_read) ys a = (a, refl)
AllRead-split [] (t, op_none) ys a = absurd a
AllRead-split [] (t, op_write) ys a = absurd a
AllRead-split ((t, op_read) ∷ xs) x ys a = AllRead-split xs x ys a
AllRead-split ((t, op_none) ∷ xs) x ys a = absurd a
AllRead-split ((t, op_write) ∷ xs) x ys a = absurd a

wake_readers-AllRead : (q : List (ℕ × Operation)) → AllRead (wake_readers q).0
unfolding wake_readers
wake_readers-AllRead [] = tt
wake_readers-AllRead ((t, op_read) ∷ q) = wake_readers-AllRead q
wake_readers-AllRead ((t, op_none) ∷ q) = tt
wake_readers-AllRead ((t, op_write) ∷ q) = tt

-- A task enters as a reader while no writer is inside and only readers are woken.
enter-Inv :
    (t : ℕ) (s : System)
    → s.writing ≡ []
    → s.lock.readers ≡ length s.reading
    → AllRead s.woken
    → Inv (read_result t s (read_enter s.lock))
unfolding read_enter
enter-Inv t s w r a =
    (w, omega arith, AllRead-append s.woken _ a (wake_readers-AllRead s.lock.waiting))

abbrev Queue : Type 0
Queue = List (ℕ × Operation)

abbrev lock_of : Queue → ℕ → Operation → Rwlock
lock_of w n op = record { waiting = w; readers = n; operation = op }

abbrev system : Queue → ℕ → Operation → List ℕ → List ℕ → Queue → System
system w n op r wr wk = record { lock = lock_of w n op; reading = r; writing = wr; woken = wk }

AllRead-of_nil : (wk : Queue) → wk ≡ [] → AllRead wk
AllRead-of_nil wk e = rw e tt

-- A list that holds an element and at most one holds no other.
nil_of_short :
    (xs : Queue) (x : ℕ × Operation) (ys : Queue) → length (xs ++ (x ∷ ys)) ≤ 1 → xs ++ ys ≡ []
nil_of_short [] x [] h = refl
nil_of_short [] x (y ∷ ys) h = absurd (omega arith)
nil_of_short (z ∷ xs) x ys h = absurd (omega (arith, length-append xs (x ∷ ys)))

not-nil_of_split {ℓ} : {A : Type ℓ} (xs : List A) (x : A) (ys : List A) → (xs ++ (x ∷ ys)) ≢ []
not-nil_of_split [] x ys e = cc
not-nil_of_split (z ∷ xs) x ys e = cc

-- The lock is handed over when nobody is left inside.
hand_over-Inv :
    (s : System) (q : Queue)
    → s.woken ≡ []
    → s.writing ≡ []
    → s.reading ≡ []
    → Inv (release_result s (hand_over q 0))
unfolding hand_over
hand_over-Inv s [] e f g = (f, g, refl, rw e (omega arith))
hand_over-Inv s (x ∷ q) e f g = (f, g, refl, rw e (omega arith))

nil_of_length {ℓ} : {A : Type ℓ} (xs : List A) → length xs ≡ 0 → xs ≡ []
nil_of_length [] e = refl
nil_of_length (x ∷ xs) e = absurd (omega arith)

length-split {ℓ} :
    {A : Type ℓ} (xs : List A) (x : A) (ys : List A)
    → length (xs ++ (x ∷ ys)) ≡ suc (length (xs ++ ys))
length-split xs x ys = omega (arith, length-append xs (x ∷ ys), length-append xs ys)

module _ (w : Queue) (n : ℕ) (r wr : List ℕ) (wk : Queue) where
  read-Inv :
      (op : Operation) (t : ℕ)
      → wk ≡ []
      → Inv (system w n op r wr wk)
      → Inv (read_result t (system w n op r wr wk) (krwlock_read t (lock_of w n op)))
  unfolding krwlock_read read_waits
  read-Inv op_none t q v =
      enter-Inv t (system w n op_none r wr wk) v.0 (ground arith) (AllRead-of_nil wk q)
  read-Inv op_write t q v = v
  read-Inv op_read t q v = elim (Bool-cases (writer_first w)) [
    | inl e ↦ rw e v
    | inr e ↦ rw e (enter-Inv t (system w n op_read r wr wk) v.0 v.1 v.2)
  ]

  write-Inv :
      (op : Operation) (t : ℕ)
      → wk ≡ []
      → Inv (system w n op r wr wk)
      → Inv (write_result t (system w n op r wr wk) (krwlock_write t (lock_of w n op)))
  unfolding krwlock_write write_enter
  write-Inv op_none t q v = (ground arith, v.1, v.2, ap (λ l. l ++ []) q)
  write-Inv op_write t q v = v
  write-Inv op_read t q v = v

  resume_read-Inv :
      (op : Operation) (t : ℕ) (xs ys : Queue)
      → wk ≡ xs ++ ((t, op_read) ∷ ys)
      → Inv (system w n op r wr wk)
      → Inv (read_result t (system w n op r wr (xs ++ ys)) (read_enter (lock_of w n op)))
  resume_read-Inv op_none t xs ys e v =
      enter-Inv t (system w n op_none r wr (xs ++ ys)) v.0 (ground arith)
        (AllRead-of_nil _ (nil_of_short xs _ ys (subst (λ l. length l ≤ 1) e v.3)))
  resume_read-Inv op_write t xs ys e v = absurd (not-nil_of_split xs _ ys (sym e ∙ v.3))
  resume_read-Inv op_read t xs ys e v =
      enter-Inv t (system w n op_read r wr (xs ++ ys)) v.0 v.1
        (AllRead-split xs _ ys (subst AllRead e v.2)).0

  resume_write-Inv :
      (op : Operation) (t : ℕ) (xs ys : Queue)
      → wk ≡ xs ++ ((t, op_write) ∷ ys)
      → Inv (system w n op r wr wk)
      → Inv (write_result t (system w n op r wr (xs ++ ys)) (write_enter (lock_of w n op)))
  unfolding write_enter
  resume_write-Inv op_none t xs ys e v =
      (ground arith, v.1, v.2, rw (nil_of_short xs _ ys (subst (λ l. length l ≤ 1) e v.3)))
  resume_write-Inv op_write t xs ys e v = absurd (not-nil_of_split xs _ ys (sym e ∙ v.3))
  resume_write-Inv op_read t xs ys e v =
      cc ((AllRead-split xs (t, op_write) ys (subst AllRead e v.2)).1)

  release_read-Inv :
      (op : Operation) (xs : List ℕ) (t : ℕ) (ys : List ℕ)
      → wk ≡ []
      → r ≡ xs ++ (t ∷ ys)
      → Inv (system w n op r wr wk)
      → Inv (release_result (system w n op (xs ++ ys) wr wk) (krwlock_release (lock_of w n op)))
  unfolding krwlock_release
  release_read-Inv op_none xs t ys q e v = absurd (not-nil_of_split xs t ys (sym e ∙ v.1))
  release_read-Inv op_write xs t ys q e v = absurd (not-nil_of_split xs t ys (sym e ∙ v.1))
  release_read-Inv op_read xs t ys q e v =
      let e' : n ≡ suc (length (xs ++ ys)) = v.1 ∙ ap length e ∙ length-split xs t ys in
      let some_left : (n == 0) ≡ false = ground arith in
      elim (Bool-cases (n - 1 == 0)) [
        | inl z ↦
            let n' : n - 1 ≡ 0 = ground arith in
            rw (some_left, z, n')
              (hand_over-Inv (system w n op_read (xs ++ ys) wr wk) w q v.0
                (nil_of_length (xs ++ ys) (omega arith)))
        | inr z ↦ rw (some_left, z) (v.0, omega arith, rw q tt)
      ]

  release_write-Inv :
      (op : Operation) (xs : List ℕ) (t : ℕ) (ys : List ℕ)
      → wk ≡ []
      → wr ≡ xs ++ (t ∷ ys)
      → Inv (system w n op r wr wk)
      → Inv (release_result (system w n op r (xs ++ ys) wk) (krwlock_release (lock_of w n op)))
  unfolding krwlock_release
  release_write-Inv op_none xs t ys q e v = absurd (not-nil_of_split xs t ys (sym e ∙ v.0))
  release_write-Inv op_read xs t ys q e v = absurd (not-nil_of_split xs t ys (sym e ∙ v.0))
  release_write-Inv op_write xs t ys q e v =
      let l : suc (length (xs ++ ys)) ≡ 1 = sym (length-split xs t ys) ∙ ap length (sym e) ∙ v.0 in
      rw v.2 (
        hand_over-Inv (system w n op_write r (xs ++ ys) wk) w q
          (nil_of_length (xs ++ ys) (omega arith)) v.1)

Step-Inv : {s u : System} → Step true s u → Inv s → Inv u
Step-Inv {s} (read t a e) v = rw e (read-Inv _ _ _ _ _ s.lock.operation t a v)
Step-Inv {s} (write t a e) v = rw e (write-Inv _ _ _ _ _ s.lock.operation t a v)
Step-Inv {s} (release_read xs t ys a p e) v =
    rw e (release_read-Inv _ _ _ _ _ s.lock.operation xs t ys a p v)
Step-Inv {s} (release_write xs t ys a p e) v =
    rw e (release_write-Inv _ _ _ _ _ s.lock.operation xs t ys a p v)
Step-Inv {s} (resume_read xs t ys p e) v =
    rw e (resume_read-Inv _ _ _ _ _ s.lock.operation t xs ys p v)
Step-Inv {s} (resume_write xs t ys p e) v =
    rw e (resume_write-Inv _ _ _ _ _ s.lock.operation t xs ys p v)

Reach-Inv : {s : System} → Reach true s → Inv s
unfolding start krwlock_init
Reach-Inv here = (refl, refl, refl, omega arith)
Reach-Inv (next r st) = Step-Inv st (Reach-Inv r)

Excludes_of_Phase :
    (op : Operation) (s : System)
    → Phase op s
    → (length s.writing ≤ 1) × ((s.writing ≡ []) ⊎ (s.reading ≡ []))
Excludes_of_Phase op_read s v = (rw v.0 (omega arith), inl v.0)
Excludes_of_Phase op_write s v = (omega arith, inr v.1)
Excludes_of_Phase op_none s v = (rw v.0 (omega arith), inl v.0)

-- If calls are made only when no woken task has yet to go on, then in every reachable state at most
-- one task holds the lock for writing, and none holds it for reading beside a writer.
pub exclusion_of_prompt :
    (s : System) → Reach true s → (length s.writing ≤ 1) × ((s.writing ≡ []) ⊎ (s.reading ≡ []))
exclusion_of_prompt s r = Excludes_of_Phase s.lock.operation s (Reach-Inv r)
