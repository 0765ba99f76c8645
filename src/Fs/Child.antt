-- ===== src/Fs/Child.antt =====
-- `fs_node_child` of src/fs.c: where nobody holds a lock it returns, and nobody holds one then.
use eedox.Base.{
  ℕ, ◌≡◌, ◌≢◌, inl, inr, refl, sym, ap, ◌∙◌, true, false, some, List, [], ◌∷◌, ◌++◌, append-nil,
  append_assoc, arith, ◌==◌, ==_iff, Bool-cases, length, get_elem?,
}
use eedox.Fs.Disk.{Sector}
use eedox.Fs.Directory.{inode_child}
use eedox.Rwlock.{
  Rwlock, op_read, op_write, Result, runs, krwlock_init, krwlock_read, krwlock_write,
  krwlock_release, read_waits, read_enter, wake_readers, write_enter, hand_over,
}
use eedox.Descriptor.{at}
use eedox.Pathbuf.{Name, Pathbuf, pathbuf_cmp, pathbuf_child, pathbuf_field, pathbuf_len}
use eedox.Pathbuf.Laws.{cmp-eq}
use eedox.Fs.Tree.{
  Files, Outcome, returns, and_then, lock_after, find_path, inodelist_get, inode_new, set_inode,
  close_all,
}
use eedox.Fs.Open.{name_or, fs_node_child}

-- The call returns, with a result and a state of the kind.
pub record Returns {A : Type 0} (o : Outcome A) (P : A → Files → Type 0) : Type 0 where
  pub value : A
  pub state : Files
  pub run : o ≡ returns value state
  pub holds : P value state

pub and_then-Returns :
    {A B : Type 0} {o : Outcome A} {f : A → Files → Outcome B} {P : A → Files → Type 0}
    {Q : B → Files → Type 0}
    → Returns o P
    → ((a : A) (s : Files) → P a s → Returns (f a s) Q)
    → Returns (and_then o f) Q
unfolding and_then
and_then-Returns {f} r k =
    let n = k r.value r.state r.holds in
    record {
      value = n.value;
      state = n.state;
      run = ap (λ x. and_then x f) r.run ∙ n.run;
      holds = n.holds;
    }

pub returned :
    {A : Type 0} {a : A} {s : Files} {P : A → Files → Type 0} → P a s → Returns (returns a s) P
returned {a} {s} h = record { value = a; state = s; run = refl; holds = h }

-- Nobody holds a lock or waits for one.
abbrev pub LocksFree : Files → Type 0
LocksFree s = (n : ℕ) → s.lock n ≡ krwlock_init

-- The lock of one reader and the lock of a writer.
abbrev pub one_reader : Rwlock
one_reader = record { waiting = []; readers = 1; operation = op_read }

abbrev one_writer : Rwlock
one_writer = record { waiting = []; readers = 0; operation = op_write }

pub read_free :
    (curtask : ℕ) (l : Rwlock) → l ≡ krwlock_init → krwlock_read curtask l ≡ runs [] one_reader
unfolding krwlock_read read_waits read_enter wake_readers krwlock_init
read_free curtask l e = rw e refl

write_free :
    (curtask : ℕ) (l : Rwlock) → l ≡ krwlock_init → krwlock_write curtask l ≡ runs [] one_writer
unfolding krwlock_write write_enter krwlock_init
write_free curtask l e = rw e refl

pub release_reader : krwlock_release one_reader ≡ runs [] krwlock_init
unfolding krwlock_release hand_over krwlock_init
release_reader = refl

release_writer : krwlock_release one_writer ≡ runs [] krwlock_init
unfolding krwlock_release hand_over krwlock_init
release_writer = refl

release_free : krwlock_release krwlock_init ≡ runs [] krwlock_init
unfolding krwlock_release hand_over krwlock_init
release_free = refl

-- The state with another lock at an address.
abbrev pub with_lock : Files → ℕ → Rwlock → Files
with_lock s node l = record s { lock = at s.lock node l; awoken = s.awoken ++ [] }

pub lock_after-runs :
    (s : Files) (node : ℕ) {r : Result} {l : Rwlock}
    → r ≡ runs [] l
    → lock_after s node r ≡ returns tt (with_lock s node l)
unfolding lock_after
lock_after-runs s node e = ap (lock_after s node) e

-- A path that the node stands at: it is absolute, and its fields are the first ones of `p`.
pub record IsOn (s : Files) (p : Pathbuf) (ptr : ℕ) (left : List Name) : Type 0 where
  pub fields : (s.path ptr).fields ++ left ≡ p.fields
  pub is_absolute : (s.path ptr).is_absolute ≡ p.is_absolute
  pub back : (s.path ptr).back ≡ p.back

pub path_ends :
    (s : Files) (p : Pathbuf) (ptr : ℕ) → IsOn s p ptr [] → pathbuf_cmp (s.path ptr) p ≡ true
path_ends s p ptr on =
    (cmp-eq (s.path ptr) p).1
      (sym (append-nil (s.path ptr).fields) ∙ on.fields, on.is_absolute, on.back)

get_elem?-append :
    (fs : List Name) (g : Name) (gs : List Name) → get_elem? (fs ++ (g ∷ gs)) (length fs) ≡ some g
get_elem?-append [] g gs = refl
get_elem?-append (f ∷ fs) g gs = get_elem?-append fs g gs

pub next_field :
    (s : Files) (p : Pathbuf) (ptr : ℕ) (past f : Name) (left : List Name)
    → IsOn s p ptr (f ∷ left)
    → name_or past (pathbuf_field p (pathbuf_len (s.path ptr))) ≡ f
unfolding pathbuf_field pathbuf_len
next_field s p ptr past f left on =
    ap (λ l. name_or past (get_elem? l (length (s.path ptr).fields))) (sym on.fields)
    ∙ ap (name_or past) (get_elem?-append (s.path ptr).fields f left)

-- A node of which the path is that of the child.
child-IsOn :
    (s s' : Files) (p : Pathbuf) (ptr child : ℕ) (f : Name) (left : List Name)
    → IsOn s p ptr (f ∷ left)
    → pathbuf_cmp (s'.path child) (pathbuf_child (s.path ptr) f true) ≡ true
    → IsOn s' p child left
unfolding pathbuf_child
child-IsOn s s' p ptr child f left on e =
    let (fs, a, b) = (cmp-eq (s'.path child) (pathbuf_child (s.path ptr) f true)).0 e in
    record {
      fields = ap (λ l. l ++ left) fs ∙ append_assoc (s.path ptr).fields (f ∷ []) left ∙ on.fields;
      is_absolute = a ∙ on.is_absolute;
      back = b ∙ on.back;
    }

cmp-of : {p q : Pathbuf} → p ≡ q → pathbuf_cmp p q ≡ true
cmp-of {p} {q} e =
    (cmp-eq p q).1 (ap (λ x. x.fields) e, ap (λ x. x.is_absolute) e, ap (λ x. x.back) e)

find_path_lem :
    (path : ℕ → Pathbuf) (ns : List ℕ) (p : Pathbuf)
    → (find_path path ns p ≢ 0)
    → pathbuf_cmp (path (find_path path ns p)) p ≡ true
unfolding find_path
find_path_lem path [] p = λ h. absurd (h refl)
find_path_lem path (n ∷ ns) p = elim (Bool-cases (pathbuf_cmp (path n) p)) [
  | inl e ↦ rw e (λ h. e)
  | inr e ↦ rw e (find_path_lem path ns p)
]

pub closed_locks : (s : Files) (ns : List ℕ) → (close_all s ns).lock ≡ s.lock
unfolding close_all
closed_locks s [] = refl
closed_locks s (n ∷ ns) = closed_locks s ns

pub then-runs :
    {A B : Type 0} {o : Outcome A} {a : A} {s : Files} {Q : B → Files → Type 0}
    (f : A → Files → Outcome B)
    → o ≡ returns a s
    → Returns (f a s) Q
    → Returns (and_then o f) Q
unfolding and_then
then-runs f e n = record {
  value = n.value;
  state = n.state;
  run = ap (λ x. and_then x f) e ∙ n.run;
  holds = n.holds;
}

pub same : (n : ℕ) → (n == n) ≡ true
same n = (==_iff n n).1 refl

-- The locks of a node and of its new child, at each point of `fs_node_child`.
module _ (lock : ℕ → Rwlock) (ptr fresh : ℕ) where
  abbrev both_held : ℕ → Rwlock
  both_held = at (at (at lock ptr one_reader) fresh krwlock_init) fresh one_writer

  release_ptr : krwlock_release (both_held ptr) ≡ runs [] krwlock_init
  release_ptr = elim (Bool-cases (ptr == fresh)) [
    | inl e ↦ rw e release_writer
    | inr e ↦ rw (e, same ptr) release_reader
  ]

  release_fresh : krwlock_release (at both_held ptr krwlock_init fresh) ≡ runs [] krwlock_init
  release_fresh = elim (Bool-cases (fresh == ptr)) [
    | inl e ↦ rw e release_free
    | inr e ↦ rw (e, same fresh) release_writer
  ]

  both_free :
      ((n : ℕ) → lock n ≡ krwlock_init)
      → (n : ℕ) → at (at both_held ptr krwlock_init) fresh krwlock_init n ≡ krwlock_init
  both_free free n = elim (Bool-cases (n == fresh)) [
    | inl e ↦ rw e refl
    | inr e ↦ elim (Bool-cases (n == ptr)) [ inl d ↦ rw (e, d) refl | inr d ↦ rw (e, d) (free n) ]
  ]

module _ (rest junk : Sector) (kmalloc : List ℕ → ℕ) (past : Name) (curtask : ℕ) where
  -- A fresh child is read and put into the list, and the locks are given back.
  pub child-Returns :
      (s : Files) (p : Pathbuf) (ptr : ℕ) (f : Name) (left : List Name)
      → LocksFree s
      → IsOn s p ptr (f ∷ left)
      → ptr ≢ 0
      → ((l : List ℕ) → kmalloc l ≢ 0)
      → Returns
          (fs_node_child rest junk kmalloc past curtask s ptr f)
          (λ child s'. LocksFree s' × IsOn s' p child left × (child ≢ 0))
  unfolding fs_node_child inodelist_get inode_new set_inode
  child-Returns s p ptr f left free on ne new =
      let z : (ptr == 0) ≡ false = ground arith in
      let path = pathbuf_child (s.path ptr) f true in
      let fresh = kmalloc s.shared.inodelist in
      elim (Bool-cases (find_path s.path s.shared.inodelist path == 0)) [
        | inr e ↦
            let h : find_path s.path s.shared.inodelist path ≢ 0 = ground arith in
            rw (z, e)
              (returned (
                free,
                child-IsOn s s p ptr (find_path s.path s.shared.inodelist path) f left on
                    (find_path_lem s.path s.shared.inodelist path h),
                h,
              ))
        | inl e ↦
            rw (z, e)
              (then-runs _ (lock_after-runs s ptr (read_free curtask (s.lock ptr) (free ptr))) (
                rw e (
                  let s1 = with_lock s ptr one_reader in
                  let s2 = (inode_new kmalloc s1 path).1 in
                  let s3 = with_lock s2 fresh one_writer in
                  let s4 =
                    set_inode s3 fresh
                      (inode_child rest junk s3.store (s3.inode ptr) f (s3.inode fresh)) in
                  let s5 = with_lock s4 ptr krwlock_init in
                  let s6 = with_lock s5 fresh krwlock_init in
                  let there : s6.path fresh ≡ path = rw (same fresh) refl in
                  then-runs _
                    (lock_after-runs s2 fresh
                      (write_free curtask (s2.lock fresh) (rw (same fresh) refl)))
                    (then-runs _ (lock_after-runs s4 ptr (release_ptr s.lock ptr fresh)) (
                      then-runs _ (lock_after-runs s5 fresh (release_fresh s.lock ptr fresh)) (
                        returned (
                          both_free s.lock ptr fresh free,
                          child-IsOn s s6 p ptr fresh f left on (cmp-of there),
                          new s.shared.inodelist,
                        )))))))
      ]
