-- ===== src/Mq/Open.antt =====
-- Opening message queues of src/mq.c by name.
use eedox.Base.{
  ℕ, suc, ◌+◌, ◌-◌, ◌≤◌, ◌<◌, ◌≡◌, ◌≢◌, inl, inr, refl, sym, ap, ◌∙◌, true, false, Option, none,
  some, List, [], ◌∷◌, ◌++◌, arith, if◌then◌else◌, u32, Bool-cases, Option-cases, set,
}
use eedox.Pipe.{Pipe, pipe_new}
use eedox.Mq.{
  Pipes, Mqlist, same_text, write_pipe, Scan, found, missing, first_free, scan, reopen, opened,
  mqlist_open,
}

abbrev pub Entries : Type 0
Entries = List (List ℕ × ℕ)

-- The pipe of the first entry with the name.
unfoldable pub find : List ℕ → Entries → Option ℕ
find name [] = none
find name ((n, p) ∷ es) = if same_text n name then some p else find name es

pub same_text_refl : (s : List ℕ) → same_text s s ≡ true
unfolding same_text
same_text_refl [] = refl
same_text_refl (c ∷ s) = ground (arith, same_text_refl s)

pub same_text-eq : (s t : List ℕ) → same_text s t ≡ true → s ≡ t
unfolding same_text
same_text-eq [] [] h = refl
same_text-eq [] (d ∷ t) h = cc
same_text-eq (c ∷ s) [] h = cc
same_text-eq (c ∷ s) (d ∷ t) h = ground (arith, same_text-eq s t)

-- The index of the first entry with a dead pipe, counted from `i`.
first_dead : Pipes → Entries → ℕ → Option ℕ
first_dead store [] i = none
first_dead store (x ∷ es) i =
    let rest = first_dead store es (i + 1) in if (store x.1).dead then some i else rest

-- A new entry goes into that place, or behind all others.
claim : Pipes → Entries → List ℕ × ℕ → Entries
claim store [] e = e ∷ []
claim store (x ∷ es) e = if (store x.1).dead then e ∷ es else x ∷ claim store es e

abbrev or_else : Option ℕ → Option ℕ → Option ℕ
or_else none b = b
or_else (some a) b = some a

abbrev scanned : Option ℕ → Option ℕ → Scan
scanned (some p) i = found p
scanned none i = missing i

scan_lem :
    (store : Pipes) (name : List ℕ) (es : Entries) (i : ℕ) (f : Option ℕ)
    → scan store name es i f ≡ scanned (find name es) (or_else f (first_dead store es i))
unfolding scan find first_dead first_free
scan_lem store name [] i none = refl
scan_lem store name [] i (some k) = refl
scan_lem store name ((n, p) ∷ es) i none = elim (Bool-cases (same_text n name)) [
  | inl e ↦ rw e
  | inr e ↦ elim (Bool-cases ((store p).dead)) [
    | inl d ↦ rw (e, d) (scan_lem store name es (i + 1) (some i))
    | inr d ↦ rw (e, d) (scan_lem store name es (i + 1) none)
  ]
]
scan_lem store name ((n, p) ∷ es) i (some k) = elim (Bool-cases (same_text n name)) [
  | inl e ↦ rw e
  | inr e ↦ rw e (scan_lem store name es (i + 1) (some k))
]

abbrev placed : Entries → List ℕ × ℕ → ℕ → Option ℕ → Entries
placed es e i none = es ++ (e ∷ [])
placed es e i (some k) = set es (k - i) e

placed-cons :
    (x : List ℕ × ℕ) (es : Entries) (e : List ℕ × ℕ) (i : ℕ) (o : Option ℕ)
    → ((k : ℕ) → o ≡ some k → i < k)
    → placed (x ∷ es) e i o ≡ x ∷ placed es e (i + 1) o
placed-cons x es e i none h = refl
placed-cons x es e i (some k) h =
    let a : k - i ≡ suc (k - (i + 1)) = omega (arith, h k refl) in ap (λ j. set (x ∷ es) j e) a

first_dead-ge : (store : Pipes) (es : Entries) (i k : ℕ) → first_dead store es i ≡ some k → i ≤ k
unfolding first_dead
first_dead-ge store [] i k h = cc
first_dead-ge store (x ∷ es) i k h = ground (arith, first_dead-ge store es (i + 1) k)

placed-claim :
    (store : Pipes) (es : Entries) (e : List ℕ × ℕ) (i : ℕ)
    → placed es e i (first_dead store es i) ≡ claim store es e
unfolding first_dead claim
placed-claim store [] e i = refl
placed-claim store (x ∷ es) e i = elim (Bool-cases ((store x.1).dead)) [
  | inl d ↦ let z : i - i ≡ 0 = omega arith in rw (d, z)
  | inr d ↦ rw d (
      placed-cons x es e i (first_dead store es (i + 1))
        (λ k h. omega (arith, first_dead-ge store es (i + 1) k h))
      ∙ ap (λ l. x ∷ l) (placed-claim store es e (i + 1)))
]

-- `mqlist_open` in two cases.
open_known :
    (l : Mqlist) (name : List ℕ) (fresh p : ℕ)
    → find name l.entries ≡ some p
    → mqlist_open l name fresh ≡ (p, record l { store = write_pipe l.store p (reopen (l.store p)) })
unfolding mqlist_open opened
open_known l name fresh p h = rw (scan_lem l.store name l.entries 0 none, h)

open_new :
    (l : Mqlist) (name : List ℕ) (fresh : ℕ)
    → find name l.entries ≡ none
    → mqlist_open l name fresh ≡ (
      fresh,
      record {
        entries = claim l.store l.entries (name, fresh);
        store = write_pipe l.store fresh pipe_new;
      },
    )
unfolding mqlist_open opened
open_new l name fresh h =
    rw (scan_lem l.store name l.entries 0 none, h)
      (go (first_dead l.store l.entries 0) (placed-claim l.store l.entries (name, fresh) 0))
  where
    go :
        (o : Option ℕ)
        → placed l.entries (name, fresh) 0 o ≡ claim l.store l.entries (name, fresh)
        → opened l name fresh (missing o) ≡ (
          fresh,
          record {
            entries = claim l.store l.entries (name, fresh);
            store = write_pipe l.store fresh pipe_new;
          },
        )
    go none e = rw e
    go (some k) e =
        let z : k - 0 ≡ k = omega arith in
        let e' : set l.entries k (name, fresh) ≡ claim l.store l.entries (name, fresh) =
          ap (λ j. set l.entries j (name, fresh)) (sym z) ∙ e in
        rw e'

find-claim_self :
    (store : Pipes) (name : List ℕ) (fresh : ℕ) (es : Entries)
    → find name es ≡ none
    → find name (claim store es (name, fresh)) ≡ some fresh
unfolding find claim
find-claim_self store name fresh [] h = rw (same_text_refl name)
find-claim_self store name fresh ((n, p) ∷ es) h = elim (Bool-cases ((store p).dead)) [
  | inl d ↦ rw (d, same_text_refl name)
  | inr d ↦ ground (arith, find-claim_self store name fresh es)
]

find-claim_other :
    (store : Pipes) (name other : List ℕ) (fresh q : ℕ) (es : Entries)
    → same_text name other ≡ false
    → find other es ≡ some q
    → (store q).dead ≡ false
    → find other (claim store es (name, fresh)) ≡ some q
unfolding find claim
find-claim_other store name other fresh q [] n h a = cc
find-claim_other store name other fresh q ((m, p) ∷ es) n h a = elim (Bool-cases ((store p).dead)) [
  | inl d ↦ ground (arith, n)
  | inr d ↦ ground (arith, find-claim_other store name other fresh q es n)
]

-- No entry has the address.
abbrev pub NotIn : ℕ → Entries → Type 0
NotIn a [] = Unit
NotIn a ((n, p) ∷ es) = (a ≢ p) × NotIn a es

find-ne :
    (a : ℕ) (name : List ℕ) (es : Entries) (q : ℕ) → NotIn a es → find name es ≡ some q → q ≢ a
unfolding find
find-ne a name [] q n h = cc
find-ne a name ((m, p) ∷ es) q n h = elim (Bool-cases (same_text m name)) [
  | inl e ↦ λ z. n.0 (ground arith)
  | inr e ↦ find-ne a name es q n.1 (ground arith)
]

reopen_alive : (p : Pipe) → (reopen p).dead ≡ false
unfolding reopen pipe_new
reopen_alive p = ground arith

-- After `mqlist_open` the name stands for the pipe that was returned, and that pipe is alive.
pub open-find :
    (l : Mqlist) (name : List ℕ) (fresh : ℕ)
    → let (p, l') = mqlist_open l name fresh in
      (find name l'.entries ≡ some p) × ((l'.store p).dead ≡ false)
unfolding write_pipe reopen pipe_new
open-find l name fresh = elim (Option-cases (find name l.entries)) [
  | inl e ↦
      rw (open_new l name fresh e) (find-claim_self l.store name fresh l.entries e, ground arith)
  | inr (p, e) ↦ rw (open_known l name fresh p e) (e, ground arith)
]

-- `mqlist_open` of a name that stands for a pipe that is alive returns this pipe, with one reader and
-- one writer more and with the same messages.
pub open-shares :
    (l : Mqlist) (name : List ℕ) (fresh q : ℕ)
    → find name l.entries ≡ some q
    → (l.store q).dead ≡ false
    → let (p, l') = mqlist_open l name fresh in
      (p ≡ q)
      × ((l'.store p).reader_count ≡ u32 ((l.store q).reader_count + 1))
      × ((l'.store p).writer_count ≡ u32 ((l.store q).writer_count + 1))
      × ((l'.store p).list ≡ (l.store q).list)
unfolding write_pipe reopen pipe_new
open-shares l name fresh q h a =
    rw (open_known l name fresh q h) (ground arith, ground arith, ground arith, ground arith)

-- `mqlist_open` leaves every other name that stands for a pipe that is alive, with its pipe, if
-- the name to open does not stand for the same pipe and the new address is none of the list's.
pub open-other :
    (l : Mqlist) (name other : List ℕ) (fresh q : ℕ)
    → NotIn fresh l.entries
    → name ≢ other
    → find other l.entries ≡ some q
    → find name l.entries ≢ some q
    → (l.store q).dead ≡ false
    → let (p, l') = mqlist_open l name fresh in
      (find other l'.entries ≡ some q) × (l'.store q ≡ l.store q) × (p ≢ q)
unfolding write_pipe
open-other l name other fresh q n ne h d a = elim (Option-cases (find name l.entries)) [
  | inl e ↦ rw (open_new l name fresh e) (
    find-claim_other l.store name other fresh q l.entries differ h a,
    ground (arith, find-ne fresh other l.entries q n h),
    λ z. find-ne fresh other l.entries q n h (sym z),
  )
  | inr (p, e) ↦ rw (open_known l name fresh p e) (h, ground arith, λ z. d (e ∙ ap some z))
]
  where
    differ : same_text name other ≡ false
    differ = elim (Bool-cases (same_text name other)) [
      | inl e ↦ absurd (ne (same_text-eq name other e))
      | inr e ↦ e
    ]
