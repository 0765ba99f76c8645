-- ===== src/Kqueue/Fifo.antt =====
-- The linked queue of src/kqueue.c holds a first-in first-out list of words.
use eedox.Base.{
  ℕ, suc, ◌+◌, ◌^◌, ◌<◌, ◌≡◌, ◌≢◌, refl, sym, ap, ◌∙◌, subst, Bool, true, false, ◌||◌, Option, none,
  some, List, [], ◌∷◌, ◌++◌, arith, ◌==◌, if◌then◌else◌, u32, sub32, length, length-append,
}
use eedox.Kqueue.{
  Element, Heap, Kqueue, done, fault, put, load, store_new, set_next, free, kqueue_push, kqueue_pop,
  kqueue_peek, clear_loop, kqueue_clear,
}

-- The address and the value of each element, in order.
abbrev pub Cells : Type 0
Cells = List (ℕ × ℕ)

abbrev pub values : Cells → List ℕ
values [] = []
values ((_, v) ∷ xs) = v ∷ values xs

abbrev pub has : ℕ → Cells → Bool
has a [] = false
has a ((p, _) ∷ xs) = (a == p) || has a xs

abbrev pub first : Cells → ℕ
first [] = 0
first ((a, _) ∷ xs) = a

abbrev pub last : Cells → ℕ × ℕ
last [] = (0, 0)
last ((a, v) ∷ []) = (a, v)
last (x ∷ y ∷ xs) = last (y ∷ xs)

abbrev pub element : ℕ → ℕ → Element
element q v = record { next = q; value = v }

-- The elements are linked in order, at different addresses, and the last one ends the chain.
abbrev pub Chain : Heap → Cells → Type 0
Chain h [] = Unit
Chain h ((a, v) ∷ xs) =
    (a ≢ 0) × (has a xs ≡ false) × (h a ≡ some (element (first xs) v)) × Chain h xs

pub record IsQueue (h : Heap) (q : Kqueue) (xs : Cells) : Type 0 where
  pub chain : Chain h xs
  pub head : q.head ≡ first xs
  pub tail : q.tail ≡ (last xs).0
  pub size : q.size ≡ length xs
  pub small : length xs < 2 ^ 32

has-snoc : (a f v : ℕ) (xs : Cells) → has a (xs ++ ((f, v) ∷ [])) ≡ (has a xs || (a == f))
has-snoc a f v [] = ground arith
has-snoc a f v ((b, w) ∷ xs) = ground (arith, has-snoc a f v xs)

has-last : (x : ℕ × ℕ) (xs : Cells) → has (last (x ∷ xs)).0 (x ∷ xs) ≡ true
has-last (a, v) [] = ground arith
has-last (a, v) (y ∷ xs) = ground (arith, has-last y xs)

first-snoc : (a f v : ℕ) (w : ℕ) (xs : Cells) → first (((a, w) ∷ xs) ++ ((f, v) ∷ [])) ≡ a
first-snoc a f v w xs = refl

last-snoc : (f v : ℕ) (xs : Cells) → last (xs ++ ((f, v) ∷ [])) ≡ (f, v)
last-snoc f v [] = refl
last-snoc f v (x ∷ []) = refl
last-snoc f v (x ∷ y ∷ xs) = last-snoc f v (y ∷ xs)

pub values-snoc : (f v : ℕ) (xs : Cells) → values (xs ++ ((f, v) ∷ [])) ≡ values xs ++ (v ∷ [])
values-snoc f v [] = refl
values-snoc f v (x ∷ xs) = ap (λ l. x.1 ∷ l) (values-snoc f v xs)

-- The last element ends the chain.
Chain-last :
    (h : Heap) (x : ℕ × ℕ) (xs : Cells)
    → Chain h (x ∷ xs)
    → ((last (x ∷ xs)).0 ≢ 0) × (h (last (x ∷ xs)).0 ≡ some (element 0 (last (x ∷ xs)).1))
Chain-last h (a, v) [] c = (c.0, c.2)
Chain-last h (a, v) (y ∷ xs) c = Chain-last h y xs c.3

-- An address that holds no element is not in the chain.
not-has_of_none : (h : Heap) (xs : Cells) (a : ℕ) → Chain h xs → h a ≡ none → has a xs ≡ false
not-has_of_none h [] a c e = refl
not-has_of_none h ((b, v) ∷ xs) a c e = ground (arith, not-has_of_none h xs a c.3 e)

module _ (h g : Heap) where
  frame : (xs : Cells) → Chain h xs → ((a : ℕ) → has a xs ≡ true → g a ≡ h a) → Chain g xs
  frame [] c same = tt
  frame ((a, v) ∷ xs) c same =
      (c.0, c.1, same a (ground arith) ∙ c.2, frame xs c.3 λ b i. same b (ground arith))

  -- The chain is longer by one when its last element points to the new one.
  extend :
      (x : ℕ × ℕ) (xs : Cells) (fresh v : ℕ)
      → Chain h (x ∷ xs)
      → ((a : ℕ) → has a (x ∷ xs) ≡ true → a ≢ (last (x ∷ xs)).0 → g a ≡ h a)
      → g (last (x ∷ xs)).0 ≡ some (element fresh (last (x ∷ xs)).1)
      → g fresh ≡ some (element 0 v)
      → has fresh (x ∷ xs) ≡ false
      → fresh ≢ 0
      → Chain g (x ∷ (xs ++ ((fresh, v) ∷ [])))
  extend (a, w) [] fresh v c same lst new out ne = (c.0, ground arith, lst, (ne, refl, new, tt))
  extend (a, w) ((b, u) ∷ ys) fresh v c same lst new out ne = (
    c.0,
    ground (arith, has-snoc a fresh v ((b, u) ∷ ys), c.1),
    same a (ground arith)
          (λ e. cc (c.1, subst (λ k. has k ((b, u) ∷ ys) ≡ true) (sym e) (has-last (b, u) ys)))
        ∙ c.2,
    extend (b, u) ys fresh v c.3 (λ x i n. same x (ground arith) n) lst new (ground arith) ne,
  )

load-done : (p : ℕ) (h : Heap) (e : Element) → p ≢ 0 → h p ≡ some e → load p h ≡ done e h
unfolding load
load-done p h e ne at = let t : (p == 0) ≡ false = ground arith in rw (t, at)

store_new-done :
    (p : ℕ) (e : Element) (h : Heap) → p ≢ 0 → store_new p e h ≡ done tt (put h p (some e))
unfolding store_new
store_new-done p e h ne = let t : (p == 0) ≡ false = ground arith in rw t

set_next-done :
    (p r : ℕ) (h : Heap) (e : Element)
    → p ≢ 0
    → h p ≡ some e
    → set_next p r h ≡ done tt (put h p (some (element r e.value)))
unfolding set_next
set_next-done p r h e ne at = rw (load-done p h e ne at)

free-done :
    (p : ℕ) (h : Heap) (e : Element) → p ≢ 0 → h p ≡ some e → free p h ≡ done tt (put h p none)
unfolding free
free-done p h e ne at = rw (load-done p h e ne at)

new_tail :
    (h : Heap) (t a v : ℕ) (xs : Cells)
    → Chain h xs
    → t ≡ (last ((a, v) ∷ xs)).0
    → (if first xs == 0 then 0 else t) ≡ (last xs).0
new_tail h t a v [] c e = refl
new_tail h t a v ((b, u) ∷ xs) c e = ground (arith, c.0)

put_self : (h : Heap) (p : ℕ) (c : Option Element) → put h p c p ≡ c
unfolding put
put_self h p c = ground arith

put-ne : (h : Heap) (p : ℕ) (c : Option Element) (a : ℕ) → a ≢ p → put h p c a ≡ h a
unfolding put
put-ne h p c a n = ground arith

-- An address in the list differs from one that is not.
ne_of_has : (xs : Cells) (a b : ℕ) → has a xs ≡ true → has b xs ≡ false → a ≢ b
ne_of_has xs a b i o e = cc (o, subst (λ k. has k xs ≡ true) e i)

module _ {h : Heap} {q : Kqueue} where
  -- `kqueue_push` at a free address that is not NULL, on a queue with fewer than 2^32 - 1 values,
  -- succeeds and puts the value behind all others; outside the new element and the queue's own
  -- ones it leaves the heap as it is.
  pub push-snoc :
      (fresh v : ℕ) {xs : Cells}
      → IsQueue h q xs
      → fresh ≢ 0
      → h fresh ≡ none
      → length xs + 1 < 2 ^ 32
      → (q' : Kqueue) × (g : Heap) × (kqueue_push fresh q v h ≡ done q' g)
        × IsQueue g q' (xs ++ ((fresh, v) ∷ []))
        × ((a : ℕ) → a ≢ fresh → has a xs ≡ false → g a ≡ h a)
  unfolding kqueue_push put
  push-snoc fresh v {xs = []} is ne e b =
      let t : (q.size == 0) ≡ true = ground (arith, is.size) in
      (
        record { head = fresh; tail = fresh; size = u32 (q.size + 1) },
        put h fresh (some (element 0 v)),
        rw (store_new-done fresh (element 0 v) h ne, t),
        record {
          chain = (ne, refl, ground arith, tt);
          head = refl;
          tail = refl;
          size = omega (arith, is.size);
          small = omega arith;
        },
        λ a n o. ground arith,
      )
  push-snoc fresh v {xs = x ∷ xs} is ne e b =
      let t : (q.size == 0) ≡ false = ground (arith, is.size) in
      let (l_ne, l_at) = Chain-last h x xs is.chain in
      let out = not-has_of_none h (x ∷ xs) fresh is.chain e in
      let l = (last (x ∷ xs)).0 in
      let apart = ne_of_has (x ∷ xs) l fresh (has-last x xs) out in
      let g1 : Heap = put h fresh (some (element 0 v)) in
      let linked : Option Element = some (element fresh (last (x ∷ xs)).1) in
      let at1 : g1 l ≡ some (element 0 (last (x ∷ xs)).1) = put-ne h fresh _ l apart ∙ l_at in
      (
        record q { tail = fresh; size = u32 (q.size + 1) },
        put g1 l linked,
        rw (
          store_new-done fresh (element 0 v) h ne,
          t,
          is.tail,
          set_next-done l fresh g1 _ l_ne at1,
        ),
        record {
          chain =
              extend h (put g1 l linked) x xs fresh v is.chain
                (λ a i n.
                  put-ne g1 l linked a n ∙ put-ne h fresh _ a (ne_of_has (x ∷ xs) a fresh i out))
                (put_self g1 l linked)
                (put-ne g1 l linked fresh (λ e. apart (sym e)) ∙ put_self h fresh _) out ne;
          head = is.head;
          tail = ap (λ (c : ℕ × ℕ). c.0) (sym (last-snoc fresh v (x ∷ xs)));
          size = omega (arith, is.size, length-append xs ((fresh, v) ∷ []));
          small = omega (arith, length-append xs ((fresh, v) ∷ []));
        },
        λ a n o.
            put-ne g1 l linked a (λ e. ne_of_has (x ∷ xs) l a (has-last x xs) o (sym e))
            ∙ put-ne h fresh _ a n,
      )

  -- `kqueue_pop` of a queue that is not empty returns the first value, frees its element, leaves the rest of the queue, and
  -- changes no other address.
  pub pop-cons :
      {a v : ℕ} {xs : Cells}
      → IsQueue h q ((a, v) ∷ xs)
      → (q' : Kqueue) × (kqueue_pop q h ≡ done (v, q') (put h a none))
        × IsQueue (put h a none) q' xs
  unfolding kqueue_pop put
  pop-cons {a} {v} {xs} is = (
    record { head = first xs; tail = if first xs == 0 then 0 else q.tail; size = sub32 q.size 1 },
    rw (is.head, load-done a h _ is.chain.0 is.chain.2, free-done a h _ is.chain.0 is.chain.2),
    record {
      chain = frame h _ xs is.chain.3 (λ b i. ground arith);
      head = refl;
      tail = new_tail h q.tail a v xs is.chain.3 is.tail;
      size = omega (arith, is.size, is.small);
      small = omega (arith, is.small);
    },
  )

  -- `kqueue_peek` of a queue that is not empty returns the first value and changes nothing.
  pub peek-cons : {a v : ℕ} {xs : Cells} → IsQueue h q ((a, v) ∷ xs) → kqueue_peek q h ≡ done v h
  unfolding kqueue_peek
  peek-cons {a} is = rw (is.head, load-done a h _ is.chain.0 is.chain.2)

  -- On an empty queue `kqueue_pop` and `kqueue_peek` read through NULL.
  pub pop-nil : IsQueue h q [] → (kqueue_pop q h ≡ fault) × (kqueue_peek q h ≡ fault)
  unfolding kqueue_pop kqueue_peek load
  pop-nil is = (rw is.head, rw is.head)

  -- `kqueue_clear` of a queue that is not empty, with fuel for two rounds, frees its first element
  -- a second time.
  pub clear-fault :
      (fuel : ℕ) {a v : ℕ} {xs : Cells}
      → IsQueue h q ((a, v) ∷ xs)
      → kqueue_clear (suc (suc fuel)) q h ≡ fault
  unfolding kqueue_clear clear_loop put free load
  clear-fault fuel {a} {v} {xs} is =
      let t : (a == 0) ≡ false = ground (arith, is.chain) in
      let u : (a == a) ≡ true = ground arith in rw (is.head, t, t, is.chain.2, t, u)
