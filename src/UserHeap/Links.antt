-- ===== src/UserHeap/Links.antt =====
-- user/alloc.c: `heap_add_free` and `heap_remove_free` on the list of free blocks.
use eedox.Base.{
  ℕ, ◌<◌, ◌≡◌, ◌⊎◌, inl, inr, refl, sym, ap, ◌∙◌, subst, true, false, List, [], ◌∷◌, ◌++◌,
  append-nil, arith, ◌==◌, if◌then◌else◌, ==_iff, Bool-cases,
}
use eedox.UserHeap.{
  ObjectHeader, Heaped, put, set_next_free, set_prev_free, heap_add_free, heap_remove_free,
}
use eedox.UserHeap.FreeList.{
  is_in, distinct, first, last, NextChain, PrevChain, IsFreeList, Next-same, Prev-same, in-other,
  last-in, is_in-behind, is_in-append, distinct-head, distinct-tail, Next-unlink, Prev-unlink,
}

-- The links that `heap_remove_free` leaves.
module _ (s : Heaped) (h : ℕ) where
  abbrev next : ℕ
  next = (s.headers h).next_free

  abbrev prev : ℕ
  prev = (s.headers h).prev_free

  abbrev after : ℕ → ObjectHeader
  after = (heap_remove_free s h).headers

  next-kept :
      (x : ℕ)
      → (x == h) ≡ false
      → (prev ≡ 0) ⊎ ((x == prev) ≡ false)
      → (after x).next_free ≡ (s.headers x).next_free
  unfolding heap_remove_free put set_next_free set_prev_free
  next-kept x e o = ground (arith, e, o)

  next-set : 0 < prev → (prev == h) ≡ false → (after prev).next_free ≡ next
  unfolding heap_remove_free put set_next_free set_prev_free
  next-set l e = ground (arith, l, e)

  prev-kept :
      (x : ℕ)
      → (x == h) ≡ false
      → (next ≡ 0) ⊎ ((x == next) ≡ false)
      → (after x).prev_free ≡ (s.headers x).prev_free
  unfolding heap_remove_free put set_next_free set_prev_free
  prev-kept x e o = ground (arith, e, o)

  prev-set : 0 < next → (next == h) ≡ false → (after next).prev_free ≡ prev
  unfolding heap_remove_free put set_next_free set_prev_free
  prev-set l e = ground (arith, l, e)

-- The links that `heap_add_free` leaves.
module _ (s : Heaped) (h : ℕ) where
  abbrev added : ℕ → ObjectHeader
  added = (heap_add_free s h).headers

  next-added : (x : ℕ) → (x == h) ≡ false → (added x).next_free ≡ (s.headers x).next_free
  unfolding heap_add_free put set_next_free set_prev_free
  next-added x e = ground (arith, e)

  next-first : (added h).next_free ≡ s.mem.free
  unfolding heap_add_free put set_next_free set_prev_free
  next-first = ground arith

  prev-added :
      (x : ℕ)
      → (x == h) ≡ false
      → (s.mem.free ≡ 0) ⊎ ((x == s.mem.free) ≡ false)
      → (added x).prev_free ≡ (s.headers x).prev_free
  unfolding heap_add_free put set_next_free set_prev_free
  prev-added x e o = ground (arith, e, o)

  prev-first : (s.mem.free ≡ 0) ⊎ ((h == s.mem.free) ≡ false) → (added h).prev_free ≡ 0
  unfolding heap_add_free put set_next_free set_prev_free
  prev-first o = ground (arith, o)

  prev-second : 0 < s.mem.free → (added s.mem.free).prev_free ≡ h
  unfolding heap_add_free put set_next_free set_prev_free
  prev-second l = ground (arith, l)

-- `heap_add_free` puts a block that is not in the list in front of it.
pub add-IsFreeList :
    (s : Heaped) (cs : List ℕ) (h : ℕ)
    → IsFreeList s cs
    → 0 < h
    → is_in h cs ≡ false
    → IsFreeList (heap_add_free s h) (h ∷ cs)
unfolding heap_add_free NextChain PrevChain first is_in distinct
add-IsFreeList s [] h f some_block out = record {
  free = refl;
  next = (next-first s h ∙ f.free, _);
  prev = (prev-first s h (inl f.free), _);
  once = refl;
  some_block = ground (arith, some_block);
}
add-IsFreeList s (c ∷ cs) h f some_block out =
    let other : (h == c) ≡ false = ground (arith, out) in
    let away = distinct-head c cs f.once in
    let out_cs : is_in h cs ≡ false = ground (arith, out) in
    let some_c : 0 < s.mem.free = ground (arith, f.free, f.some_block) in
    record {
      free = refl;
      next = (
        next-first s h ∙ f.free,
        Next-same _ _ (c ∷ cs) (λ x i. next-added s h x (in-other (c ∷ cs) x h i out)) f.next,
      );
      prev = (
        prev-first s h (inr (ap (λ x. h == x) f.free ∙ other)),
        (
          ap (λ x. (added s h x).prev_free) (sym f.free) ∙ prev-second s h some_c,
          Prev-same _ _ cs c
              (λ x i.
                prev-added s h x (in-other cs x h i out_cs)
                  (inr (ap (λ y. x == y) f.free ∙ in-other cs x c i away)))
              f.prev.1,
        ),
      );
      once = ground (arith, out, f.once);
      some_block = ground (arith, some_block, f.some_block);
    }

-- The links of a block of the list.
Next-at :
    (f : ℕ → ℕ) (pre post : List ℕ) (h : ℕ) → NextChain f (pre ++ (h ∷ post)) → f h ≡ first post
unfolding NextChain
Next-at f [] post h c = c.0
Next-at f (a ∷ pre) post h c = Next-at f pre post h c.1

Prev-at :
    (f : ℕ → ℕ) (pre post : List ℕ) (h pv : ℕ)
    → PrevChain f pv (pre ++ (h ∷ post))
    → f h ≡ last pv pre
unfolding PrevChain last
Prev-at f [] post h pv c = c.0
Prev-at f (a ∷ pre) post h pv c = Prev-at f pre post h a c.1

distinct-without :
    (pre post : List ℕ) (h : ℕ)
    → distinct (pre ++ (h ∷ post)) ≡ true
    → (distinct (pre ++ post) ≡ true) × (is_in h pre ≡ false) × (is_in h post ≡ false)
unfolding distinct is_in
distinct-without [] post h d = (distinct-tail h post d, refl, distinct-head h post d)
distinct-without (a ∷ pre) post h d =
    let r = distinct-without pre post h (distinct-tail a (pre ++ (h ∷ post)) d) in
    let away = distinct-head a (pre ++ (h ∷ post)) d in
    (
      ground (arith, r.0, away, is_in-append a pre (h ∷ post), is_in-append a pre post),
      ground (arith, r.1, away, is_in-append a pre (h ∷ post)),
      r.2,
    )

first-cases : (cs : List ℕ) → (cs ≡ []) ⊎ (is_in (first cs) cs ≡ true)
unfolding first is_in
first-cases [] = inl refl
first-cases (c ∷ cs) = inr (ground arith)

removed-free :
    (s : Heaped) (h : ℕ)
    → (heap_remove_free s h).mem.free
      ≡ (if s.mem.free == h then (s.headers h).next_free else s.mem.free)
unfolding heap_remove_free
removed-free s h = elim (Bool-cases (s.mem.free == h)) [ inl e ↦ rw e refl | inr e ↦ rw e refl ]

-- A block of the list is taken out of it.
module _ (s : Heaped) (pre post : List ℕ) (h : ℕ) (f : IsFreeList s (pre ++ (h ∷ post))) where
  next_is : (s.headers h).next_free ≡ first post
  next_is = Next-at _ pre post h f.next

  prev_is : (s.headers h).prev_free ≡ last 0 pre
  prev_is = Prev-at _ pre post h 0 f.prev

  some_listed : (x : ℕ) → is_in x (pre ++ (h ∷ post)) ≡ true → 0 < x
  some_listed x i = ground (arith, in-other (pre ++ (h ∷ post)) x 0 i f.some_block)

  removed_prev : PrevChain (λ x. (after s h x).prev_free) 0 (pre ++ post)
  unfolding first is_in
  removed_prev =
      let once = distinct-without pre post h f.once in
      Prev-unlink (λ x. (s.headers x).prev_free) _ h post pre 0 f.prev f.once
        (elim (first-cases post) [
          | inl e ↦ inl e
          | inr i ↦
              let listed : is_in (first post) (pre ++ (h ∷ post)) ≡ true =
                ground (arith, is_in-append (first post) pre (h ∷ post), i) in
              let some_next : 0 < (s.headers h).next_free =
                subst (λ y. 0 < y) (sym next_is) (some_listed (first post) listed) in
              let other : ((s.headers h).next_free == h) ≡ false =
                ap (λ y. y == h) next_is ∙ in-other post (first post) h i once.2 in
              inr (
                ap (λ x. (after s h x).prev_free) (sym next_is)
                ∙ prev-set s h some_next other
                ∙ prev_is)
        ])
        (λ x o e. prev-kept s h x e (elim o [
          | inl n ↦ inl (next_is ∙ ap first n)
          | inr n ↦ inr (ap (λ y. x == y) next_is ∙ n)
        ]))

-- `heap_remove_free` takes a block out of the list, wherever it stands.
pub remove-IsFreeList :
    (s : Heaped) (pre post : List ℕ) (h : ℕ)
    → IsFreeList s (pre ++ (h ∷ post))
    → IsFreeList (heap_remove_free s h) (pre ++ post)
unfolding NextChain first last is_in
remove-IsFreeList s [] post h f =
    let n = next_is s [] post h f in
    let once = distinct-without [] post h f.once in
    let here : (s.mem.free == h) ≡ true = (==_iff _ _).1 f.free in
    record {
      free =
          removed-free s h ∙ ap (λ b. if b then (s.headers h).next_free else s.mem.free) here ∙ n;
      next =
          Next-same _ _ post
            (λ x i. next-kept s h x (in-other post x h i once.2) (inl (prev_is s [] post h f)))
            f.next.1;
      prev = removed_prev s [] post h f;
      once = once.0;
      some_block = (is_in-behind 0 h [] post f.some_block).1;
    }
remove-IsFreeList s (a ∷ pre) post h f =
    let n = next_is s (a ∷ pre) post h f in
    let p = prev_is s (a ∷ pre) post h f in
    let once = distinct-without (a ∷ pre) post h f.once in
    let away = is_in-behind a h pre post (distinct-head a (pre ++ (h ∷ post)) f.once) in
    let here : (s.mem.free == h) ≡ false = ap (λ x. x == h) f.free ∙ away.0 in
    let in_pre : is_in (last a pre) (a ∷ pre) ≡ true =
      subst (λ l. is_in (last a pre) (a ∷ l) ≡ true) (append-nil pre) (last-in a pre []) in
    let some_prev : 0 < (s.headers h).prev_free =
      subst (λ y. 0 < y) (sym p)
        (some_listed s (a ∷ pre) post h f (last a pre) (last-in a pre (h ∷ post))) in
    let other : ((s.headers h).prev_free == h) ≡ false =
      ap (λ y. y == h) p ∙ in-other (a ∷ pre) (last a pre) h in_pre once.1 in
    record {
      free =
          removed-free s h
          ∙ ap (λ b. if b then (s.headers h).next_free else s.mem.free) here
          ∙ f.free;
      next =
          Next-unlink (λ x. (s.headers x).next_free) _ h post pre a f.next f.once
            (ap (λ x. (after s h x).next_free) (sym p) ∙ next-set s h some_prev other ∙ n)
            (λ x e o. next-kept s h x o (inr (ap (λ y. x == y) p ∙ e)));
      prev = removed_prev s (a ∷ pre) post h f;
      once = once.0;
      some_block =
          ground (arith, is_in-append 0 pre (h ∷ post), is_in-append 0 pre post, f.some_block);
    }
