-- ===== src/Llist/Front.antt =====
-- user/llist.c: the operations at the head of the list.
use eedox.Base.{
  ℕ, ◌+◌, ◌^◌, ◌<◌, ◌≡◌, inl, inr, refl, ap, ◌∙◌, subst, true, false, [], ◌∷◌, arith, ◌==◌, ==_iff,
  Bool-cases, length,
}
use eedox.Llist.{Ele, Llist, Eles, put_ele, set_next, llist_fpush, llist_fpop}
use eedox.Llist.Cells.{Cells, first, last, is_in, distinct, Seg, IsLlist, Seg-same}

put_self : (h : Eles) (a : ℕ) (e : Ele) → put_ele h a e a ≡ e
unfolding put_ele
put_self h a e = ground arith

put_other : (h : Eles) (a : ℕ) (e : Ele) (x : ℕ) → (x == a) ≡ false → put_ele h a e x ≡ h x
unfolding put_ele
put_other h a e x n = rw n refl

-- An element of the list is not one that is not in it.
is_in-other : (cs : Cells) (x a : ℕ) → is_in x cs ≡ true → is_in a cs ≡ false → (x == a) ≡ false
is_in-other cs x a i n = elim (Bool-cases (x == a)) [
  | inl e ↦ absurd (ground (arith, i, n, ap (λ y. is_in y cs) ((==_iff x a).0 e)))
  | inr e ↦ e
]

pub fpush-IsLlist :
    (h : Eles) (l : Llist) (cs : Cells) (ele value : ℕ)
    → IsLlist h l cs
    → 0 < ele
    → is_in ele cs ≡ false
    → length cs + 1 < 2 ^ 32
    → let (l', h') = llist_fpush h l ele value in IsLlist h' l' ((ele, value) ∷ cs)
unfolding llist_fpush Seg first last is_in distinct set_next
fpush-IsLlist h l [] ele value i some_ele out small =
    let empty : (l.head == 0) ≡ true = ground (arith, i.head) in
    rw empty (record {
      head = refl;
      tail = refl;
      size = ground (arith, i.size);
      seg = (
        some_ele,
        put_self h ele _
            ∙ ap (λ p. let q : Ele = record { value = value; next = 0; prev = p } in q) i.head,
        _,
      );
      once = ground (arith);
    })
fpush-IsLlist h l (c ∷ cs) ele value i some_ele out small =
    let full : (l.head == 0) ≡ false = ground (arith, i.head, i.seg.0) in
    let fresh : Ele = record { value = value; next = 0; prev = l.head } in
    let h1 = put_ele h ele fresh in
    let other : (c.0 == ele) ≡ false = ground (arith, out) in
    let not_head : (ele == l.head) ≡ false = ground (arith, i.head, other) in
    let apart : is_in ele cs ≡ false = ground (arith, out) in
    let away : is_in c.0 cs ≡ false = ground (arith, i.once) in
    let h2 = put_ele h1 l.head (record (h1 l.head) { next = ele }) in
    let at_head : h2 c.0 ≡ record { value = c.1; next = ele; prev = first cs 0 } =
      subst (λ b. h2 b ≡ record { value = c.1; next = ele; prev = first cs 0 }) i.head
        (put_self h1 l.head _
          ∙ ap (λ (e : Ele). let q : Ele = record e { next = ele } in q)
              (put_other h ele fresh l.head (ground (arith, i.head, other))
                ∙ ap h i.head
                ∙ i.seg.1)) in
    rw full (record {
      head = refl;
      tail = i.tail;
      size = ground (arith, i.size, small);
      seg = (
        some_ele,
        put_other h1 l.head _ ele not_head
            ∙ put_self h ele fresh
            ∙ ap (λ p. let q : Ele = record { value = value; next = 0; prev = p } in q) i.head,
        (
          i.seg.0,
          at_head,
          Seg-same h h2 c.0 cs 0
              (λ x y.
                put_other h1 l.head _ x (ap (λ y. x == y) i.head ∙ is_in-other cs x c.0 y away)
                ∙ put_other h ele fresh x (is_in-other cs x ele y apart))
              i.seg.2,
        ),
      );
      once = ground (arith, i.once, out);
    })

not_null : (n : ℕ) → 0 < n → (n == 0) ≡ false
not_null n l = ground arith

distinct-behind : (c : ℕ × ℕ) (cs : Cells) → distinct (c ∷ cs) ≡ true → distinct cs ≡ true
unfolding distinct
distinct-behind c cs h = ground (arith, h)

distinct-head : (c : ℕ × ℕ) (cs : Cells) → distinct (c ∷ cs) ≡ true → is_in c.0 cs ≡ false
unfolding distinct
distinct-head c cs h = ground (arith, h)

pub fpop-IsLlist :
    (h : Eles) (l : Llist) (c : ℕ × ℕ) (cs : Cells)
    → IsLlist h l (c ∷ cs)
    → length cs + 1 < 2 ^ 32
    → let (value, l', h') = llist_fpop h l in (value ≡ c.1) × IsLlist h' l' cs
unfolding llist_fpop Seg first last is_in distinct set_next
fpop-IsLlist h l c [] i small =
    let e : h l.head ≡ record { value = c.1; next = 0; prev = 0 } = ap h i.head ∙ i.seg.1 in
    rw e (
      refl,
      record { head = refl; tail = refl; size = ground (arith, i.size); seg = _; once = refl },
    )
fpop-IsLlist h l c (d ∷ cs) i small =
    let e : h l.head ≡ record { value = c.1; next = 0; prev = d.0 } = ap h i.head ∙ i.seg.1 in
    let full : (d.0 == 0) ≡ false = not_null d.0 i.seg.2.0 in
    let away : is_in d.0 cs ≡ false = distinct-head d cs (distinct-behind c (d ∷ cs) i.once) in
    rw (e, full)
      (
        refl,
        record {
          head = refl;
          tail = i.tail;
          size = ground (arith, i.size, small);
          seg = (
            i.seg.2.0,
            put_self h d.0 _ ∙ ap (λ (e : Ele). let q : Ele = record e { next = 0 } in q) i.seg.2.1,
            Seg-same h _ d.0 cs 0 (λ x y. put_other h d.0 _ x (is_in-other cs x d.0 y away))
                i.seg.2.2,
          );
          once = distinct-behind c (d ∷ cs) i.once;
        },
      )
