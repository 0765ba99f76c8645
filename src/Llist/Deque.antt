-- ===== src/Llist/Deque.antt =====
-- user/llist.c: the list as a sequence that grows and shrinks at both ends.
use eedox.Base.{
  ℕ, ◌+◌, ◌^◌, ◌<◌, ◌≡◌, inl, inr, refl, sym, ap, ◌∙◌, subst, fun_ext, true, false, some, [], ◌∷◌,
  ◌++◌, arith, ◌==◌, u32, sub32, Bool-cases, length, length-append,
}
use eedox.Llist.{
  Ele, Llist, Eles, put_ele, set_next, set_prev, llist_size, llist_fpush, llist_fpop, llist_bpush,
  llist_bpop, llist_clear, clear_loop, llist_fpeek, llist_bpeek,
}
use eedox.Llist.Cells.{
  Cells, is_in, IsLlist, mirror, flip, back, is_in-back, length-back, back-snoc, back-back,
  IsLlist-back,
}
use eedox.Llist.Front.{fpush-IsLlist, fpop-IsLlist}

mirror-put :
    (h : Eles) (a : ℕ) (e : Ele)
    → mirror (put_ele (mirror h) a e)
      ≡ put_ele h a (record { value = e.value; next = e.prev; prev = e.next })
unfolding put_ele
mirror-put h a e =
    fun_ext (λ x. elim (Bool-cases (x == a)) [ inl t ↦ rw t refl | inr t ↦ rw t refl ])

mirror-next : (h : Eles) (a n : ℕ) → mirror (set_next (mirror h) a n) ≡ set_prev h a n
unfolding set_next set_prev
mirror-next h a n = mirror-put h a (record (mirror h a) { next = n })

-- `llist_bpush` is `llist_fpush` from the other end.
bpush-mirror :
    (h : Eles) (l : Llist) (ele value : ℕ)
    → let (l', h') = llist_fpush (mirror h) (flip l) ele value in
      llist_bpush h l ele value ≡ (flip l', mirror h')
unfolding llist_fpush llist_bpush set_next set_prev
bpush-mirror h l ele value =
    let fresh : Ele = record { value = value; next = 0; prev = l.tail } in
    let h1 = put_ele (mirror h) ele fresh in
    elim (Bool-cases (l.tail == 0)) [
      | inl e ↦ rw e (
          ap (λ m. (record { head = ele; tail = ele; size = u32 (l.size + 1) }, m))
            (sym (mirror-put h ele fresh)))
      | inr e ↦ rw e (
          ap (λ m. (record { head = l.head; tail = ele; size = u32 (l.size + 1) }, m))
            (sym (
              ap (λ g. mirror (set_next g l.tail ele)) (ap mirror (mirror-put h ele fresh))
              ∙ mirror-next (put_ele h ele (record { value = value; next = l.tail; prev = 0 }))
                  l.tail ele)))
    ]

bpop-mirror :
    (h : Eles) (l : Llist)
    → let (value, l', h') = llist_fpop (mirror h) (flip l) in
      llist_bpop h l ≡ (value, flip l', mirror h')
unfolding llist_fpop llist_bpop set_next set_prev
bpop-mirror h l = elim (Bool-cases ((h l.tail).next == 0)) [
  | inl e ↦ rw e refl
  | inr e ↦ rw e (
      ap
        (λ m. (
          (h l.tail).value,
          record { head = l.head; tail = (h l.tail).next; size = sub32 l.size 1 },
          m,
        ))
        (sym (mirror-next h (h l.tail).next 0)))
]

pub bpush-IsLlist :
    (h : Eles) (l : Llist) (cs : Cells) (ele value : ℕ)
    → IsLlist h l cs
    → 0 < ele
    → is_in ele cs ≡ false
    → length cs + 1 < 2 ^ 32
    → let (l', h') = llist_bpush h l ele value in IsLlist h' l' (cs ++ ((ele, value) ∷ []))
unfolding back
bpush-IsLlist h l cs ele value i some_ele out small =
    let (l', h') = llist_fpush (mirror h) (flip l) ele value in
    let pushed =
      fpush-IsLlist (mirror h) (flip l) (back cs) ele value (IsLlist-back h l cs i) some_ele
        (is_in-back ele cs ∙ out) (omega (arith, length-back cs, small)) in
    subst (λ (r : Llist × Eles). IsLlist r.1 r.0 (cs ++ ((ele, value) ∷ [])))
      (sym (bpush-mirror h l ele value))
      (subst (λ ds. IsLlist (mirror h') (flip l') (ds ++ ((ele, value) ∷ []))) (back-back cs)
        (IsLlist-back h' l' ((ele, value) ∷ back cs) pushed))

pub bpop-IsLlist :
    (h : Eles) (l : Llist) (c : ℕ × ℕ) (cs : Cells)
    → IsLlist h l (cs ++ (c ∷ []))
    → length cs + 1 < 2 ^ 32
    → let (value, l', h') = llist_bpop h l in (value ≡ c.1) × IsLlist h' l' cs
bpop-IsLlist h l c cs i small =
    let (value, l', h') = llist_fpop (mirror h) (flip l) in
    let popped =
      fpop-IsLlist (mirror h) (flip l) c (back cs)
        (subst (IsLlist (mirror h) (flip l)) (back-snoc cs c) (IsLlist-back h l (cs ++ (c ∷ [])) i))
        (omega (arith, length-back cs, small)) in
    subst (λ (r : ℕ × Llist × Eles). (r.0 ≡ c.1) × IsLlist r.2 r.1 cs) (sym (bpop-mirror h l))
      (
        popped.0,
        subst (IsLlist (mirror h') (flip l')) (back-back cs)
            (IsLlist-back h' l' (back cs) popped.1),
      )

clear_loop-IsLlist :
    (h : Eles) (l : Llist) (cs : Cells)
    → IsLlist h l cs
    → length cs < 2 ^ 32
    → (l' : Llist) × (h' : Eles) × (clear_loop h l (length cs) ≡ some (l', h')) × IsLlist h' l' []
unfolding clear_loop
clear_loop-IsLlist h l [] i small =
    (l, h, (let e : (l.size == 0) ≡ true = ground (arith, i.size) in rw e refl), i)
clear_loop-IsLlist h l (c ∷ cs) i small =
    let (value, l1, h1) = llist_fpop h l in
    let popped = fpop-IsLlist h l c cs i (omega (arith, small)) in
    let (l', h', run, e) = clear_loop-IsLlist h1 l1 cs popped.1 (omega (arith, small)) in
    (l', h', (let e : (l.size == 0) ≡ false = ground (arith, i.size) in rw e run), e)

-- The list of user/llist.c stands for the sequence of its values with their addresses, from the head
-- on. `llist_fpush` puts an element in front and `llist_bpush` one behind, where malloc returns an
-- address that is not NULL and not that of an element. `llist_fpop` takes the first element and
-- `llist_bpop` the last one, and returns its value, which is the one that `llist_fpeek` or
-- `llist_bpeek` gives. `llist_size` is the number of elements, and `llist_clear` ends and leaves none.
-- The size must not wrap.
pub llist-IsLlist :
    (h : Eles) (l : Llist) (cs : Cells)
    → IsLlist h l cs
    → length cs + 1 < 2 ^ 32
    → (llist_size l ≡ length cs)
      × ((ele value : ℕ)
          → 0 < ele
          → is_in ele cs ≡ false
          → (let (l', h') = llist_fpush h l ele value in IsLlist h' l' ((ele, value) ∷ cs))
            × (let (l', h') = llist_bpush h l ele value in
                IsLlist h' l' (cs ++ ((ele, value) ∷ []))))
      × ((c : ℕ × ℕ) (ds : Cells)
          → cs ≡ c ∷ ds
          → let (value, l', h') = llist_fpop h l in
            (value ≡ c.1) × (llist_fpeek h l ≡ c.1) × IsLlist h' l' ds)
      × ((c : ℕ × ℕ) (ds : Cells)
          → cs ≡ ds ++ (c ∷ [])
          → let (value, l', h') = llist_bpop h l in
            (value ≡ c.1) × (llist_bpeek h l ≡ c.1) × IsLlist h' l' ds)
      × ((l' : Llist) × (h' : Eles) × (llist_clear h l ≡ some (l', h')) × IsLlist h' l' [])
unfolding llist_size llist_fpeek llist_bpeek llist_clear llist_fpop llist_bpop
llist-IsLlist h l cs i small = (
  i.size,
  λ ele value some_ele out. (
    fpush-IsLlist h l cs ele value i some_ele out small,
    bpush-IsLlist h l cs ele value i some_ele out small,
  ),
  λ c ds e.
      let r = fpop-IsLlist h l c ds (subst (IsLlist h l) e i) (omega (arith, small, ap length e)) in
      (r.0, r.0, r.1),
  λ c ds e.
      let r =
        bpop-IsLlist h l c ds (subst (IsLlist h l) e i)
          (omega (arith, small, ap length e, length-append ds (c ∷ []))) in
      (r.0, r.0, r.1),
  (let (l', h', run, e) = clear_loop-IsLlist h l cs i (omega (arith, small)) in
      (l', h', ap (clear_loop h l) i.size ∙ run, e)),
)
