-- ===== src/Llist/Cells.antt =====
-- The elements of the list of user/llist.c, from either end.
use eedox.Base.{
  ℕ, ◌<◌, ◌≡◌, refl, sym, ap, ◌∙◌, Bool, true, false, ◌&&◌, ◌||◌, not, List, [], ◌∷◌, ◌++◌, arith,
  ◌==◌, length, length-append,
}
use eedox.Llist.{Ele, Llist, Eles}

-- The address and the value of each element, from the head on.
abbrev pub Cells : Type 0
Cells = List (ℕ × ℕ)

-- The address of the first element, or `pv`; that of the last one, or `nx`.
unfoldable pub first : Cells → ℕ → ℕ
first [] pv = pv
first (c ∷ cs) pv = c.0

unfoldable pub last : ℕ → Cells → ℕ
last nx [] = nx
last nx (c ∷ cs) = last c.0 cs

unfoldable pub is_in : ℕ → Cells → Bool
is_in a [] = false
is_in a (c ∷ cs) = (c.0 == a) || is_in a cs

unfoldable pub distinct : Cells → Bool
distinct [] = true
distinct (c ∷ cs) = not (is_in c.0 cs) && distinct cs

-- The elements stand in a row, the first one behind `nx` and the last one before `pv`.
unfoldable pub Seg : Eles → ℕ → Cells → ℕ → Type 0
Seg h nx [] pv = Unit
Seg h nx (c ∷ cs) pv =
    (0 < c.0) × (h c.0 ≡ record { value = c.1; next = nx; prev = first cs pv }) × Seg h c.0 cs pv

-- The list has these elements.
pub record IsLlist (h : Eles) (l : Llist) (cs : Cells) : Type 0 where
  pub head : l.head ≡ first cs 0
  pub tail : l.tail ≡ last 0 cs
  pub size : l.size ≡ length cs
  pub seg : Seg h 0 cs 0
  pub once : distinct cs ≡ true

pub Seg-same :
    (h h' : Eles) (nx : ℕ) (cs : Cells) (pv : ℕ)
    → ((x : ℕ) → is_in x cs ≡ true → h' x ≡ h x)
    → Seg h nx cs pv
    → Seg h' nx cs pv
unfolding Seg is_in
Seg-same h h' nx [] pv same s = _
Seg-same h h' nx (c ∷ cs) pv same s = (
  s.0,
  same c.0 (ground arith) ∙ s.1,
  Seg-same h h' c.0 cs pv (λ x i. same x (ground (arith, i))) s.2,
)

-- The list from its other end.
abbrev pub mirror : Eles → Eles
mirror h x = record { value = (h x).value; next = (h x).prev; prev = (h x).next }

abbrev pub flip : Llist → Llist
flip l = record { head = l.tail; tail = l.head; size = l.size }

unfoldable pub back : Cells → Cells
back [] = []
back (c ∷ cs) = back cs ++ (c ∷ [])

first-snoc : (cs : Cells) (c : ℕ × ℕ) (pv : ℕ) → first (cs ++ (c ∷ [])) pv ≡ first cs c.0
unfolding first
first-snoc [] c pv = refl
first-snoc (d ∷ cs) c pv = refl

last-snoc : (cs : Cells) (c : ℕ × ℕ) (nx : ℕ) → last nx (cs ++ (c ∷ [])) ≡ c.0
unfolding last
last-snoc [] c nx = refl
last-snoc (d ∷ cs) c nx = last-snoc cs c d.0

last-back : (cs : Cells) (pv : ℕ) → last pv (back cs) ≡ first cs pv
unfolding back first last
last-back [] pv = refl
last-back (c ∷ cs) pv = last-snoc (back cs) c pv

first-back : (cs : Cells) (nx : ℕ) → first (back cs) nx ≡ last nx cs
unfolding back first last
first-back [] nx = refl
first-back (c ∷ cs) nx = first-snoc (back cs) c nx ∙ first-back cs c.0

Seg-snoc :
    (h : Eles) (nx : ℕ) (cs : Cells) (c : ℕ × ℕ) (pv : ℕ)
    → Seg h nx cs c.0
    → 0 < c.0
    → h c.0 ≡ record { value = c.1; next = last nx cs; prev = pv }
    → Seg h nx (cs ++ (c ∷ [])) pv
unfolding Seg last first
Seg-snoc h nx [] c pv s l e = (l, e, _)
Seg-snoc h nx (d ∷ cs) c pv s l e = (
  s.0,
  s.1
      ∙ ap (λ p. let q : Ele = record { value = d.1; next = nx; prev = p } in q)
          (sym (first-snoc cs c pv)),
  Seg-snoc h d.0 cs c pv s.2 l e,
)

Seg-back :
    (h : Eles) (nx : ℕ) (cs : Cells) (pv : ℕ) → Seg h nx cs pv → Seg (mirror h) pv (back cs) nx
unfolding Seg back
Seg-back h nx [] pv s = _
Seg-back h nx (c ∷ cs) pv s = Seg-snoc (mirror h) pv (back cs) c nx (Seg-back h c.0 cs pv s.2) s.0 (
    ap (λ (e : Ele). let q : Ele = record { value = e.value; next = e.prev; prev = e.next } in q)
      s.1
    ∙ ap (λ p. let q : Ele = record { value = c.1; next = p; prev = nx } in q)
        (sym (last-back cs pv)))

is_in-snoc :
    (x : ℕ) (ds : Cells) (c : ℕ × ℕ) → is_in x (ds ++ (c ∷ [])) ≡ ((c.0 == x) || is_in x ds)
unfolding is_in
is_in-snoc x [] c = refl
is_in-snoc x (d ∷ ds) c = ground (arith, is_in-snoc x ds c)

pub is_in-back : (x : ℕ) (cs : Cells) → is_in x (back cs) ≡ is_in x cs
unfolding is_in back
is_in-back x [] = refl
is_in-back x (c ∷ cs) = is_in-snoc x (back cs) c ∙ ap (λ b. (c.0 == x) || b) (is_in-back x cs)

pub back-snoc : (cs : Cells) (c : ℕ × ℕ) → back (cs ++ (c ∷ [])) ≡ c ∷ back cs
unfolding back
back-snoc [] c = refl
back-snoc (d ∷ cs) c = ap (λ l. l ++ (d ∷ [])) (back-snoc cs c)

pub back-back : (cs : Cells) → back (back cs) ≡ cs
unfolding back
back-back [] = refl
back-back (c ∷ cs) = back-snoc (back cs) c ∙ ap (λ l. c ∷ l) (back-back cs)

distinct-snoc :
    (cs : Cells) (c : ℕ × ℕ) → distinct (cs ++ (c ∷ [])) ≡ (not (is_in c.0 cs) && distinct cs)
unfolding distinct is_in
distinct-snoc [] c = refl
distinct-snoc (d ∷ cs) c = ground (arith, distinct-snoc cs c, is_in-snoc d.0 cs c)

distinct-back : (cs : Cells) → distinct (back cs) ≡ distinct cs
unfolding distinct back
distinct-back [] = refl
distinct-back (c ∷ cs) =
    ground (arith, distinct-snoc (back cs) c, distinct-back cs, is_in-back c.0 cs)

pub length-back : (cs : Cells) → length (back cs) ≡ length cs
unfolding back
length-back [] = refl
length-back (c ∷ cs) = length-append (back cs) (c ∷ []) ∙ omega (arith, length-back cs)

-- Seen from the other end, the elements stand the other way round.
pub IsLlist-back :
    (h : Eles) (l : Llist) (cs : Cells) → IsLlist h l cs → IsLlist (mirror h) (flip l) (back cs)
IsLlist-back h l cs i = record {
  head = i.tail ∙ sym (first-back cs 0);
  tail = i.head ∙ sym (last-back cs 0);
  size = i.size ∙ sym (length-back cs);
  seg = Seg-back h 0 cs 0 i.seg;
  once = distinct-back cs ∙ i.once;
}
