-- ===== src/Ordlist/Order.antt =====
-- Insertion and removal on the ordered array of src/ordlist.c.
use eedox.Base.{
  ℕ, zero, suc, ◌+◌, ◌-◌, ◌≤◌, ◌<◌, ◌≡◌, ◌≢◌, inl, inr, refl, sym, ◌∙◌, subst, true, false, ◌&&◌,
  arith, ltb, leb, ◌==◌, if◌then◌else◌, Bool-cases,
}
use eedox.Base.Int.{ℤ, pos, negsuc}
use eedox.Memory.{Mem, store}
use eedox.Ordlist.{
  OrderKind, ascending, descending, is_int, Ordlist, is_behind, shift_up, ordlist_insert,
  shift_down, ordlist_remove,
}

-- What the loop of `ordlist_insert` leaves: the index `i` is free, what stood from there on has
-- moved up by one, and all that was moved, and nothing right before it, has to stand behind `elem`.
pub record Shifted (cmp : ℕ → ℕ → ℤ) (order : OrderKind) (elem : ℕ) (a : Mem) (n i : ℕ) (b : Mem)
    : Type 0 where
  pub le : i ≤ n
  below : (k : ℕ) → k < i → b k ≡ a k
  moved : (k : ℕ) → i ≤ k → k < n → b (k + 1) ≡ a k
  above : (k : ℕ) → n < k → b k ≡ a k
  behind : (k : ℕ) → i ≤ k → k < n → is_behind cmp order (a k) elem ≡ true
  before : (k : ℕ) → k + 1 ≡ i → is_behind cmp order (a k) elem ≡ false

Shifted-step :
    (cmp : ℕ → ℕ → ℤ) (order : OrderKind) (elem : ℕ) (a : Mem) (n i : ℕ) (b : Mem)
    → is_behind cmp order (a n) elem ≡ true
    → Shifted cmp order elem (store a (suc n) (a n)) n i b
    → Shifted cmp order elem a (suc n) i b
unfolding store
Shifted-step cmp order elem a n i b test s = record {
  le = omega (arith, s.le);
  below = λ k h. ground (arith, s.below k, s.le);
  moved = λ k h l. ground (arith, s.moved k, s.above (k + 1));
  above = λ k h. ground (arith, s.above k);
  behind = λ k h l. elim (Bool-cases (k == n)) [
    | inl e ↦ subst (λ j. is_behind cmp order (a j) elem ≡ true) (ground arith) test
    | inr e ↦ ground (arith, s.behind k)
  ];
  before = λ k h. ground (arith, s.before k, s.le);
}

pub shift_up-Shifted :
    (cmp : ℕ → ℕ → ℤ) (order : OrderKind) (elem : ℕ) (a : Mem) (n : ℕ)
    → let r = shift_up cmp order elem a n in Shifted cmp order elem a n r.0 r.1
unfolding shift_up
shift_up-Shifted cmp order elem a zero = record {
  le = omega arith;
  below = λ k h. refl;
  moved = λ k h l. absurd (omega arith);
  above = λ k h. refl;
  behind = λ k h l. absurd (omega arith);
  before = λ k h. absurd (omega arith);
}
shift_up-Shifted cmp order elem a (suc n) = elim (Bool-cases (is_behind cmp order (a n) elem)) [
  | inl e ↦ rw e (
      Shifted-step cmp order elem a n _ _ e
        (shift_up-Shifted cmp order elem (store a (suc n) (a n)) n))
  | inr e ↦ rw e (record {
    le = omega arith;
    below = λ k h. refl;
    moved = λ k h l. absurd (omega arith);
    above = λ k h. refl;
    behind = λ k h l. absurd (omega arith);
    before = λ k h. subst (λ j. is_behind cmp order (a j) elem ≡ false) (omega arith) e;
  })
]

-- `a` may stand before `b`: in ascending order it does not compare as the greater one (1), in
-- descending order not as the smaller one (-1).
unfoldable pub MayPrecede : (ℕ → ℕ → ℤ) → OrderKind → ℕ → ℕ → Type 0
MayPrecede cmp ascending a b = cmp a b ≢ pos 1
MayPrecede cmp descending a b = cmp a b ≢ negsuc 0

-- Every element may stand before all that are behind it.
unfoldable pub IsOrdered : Ordlist → Type 0
IsOrdered l = (i j : ℕ) → i < j → j < l.size → MayPrecede l.cmp l.order (l.array i) (l.array j)

-- What a comparison function must satisfy: a is greater than b exactly when b is smaller than a, none
-- is both, and what is not greater is so transitively.
pub record IsComparison (cmp : ℕ → ℕ → ℤ) : Type 0 where
  pub greater : (a b : ℕ) → cmp a b ≡ pos 1 → cmp b a ≡ negsuc 0
  pub smaller : (a b : ℕ) → cmp a b ≡ negsuc 0 → cmp b a ≡ pos 1
  pub trans : (a b c : ℕ) → cmp a b ≢ pos 1 → cmp b c ≢ pos 1 → cmp a c ≢ pos 1

-- The test of the code tells whether `held` may not stay before `elem`.
is_int-≡ : (x y : ℤ) → is_int x y ≡ true → x ≡ y
is_int-≡ (pos a) (pos b) e = ground arith
is_int-≡ (pos a) (negsuc b) e = ground arith
is_int-≡ (negsuc a) (pos b) e = ground arith
is_int-≡ (negsuc a) (negsuc b) e = ground arith

is_int_self : (x : ℤ) → is_int x x ≡ true
is_int_self (pos a) = ground arith
is_int_self (negsuc a) = ground arith

may_stay :
    (cmp : ℕ → ℕ → ℤ) (order : OrderKind) (held elem : ℕ)
    → is_behind cmp order held elem ≡ false
    → MayPrecede cmp order held elem
unfolding is_behind MayPrecede
may_stay cmp ascending held elem e = λ g.
    absurd (ground (arith, e, subst (λ x. is_int x (pos 1) ≡ true) (sym g) (is_int_self (pos 1))))
may_stay cmp descending held elem e = λ g.
    absurd
      (ground (arith, e, subst (λ x. is_int x (negsuc 0) ≡ true) (sym g) (is_int_self (negsuc 0))))

must_move :
    (cmp : ℕ → ℕ → ℤ) (order : OrderKind) (held elem : ℕ)
    → is_behind cmp order held elem ≡ true
    → ¬ MayPrecede cmp order held elem
unfolding is_behind MayPrecede
must_move cmp ascending held elem e = λ g. g (is_int-≡ _ _ e)
must_move cmp descending held elem e = λ g. g (is_int-≡ _ _ e)

stays :
    (cmp : ℕ → ℕ → ℤ) (order : OrderKind) (held elem : ℕ)
    → MayPrecede cmp order held elem
    → is_behind cmp order held elem ≡ false
stays cmp order held elem h = elim (Bool-cases (is_behind cmp order held elem)) [
  | inl e ↦ absurd (must_move cmp order held elem e h)
  | inr e ↦ e
]

MayPrecede-asym :
    (cmp : ℕ → ℕ → ℤ) (order : OrderKind) (a b : ℕ)
    → IsComparison cmp
    → ¬ MayPrecede cmp order a b
    → MayPrecede cmp order b a
unfolding MayPrecede
MayPrecede-asym cmp ascending a b c h =
    λ g. h (λ q. absurd (ground (arith, sym q ∙ c.greater b a g)))
MayPrecede-asym cmp descending a b c h =
    λ g. h (λ q. absurd (ground (arith, sym q ∙ c.smaller b a g)))

MayPrecede-trans :
    (cmp : ℕ → ℕ → ℤ) (order : OrderKind) (a b d : ℕ)
    → IsComparison cmp
    → MayPrecede cmp order a b
    → MayPrecede cmp order b d
    → MayPrecede cmp order a d
unfolding MayPrecede
MayPrecede-trans cmp ascending a b d c h k = c.trans a b d h k
MayPrecede-trans cmp descending a b d c h k =
    λ g. c.trans d b a (λ q. k (c.greater d b q)) (λ q. h (c.greater b a q)) (c.smaller a d g)

module _ (cmp : ℕ → ℕ → ℤ) (order : OrderKind) (elem : ℕ) (a : Mem) (n i : ℕ) (b : Mem)
    (s : Shifted cmp order elem a n i b) where
  pub cells :
      (k : ℕ)
      → store b i elem k
        ≡ (if ltb k i then a k else if k == i then elem else if leb k n then a (k - 1) else a k)
  unfolding store
  cells k = ground (arith, s.below k, s.moved (k - 1), s.above k, s.le)

  module _ (c : IsComparison cmp)
      (o : (x y : ℕ) → x < y → y < n → is_behind cmp order (a x) (a y) ≡ false) where
    -- All that stands below the free index may stay there.
    front : (x : ℕ) → x < i → is_behind cmp order (a x) elem ≡ false
    front x h = elim (Bool-cases (x + 1 == i)) [
      | inl e ↦ s.before x (ground arith)
      | inr e ↦ stays cmp order (a x) elem (
          MayPrecede-trans cmp order (a x) (a (i - 1)) elem c
            (may_stay cmp order _ _ (o x (i - 1) (ground arith) (omega (arith, s.le))))
            (may_stay cmp order _ _ (s.before (i - 1) (omega arith))))
    ]

    turned : (x : ℕ) → is_behind cmp order x elem ≡ true → is_behind cmp order elem x ≡ false
    turned x e =
        stays cmp order elem x (MayPrecede-asym cmp order x elem c (must_move cmp order x elem e))

    ordered :
        (x y : ℕ)
        → x < y
        → y < n + 1
        → is_behind cmp order (store b i elem x) (store b i elem y) ≡ false
    ordered x y h l =
        rw (cells x, cells y)
          (ground (
            arith,
            o x y,
            o x (y - 1),
            o (x - 1) (y - 1),
            front x,
            s.behind (y - 1),
            turned (a (y - 1)),
            s.le,
          ))

-- `ordlist_insert` into an array in order puts the element at the index that it returns, moves
-- what stood from there on up by one, leaves all else, and keeps the array in order, ascending or
-- descending, when the comparison function satisfies the laws of one. What it moves up is only what may
-- not stand before the element, so that of equal elements the one inserted last stands last.
pub ordlist_insert-IsOrdered :
    (l : Ordlist) (elem : ℕ)
    → IsComparison l.cmp
    → IsOrdered l
    → let (idx, l') = ordlist_insert l elem in
      (idx ≤ l.size)
      × (l'.size ≡ l.size + 1)
      × ((k : ℕ)
          → l'.array k ≡ (
              if ltb k idx
              then l.array k
              else if k == idx
              then elem
              else if leb k l.size
              then l.array (k - 1)
              else l.array k))
      × ((k : ℕ) → idx ≤ k → k < l.size → ¬ MayPrecede l.cmp l.order (l.array k) elem)
      × IsOrdered l'
unfolding ordlist_insert IsOrdered store
ordlist_insert-IsOrdered l elem c o =
    let s = shift_up-Shifted l.cmp l.order elem l.array l.size in
    (
      s.le,
      refl,
      cells l.cmp l.order elem l.array l.size _ _ s,
      λ k a b. must_move l.cmp l.order (l.array k) elem (s.behind k a b),
      λ x y h b. may_stay l.cmp l.order _ _ (
          ordered l.cmp l.order elem l.array l.size _ _ s c
            (λ i j u v. stays l.cmp l.order _ _ (o i j u v)) x y h b),
    )

pub shift_down_lem :
    (a : Mem) (i n x : ℕ)
    → shift_down a i n x ≡ (if leb i x && ltb x (i + n) then a (x + 1) else a x)
unfolding shift_down store
shift_down_lem a i zero x = ground arith
shift_down_lem a i (suc n) x = ground (arith, shift_down_lem (store a i (a (i + 1))) (i + 1) n x)

-- `ordlist_remove` at an index in an array in order returns what stands there, moves what stood
-- behind it down by one, leaves what stood before it, and keeps the array in order.
pub ordlist_remove-IsOrdered :
    (l : Ordlist) (idx : ℕ)
    → idx < l.size
    → IsOrdered l
    → let (elem, l') = ordlist_remove l idx in
      (elem ≡ l.array idx)
      × (l'.size + 1 ≡ l.size)
      × ((k : ℕ) → k < l'.size → l'.array k ≡ (if ltb k idx then l.array k else l.array (k + 1)))
      × IsOrdered l'
unfolding ordlist_remove IsOrdered
ordlist_remove-IsOrdered l idx h o = (
  refl,
  ground arith,
  λ k b. ground (arith, shift_down_lem l.array idx (l.size - idx) k),
  λ x y b c.
      rw (shift_down_lem l.array idx (l.size - idx) x, shift_down_lem l.array idx (l.size - idx) y)
        (ground (arith, o x y, o x (y + 1), o (x + 1) (y + 1))),
)

-- Inserting an element and removing it at the index that the insertion returned gives back the array.
pub remove-insert :
    (l : Ordlist) (elem : ℕ)
    → let (idx, l') = ordlist_insert l elem in
      let (out, l'') = ordlist_remove l' idx in
      (out ≡ elem) × (l''.size ≡ l.size) × ((k : ℕ) → k < l.size → l''.array k ≡ l.array k)
unfolding ordlist_insert ordlist_remove
remove-insert l elem =
    let s = shift_up-Shifted l.cmp l.order elem l.array l.size in
    let i = (shift_up l.cmp l.order elem l.array l.size).0 in
    let c = cells l.cmp l.order elem l.array l.size _ _ s in
    (
      ground (arith, c i),
      ground arith,
      λ k h. ground (
        arith,
        shift_down_lem (store (shift_up l.cmp l.order elem l.array l.size).1 i elem) i
            (l.size + 1 - i) k,
        c k,
        c (k + 1),
        s.le,
      ),
    )
