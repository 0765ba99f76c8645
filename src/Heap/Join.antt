-- ===== src/Heap/Join.antt =====
-- Joining neighbouring holes, as `heap_free` of src/kheap.c does, on the list of blocks.
use eedox.Base.{
  subst, not, ℕ, ◌+◌, ◌≡◌, ◌⊎◌, inl, inr, refl, sym, ap, ◌∙◌, Bool, true, false, ◌&&◌, List, [],
  ◌∷◌, ◌++◌, arith,
}
use eedox.Heap.{header_size}
use eedox.Heap.Blocks.{Block, hole, taken, block_size, hole_flag, extent, last_header, apart}

-- A block in front of joined blocks: two holes become one, which has the second header's bytes too.
unfoldable pub attach : Block → List Block → List Block
attach (hole n) (hole m ∷ bs) = hole (n + header_size + m) ∷ bs
attach b bs = b ∷ bs

-- Neighbouring holes become one.
unfoldable pub join : List Block → List Block
join [] = []
join (b ∷ bs) = attach b (join bs)

unfoldable pub starts_free : List Block → Bool
starts_free [] = false
starts_free (b ∷ bs) = hole_flag b

pub join-fixed : (bs : List Block) → apart bs ≡ true → join bs ≡ bs
unfolding join apart attach hole_flag
join-fixed [] h = refl
join-fixed (taken n ∷ []) h = refl
join-fixed (hole n ∷ []) h = refl
join-fixed (taken n ∷ c ∷ bs) h = ap (attach (taken n)) (join-fixed (c ∷ bs) h)
join-fixed (hole n ∷ taken m ∷ bs) h = ap (attach (hole n)) (join-fixed (taken m ∷ bs) h)
join-fixed (hole n ∷ hole m ∷ bs) h = absurd (ground (arith, h))

pub apart-append :
    (xs : List Block) (b : Block) (ys : List Block)
    → apart (xs ++ (b ∷ ys)) ≡ (apart (xs ++ (b ∷ [])) && apart (b ∷ ys))
unfolding apart
apart-append [] b ys = refl
apart-append (x ∷ []) b ys = ground arith
apart-append (x ∷ y ∷ xs) b ys = ground (arith, apart-append (y ∷ xs) b ys)

pub apart-front : (xs ys : List Block) → apart (xs ++ ys) ≡ true → apart xs ≡ true
unfolding apart
apart-front [] ys h = refl
apart-front (x ∷ []) ys h = refl
apart-front (x ∷ y ∷ xs) ys h = ground (arith, apart-front (y ∷ xs) ys)

pub apart-back : (xs ys : List Block) → apart (xs ++ ys) ≡ true → apart ys ≡ true
unfolding apart
apart-back [] ys h = h
apart-back (x ∷ []) [] h = refl
apart-back (x ∷ []) (y ∷ ys) h = ground (arith, h)
apart-back (x ∷ y ∷ xs) ys h = ground (arith, apart-back (y ∷ xs) ys)

attach-apart : (b : Block) (bs : List Block) → apart bs ≡ true → apart (attach b bs) ≡ true
unfolding apart attach hole_flag
attach-apart (taken n) [] h = refl
attach-apart (hole n) [] h = refl
attach-apart (taken n) (c ∷ bs) h = h
attach-apart (hole n) (taken m ∷ bs) h = h
attach-apart (hole n) (hole m ∷ []) h = refl
attach-apart (hole n) (hole m ∷ c ∷ bs) h = h

-- No two holes stand side by side once they are joined.
pub join-apart : (bs : List Block) → apart (join bs) ≡ true
unfolding join apart
join-apart [] = refl
join-apart (b ∷ bs) = attach-apart b (join bs) (join-apart bs)

pub join-append : (xs ys : List Block) → join (xs ++ ys) ≡ join (xs ++ join ys)
unfolding join
join-append [] ys = sym (join-fixed (join ys) (join-apart ys))
join-append (x ∷ xs) ys = ap (attach x) (join-append xs ys)

-- A list of blocks is empty or has a last block.
pub last-cases :
    (bs : List Block) → (bs ≡ []) ⊎ ((xs : List Block) × ((b : Block) × (bs ≡ xs ++ (b ∷ []))))
last-cases [] = inl refl
last-cases (x ∷ bs) = elim (last-cases bs) [
  | inl e ↦ inr ([], (x, ap (λ l. x ∷ l) e))
  | inr r ↦ inr (x ∷ r.0, (r.1.0, ap (λ l. x ∷ l) r.1.1))
]

pub last_header-append :
    (a p : ℕ) (xs : List Block) (b : Block) → last_header a p (xs ++ (b ∷ [])) ≡ a + extent xs
unfolding last_header extent
last_header-append a p [] b = omega arith
last_header-append a p (x ∷ xs) b =
    last_header-append (a + header_size + block_size x) a xs b ∙ omega arith

-- A hole that takes in what stands behind it is a hole.
pub attach-hole :
    (n : ℕ) (bs : List Block) → (j : ℕ) × ((r : List Block) × (attach (hole n) bs ≡ hole j ∷ r))
unfolding attach
attach-hole n [] = (n, ([], refl))
attach-hole n (taken m ∷ bs) = (n, (taken m ∷ bs, refl))
attach-hole n (hole m ∷ bs) = (n + header_size + m, (bs, refl))

apart-last_hole :
    (xs : List Block) (n m : ℕ) → apart (xs ++ (hole n ∷ [])) ≡ apart (xs ++ (hole m ∷ []))
unfolding apart hole_flag
apart-last_hole [] n m = refl
apart-last_hole (x ∷ []) n m = refl
apart-last_hole (x ∷ y ∷ xs) n m =
    ap (λ t. not (hole_flag x && hole_flag y) && t) (apart-last_hole (y ∷ xs) n m)

pub apart-first_hole : (n m : ℕ) (ys : List Block) → apart (hole n ∷ ys) ≡ apart (hole m ∷ ys)
unfolding apart hole_flag
apart-first_hole n m [] = refl
apart-first_hole n m (y ∷ ys) = refl

-- The block that was given back is joined with what stands behind it.
pub join-after :
    (pre post : List Block) (n j : ℕ) (r : List Block)
    → apart post ≡ true
    → attach (hole n) post ≡ hole j ∷ r
    → (join (pre ++ (hole n ∷ post)) ≡ join (pre ++ (hole j ∷ r))) × (apart (hole j ∷ r) ≡ true)
unfolding join
join-after pre post n j r h e =
    let behind : join (hole n ∷ post) ≡ hole j ∷ r = ap (attach (hole n)) (join-fixed post h) ∙ e in
    let apart_behind : apart (hole j ∷ r) ≡ true =
      subst (λ l. apart l ≡ true) behind (join-apart (hole n ∷ post)) in
    (join-append pre (hole n ∷ post) ∙ ap (λ l. join (pre ++ l)) behind, apart_behind)

-- With a live block in front of the hole nothing more is joined.
pub join-behind_taken :
    (pre : List Block) (k j : ℕ) (r : List Block)
    → apart (pre ++ (taken k ∷ [])) ≡ true
    → apart (hole j ∷ r) ≡ true
    → join (pre ++ (taken k ∷ hole j ∷ r)) ≡ pre ++ (taken k ∷ hole j ∷ r)
unfolding apart hole_flag
join-behind_taken pre k j r h i =
    join-fixed (pre ++ (taken k ∷ hole j ∷ r))
      (apart-append pre (taken k) (hole j ∷ r) ∙ ground (arith, h, i))

-- With a hole in front of the hole the two are joined.
pub join-behind_hole :
    (pre : List Block) (k j : ℕ) (r : List Block)
    → apart (pre ++ (hole k ∷ [])) ≡ true
    → apart (hole j ∷ r) ≡ true
    → join (pre ++ (hole k ∷ hole j ∷ r)) ≡ pre ++ (hole (k + header_size + j) ∷ r)
unfolding join attach
join-behind_hole pre k j r h i =
    let n = k + header_size + j in
    let joined : join (hole k ∷ hole j ∷ r) ≡ hole n ∷ r =
      ap (attach (hole k)) (join-fixed (hole j ∷ r) i) in
    let whole : apart (pre ++ (hole n ∷ r)) ≡ true =
      apart-append pre (hole n) r
      ∙ ground (arith, apart-last_hole pre n k, apart-first_hole n j r, h, i) in
    join-append pre (hole k ∷ hole j ∷ r)
    ∙ ap (λ l. join (pre ++ l)) joined
    ∙ join-fixed (pre ++ (hole n ∷ r)) whole

-- A live block may stand behind anything, and anything behind it.
pub apart-last_taken :
    (xs : List Block) (n : ℕ) → apart xs ≡ true → apart (xs ++ (taken n ∷ [])) ≡ true
unfolding apart hole_flag
apart-last_taken [] n h = refl
apart-last_taken (taken m ∷ []) n h = refl
apart-last_taken (hole m ∷ []) n h = refl
apart-last_taken (x ∷ y ∷ xs) n h = ground (arith, h, apart-last_taken (y ∷ xs) n)

pub apart-first_taken : (n : ℕ) (ys : List Block) → apart ys ≡ true → apart (taken n ∷ ys) ≡ true
unfolding apart hole_flag
apart-first_taken n [] h = refl
apart-first_taken n (y ∷ ys) h = h
