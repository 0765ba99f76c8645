-- ===== src/Heap/Watched.antt =====
-- The records of src/heapwatch.c and the live blocks of the heap.
use eedox.Base.{
  ℕ, ◌+◌, ◌≤◌, ◌<◌, ◌≡◌, inl, inr, refl, ap, ◌∙◌, Bool, true, false, ◌&&◌, ◌||◌, List, [], ◌∷◌,
  ◌++◌, arith, ltb, leb, ◌==◌, Bool-cases,
}
use eedox.Heap.{Heapwatch, header_size}
use eedox.Heap.Blocks.{Block, hole, taken, block_size, extent}
use eedox.Heap.Join.{attach, join}

-- The record of a block: the address behind the header of a live block, and no more bytes than the
-- block has.
unfoldable pub covers : ℕ → List Block → ℕ → ℕ → Bool
covers a [] p n = false
covers a (hole m ∷ bs) p n = covers (a + header_size + m) bs p n
covers a (taken m ∷ bs) p n =
    (p == a + header_size && (ltb 0 n && leb n m)) || covers (a + header_size + m) bs p n

-- A live block has the address `x` behind its header.
unfoldable pub taken_at : ℕ → List Block → ℕ → Bool
taken_at a [] x = false
taken_at a (hole m ∷ bs) x = taken_at (a + header_size + m) bs x
taken_at a (taken m ∷ bs) x = (x == a + header_size) || taken_at (a + header_size + m) bs x

-- Each record in use is that of a live block, each live block has one record.
pub record IsWatched (w : Heapwatch) (a : ℕ) (bs : List Block) : Type 0 where
  pub room : w.index ≤ 1024
  pub sound :
      (i : ℕ) → i < w.index → 0 < (w.recs i).ptr → covers a bs (w.recs i).ptr (w.recs i).size ≡ true
  pub once :
      (i j : ℕ)
      → i < w.index
      → j < w.index
      → 0 < (w.recs i).ptr
      → (w.recs i).ptr ≡ (w.recs j).ptr
      → i ≡ j
  pub all : (x : ℕ) → taken_at a bs x ≡ true → (i : ℕ) × ((i < w.index) × ((w.recs i).ptr ≡ x))

pub covers-at : (bs : List Block) (p n a b : ℕ) → a ≡ b → covers a bs p n ≡ covers b bs p n
covers-at bs p n a b e = ap (λ c. covers c bs p n) e

pub taken_at-at : (bs : List Block) (x a b : ℕ) → a ≡ b → taken_at a bs x ≡ taken_at b bs x
taken_at-at bs x a b e = ap (λ c. taken_at c bs x) e

pub covers-append :
    (xs ys : List Block) (p n a : ℕ)
    → covers a (xs ++ ys) p n ≡ (covers a xs p n || covers (a + extent xs) ys p n)
unfolding covers extent block_size
covers-append [] ys p n a = covers-at ys p n a (a + 0) (omega arith)
covers-append (hole m ∷ xs) ys p n a =
    covers-append xs ys p n (a + header_size + m)
    ∙ ap (λ t. covers (a + header_size + m) xs p n || t) (covers-at ys p n _ _ (omega arith))
covers-append (taken m ∷ xs) ys p n a = ground (
  arith,
  covers-append xs ys p n (a + header_size + m),
  covers-at ys p n (a + header_size + m + extent xs) (a + (m + header_size + extent xs))
      (omega arith),
)

pub taken_at-append :
    (xs ys : List Block) (x a : ℕ)
    → taken_at a (xs ++ ys) x ≡ (taken_at a xs x || taken_at (a + extent xs) ys x)
unfolding taken_at extent block_size
taken_at-append [] ys x a = taken_at-at ys x a (a + 0) (omega arith)
taken_at-append (hole m ∷ xs) ys x a =
    taken_at-append xs ys x (a + header_size + m)
    ∙ ap (λ t. taken_at (a + header_size + m) xs x || t) (taken_at-at ys x _ _ (omega arith))
taken_at-append (taken m ∷ xs) ys x a = ground (
  arith,
  taken_at-append xs ys x (a + header_size + m),
  taken_at-at ys x (a + header_size + m + extent xs) (a + (m + header_size + extent xs))
      (omega arith),
)

-- A record stands inside the blocks.
pub covers-range :
    (bs : List Block) (p n a : ℕ)
    → covers a bs p n ≡ true
    → (a + header_size ≤ p) × (p + n ≤ a + extent bs) × (0 < n)
unfolding covers extent block_size
covers-range [] p n a h = absurd (ground (arith, h))
covers-range (hole m ∷ bs) p n a h =
    let r = covers-range bs p n (a + header_size + m) h in
    (omega (arith, r.0), omega (arith, r.1), r.2)
covers-range (taken m ∷ bs) p n a h =
    elim (Bool-cases (p == a + header_size && (ltb 0 n && leb n m))) [
      | inl e ↦ (ground (arith, e), ground (arith, e), ground (arith, e))
      | inr e ↦
          let r = covers-range bs p n (a + header_size + m) (ground (arith, h, e)) in
          (omega (arith, r.0), omega (arith, r.1), r.2)
    ]

pub taken_at-range :
    (bs : List Block) (x a : ℕ)
    → taken_at a bs x ≡ true
    → (a + header_size ≤ x) × (x ≤ a + extent bs)
unfolding taken_at extent block_size
taken_at-range [] x a h = absurd (ground (arith, h))
taken_at-range (hole m ∷ bs) x a h =
    let r = taken_at-range bs x (a + header_size + m) h in (omega (arith, r.0), omega (arith, r.1))
taken_at-range (taken m ∷ bs) x a h = elim (Bool-cases (x == a + header_size)) [
  | inl e ↦ (ground (arith, e), ground (arith, e))
  | inr e ↦
      let r = taken_at-range bs x (a + header_size + m) (ground (arith, h, e)) in
      (omega (arith, r.0), omega (arith, r.1))
]

pub covers-taken_at :
    (bs : List Block) (p n a : ℕ) → covers a bs p n ≡ true → taken_at a bs p ≡ true
unfolding covers taken_at
covers-taken_at [] p n a h = h
covers-taken_at (hole m ∷ bs) p n a h = covers-taken_at bs p n (a + header_size + m) h
covers-taken_at (taken m ∷ bs) p n a h =
    ground (arith, h, covers-taken_at bs p n (a + header_size + m))

covers-attach :
    (b : Block) (bs : List Block) (p n a : ℕ) → covers a (attach b bs) p n ≡ covers a (b ∷ bs) p n
unfolding covers attach
covers-attach (taken m) bs p n a = refl
covers-attach (hole m) [] p n a = refl
covers-attach (hole m) (taken k ∷ bs) p n a = refl
covers-attach (hole m) (hole k ∷ bs) p n a = covers-at bs p n _ _ (omega arith)

taken_at-attach :
    (b : Block) (bs : List Block) (x a : ℕ) → taken_at a (attach b bs) x ≡ taken_at a (b ∷ bs) x
unfolding taken_at attach
taken_at-attach (taken m) bs x a = refl
taken_at-attach (hole m) [] x a = refl
taken_at-attach (hole m) (taken k ∷ bs) x a = refl
taken_at-attach (hole m) (hole k ∷ bs) x a = taken_at-at bs x _ _ (omega arith)

-- Joining holes leaves the live blocks.
pub covers-join : (bs : List Block) (p n a : ℕ) → covers a (join bs) p n ≡ covers a bs p n
unfolding covers join
covers-join [] p n a = refl
covers-join (hole m ∷ bs) p n a =
    covers-attach (hole m) (join bs) p n a ∙ covers-join bs p n (a + header_size + m)
covers-join (taken m ∷ bs) p n a =
    covers-attach (taken m) (join bs) p n a
    ∙ ap (λ t. (p == a + header_size && (ltb 0 n && leb n m)) || t)
        (covers-join bs p n (a + header_size + m))

pub taken_at-join : (bs : List Block) (x a : ℕ) → taken_at a (join bs) x ≡ taken_at a bs x
unfolding taken_at join
taken_at-join [] x a = refl
taken_at-join (hole m ∷ bs) x a =
    taken_at-attach (hole m) (join bs) x a ∙ taken_at-join bs x (a + header_size + m)
taken_at-join (taken m ∷ bs) x a =
    taken_at-attach (taken m) (join bs) x a
    ∙ ap (λ t. (x == a + header_size) || t) (taken_at-join bs x (a + header_size + m))
