-- ===== src/Heap/Blocks.antt =====
-- The kernel heap of src/kheap.c as a list of blocks that stand end to end.
use eedox.Base.{
  sym, ℕ, ◌+◌, ◌^◌, ◌≤◌, ◌<◌, ◌≡◌, ◌⊎◌, inl, inr, refl, ap, ◌∙◌, subst, Bool, true, false, ◌&&◌,
  not, List, [], ◌∷◌, ◌++◌, arith, ◌==◌,
}
use eedox.Heap.{HeapState, Header, header_size}
use eedox.Ordlist.Held.{held, one_if}

-- A block of the heap, by the bytes behind its header.
pub data Block : Type 0 where
  hole taken : ℕ → Block

unfoldable pub block_size : Block → ℕ
block_size (hole n) = n
block_size (taken n) = n

unfoldable pub hole_flag : Block → Bool
hole_flag (hole n) = true
hole_flag (taken n) = false

-- The bytes of the blocks and their headers.
unfoldable pub extent : List Block → ℕ
extent [] = 0
extent (b ∷ bs) = block_size b + header_size + extent bs

-- The address of the last header of the blocks from `a`, or `prev` where there is none.
unfoldable pub last_header : ℕ → ℕ → List Block → ℕ
last_header a prev [] = prev
last_header a prev (b ∷ bs) = last_header (a + header_size + block_size b) a bs

-- The header of a block.
abbrev pub header_of : Block → ℕ → Header
header_of b prev = record { is_hole = one_if (hole_flag b); size = block_size b; prev = prev }

-- The blocks stand end to end from `a`, each behind its header, none is empty, and each header points
-- to the one in front of it.
unfoldable pub Laid : (ℕ → Header) → ℕ → ℕ → List Block → Type 0
Laid hs a prev [] = Unit
Laid hs a prev (b ∷ bs) =
    (hs a ≡ header_of b prev) × (0 < block_size b) × Laid hs (a + header_size + block_size b) a bs

-- How many holes stand at the address `x`.
unfoldable pub holes_at : ℕ → List Block → ℕ → ℕ
holes_at a [] x = 0
holes_at a (b ∷ bs) x =
    one_if (hole_flag b && (a == x)) + holes_at (a + header_size + block_size b) bs x

-- No two holes stand side by side.
unfoldable pub apart : List Block → Bool
apart [] = true
apart (b ∷ []) = true
apart (b ∷ c ∷ bs) = not (hole_flag b && hole_flag c) && apart (c ∷ bs)

-- The heap consists of these blocks, its index holds the address of each hole once and nothing else,
-- and no address runs over.
pub record IsTiled (s : HeapState) (bs : List Block) : Type 0 where
  pub laid : Laid s.headers s.heap.start 0 bs
  pub whole : extent bs ≡ s.heap.size + header_size
  pub index : (x : ℕ) → held s.heap.index x ≡ holes_at s.heap.start bs x
  pub low : 1 < s.heap.start
  pub high : s.heap.start + s.heap.size + header_size < 2 ^ 32

pub extent-append : (xs ys : List Block) → extent (xs ++ ys) ≡ extent xs + extent ys
unfolding extent
extent-append [] ys = omega arith
extent-append (x ∷ xs) ys = ground (arith, extent-append xs ys)

pub holes_at-append :
    (a : ℕ) (xs ys : List Block) (x : ℕ)
    → holes_at a (xs ++ ys) x ≡ holes_at a xs x + holes_at (a + extent xs) ys x
unfolding extent holes_at
holes_at-append a [] ys x =
    let e : a ≡ a + 0 = omega arith in ground (arith, ap (λ n. holes_at n ys x) e)
holes_at-append a (b ∷ xs) ys x =
    let rest = holes_at-append (a + header_size + block_size b) xs ys x in
    let e : a + header_size + block_size b + extent xs
        ≡ a + (block_size b + header_size + extent xs) =
      omega arith in
    ground (arith, rest, ap (λ n. holes_at n ys x) e)

pub Laid-append :
    (hs : ℕ → Header) (a p : ℕ) (xs ys : List Block)
    → Laid hs a p xs
    → Laid hs (a + extent xs) (last_header a p xs) ys
    → Laid hs a p (xs ++ ys)
unfolding extent Laid last_header
Laid-append hs a p [] ys l m = subst (λ n. Laid hs n p ys) (omega arith) m
Laid-append hs a p (x ∷ xs) ys l m = (
  l.0,
  l.1,
  Laid-append hs (a + header_size + block_size x) a xs ys l.2 (
      subst (λ n. Laid hs n (last_header (a + header_size + block_size x) a xs) ys) (omega arith)
        m),
)

pub Laid-front :
    (hs : ℕ → Header) (a p : ℕ) (xs ys : List Block) → Laid hs a p (xs ++ ys) → Laid hs a p xs
unfolding Laid
Laid-front hs a p [] ys l = _
Laid-front hs a p (x ∷ xs) ys l =
    (l.0, l.1, Laid-front hs (a + header_size + block_size x) a xs ys l.2)

pub Laid-back :
    (hs : ℕ → Header) (a p : ℕ) (xs ys : List Block)
    → Laid hs a p (xs ++ ys)
    → Laid hs (a + extent xs) (last_header a p xs) ys
unfolding extent Laid last_header
Laid-back hs a p [] ys l = subst (λ n. Laid hs n p ys) (omega arith) l
Laid-back hs a p (x ∷ xs) ys l =
    subst (λ n. Laid hs n (last_header (a + header_size + block_size x) a xs) ys) (omega arith)
      (Laid-back hs (a + header_size + block_size x) a xs ys l.2)

-- The headers of the blocks are unchanged, so the blocks are.
pub Laid-same :
    (hs hs' : ℕ → Header) (a p : ℕ) (bs : List Block)
    → ((x : ℕ) → a ≤ x → x < a + extent bs → hs' x ≡ hs x)
    → Laid hs a p bs
    → Laid hs' a p bs
unfolding extent Laid
Laid-same hs hs' a p [] h l = _
Laid-same hs hs' a p (b ∷ bs) h l = (
  h a (omega arith) (omega arith) ∙ l.0,
  l.1,
  Laid-same hs hs' (a + header_size + block_size b) a bs (λ x u v. h x (omega arith) (omega arith))
      l.2,
)

-- The first header has a new predecessor.
pub Laid-prev :
    (hs hs' : ℕ → Header) (a p q : ℕ) (bs : List Block)
    → ((x : ℕ) → a < x → x < a + extent bs → hs' x ≡ hs x)
    → (0 < extent bs → hs' a ≡ record (hs a) { prev = q })
    → Laid hs a p bs
    → Laid hs' a q bs
unfolding extent Laid
Laid-prev hs hs' a p q [] h g l = _
Laid-prev hs hs' a p q (b ∷ bs) h g l = (
  g (omega arith) ∙ ap (λ (e : Header). record e { prev = q }) l.0,
  l.1,
  Laid-same hs hs' (a + header_size + block_size b) a bs (λ x u v. h x (omega arith) (omega arith))
      l.2,
)

-- No block, or more bytes than a header has.
pub Laid-extent :
    (hs : ℕ → Header) (a p : ℕ) (bs : List Block)
    → Laid hs a p bs
    → (extent bs ≡ 0) ⊎ (header_size < extent bs)
unfolding extent Laid
Laid-extent hs a p [] l = inl refl
Laid-extent hs a p (b ∷ bs) l = let pos = l.1 in inr (omega arith)

pub Laid-next :
    (hs : ℕ → Header) (a p : ℕ) (bs : List Block)
    → Laid hs a p bs
    → 0 < extent bs
    → record (hs a) { prev = p } ≡ hs a
unfolding Laid extent
Laid-next hs a p [] l h = absurd (omega arith)
Laid-next hs a p (b ∷ bs) l h = ap (λ (e : Header). record e { prev = p }) l.0 ∙ sym l.0
