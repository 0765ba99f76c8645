-- ===== src/Heap/Find.antt =====
-- src/kheap.c: the search of `heap_alloc`, and the hole that it takes.
use eedox.Base.{
  ℕ, zero, suc, ◌+◌, ◌-◌, ◌≤◌, ◌<◌, ◌≡◌, ◌⊎◌, inl, inr, refl, sym, ap, ◌∙◌, subst, Bool, true,
  false, ◌&&◌, List, [], ◌∷◌, ◌++◌, arith, ltb, ◌==◌, if◌then◌else◌, sub32, Bool-cases,
}
use eedox.Memory.{Mem}
use eedox.Ordlist.Held.{held, held-index}
use eedox.Heap.{HeapState, Header, header_size, set_hole, index_remove, heap_high_split}
use eedox.Heap.Alloc.{fits, best_index, trim_block}
use eedox.Heap.Blocks.{
  Block, hole, taken, block_size, hole_flag, extent, Laid, apart, holes_at, IsTiled,
}
use eedox.Heap.Cut.{Cut, IsTiled-Cut, Cut-IsTiled}
use eedox.Heap.Join.{
  apart-front, apart-back, apart-last_taken, apart-first_taken, apart-first_hole, apart-append,
}
use eedox.Heap.Steps.{take-Cut, high_split-Cut}

-- A hole of the blocks, by its address.
pub record HoleAt (a : ℕ) (bs : List Block) (x : ℕ) : Type 0 where
  pub pre : List Block
  pub post : List Block
  pub bytes : ℕ
  pub blocks : bs ≡ pre ++ (hole bytes ∷ post)
  pub address : x ≡ a + extent pre

HoleAt-behind :
    (a : ℕ) (b : Block) (bs : List Block) (x : ℕ)
    → HoleAt (a + header_size + block_size b) bs x
    → HoleAt a (b ∷ bs) x
unfolding extent
HoleAt-behind a b bs x h = record {
  pre = b ∷ h.pre;
  post = h.post;
  bytes = h.bytes;
  blocks = ap (λ l. b ∷ l) h.blocks;
  address = omega (arith, h.address);
}

pub holes_at-HoleAt : (a : ℕ) (bs : List Block) (x : ℕ) → 0 < holes_at a bs x → HoleAt a bs x
unfolding holes_at hole_flag block_size extent
holes_at-HoleAt a [] x h = absurd (omega arith)
holes_at-HoleAt a (taken n ∷ bs) x h =
    HoleAt-behind a (taken n) bs x (holes_at-HoleAt (a + header_size + n) bs x (ground arith))
holes_at-HoleAt a (hole n ∷ bs) x h = elim (Bool-cases (a == x)) [
  | inl e ↦ record { pre = []; post = bs; bytes = n; blocks = refl; address = ground arith }
  | inr e ↦
      HoleAt-behind a (hole n) bs x (holes_at-HoleAt (a + header_size + n) bs x (ground arith))
]

-- The search stops at the first hole that fits, or behind the last one.
pub best_index_lem :
    (hs : ℕ → Header) (array : Mem) (size i n : ℕ)
    → let r = best_index hs array size 0 i n in
      ((r ≡ i + n) × ((k : ℕ) → i ≤ k → k < i + n → fits hs size 0 (array k) ≡ false))
      ⊎ ((r < i + n) × (fits hs size 0 (array r) ≡ true))
unfolding best_index
best_index_lem hs array size i zero = inl (omega arith, λ k l m. absurd (omega arith))
best_index_lem hs array size i (suc n) = elim (Bool-cases (fits hs size 0 (array i))) [
  | inl e ↦ rw e (inr (omega arith, e))
  | inr e ↦ rw e (elim (best_index_lem hs array size (i + 1) n) [
    | inl h ↦ inl (
      omega (arith, h.0),
      λ k l m. elim (Bool-cases (k == i)) [
        | inl same ↦ subst (λ j. fits hs size 0 (array j) ≡ false) (ground arith) e
        | inr other ↦ h.1 k (ground arith) (omega arith)
      ],
    )
    | inr h ↦ inr (omega (arith, h.0), h.1)
  ])
]

-- Every hole is too small.
unfoldable pub all_below : ℕ → List Block → Bool
all_below size [] = true
all_below size (taken n ∷ bs) = all_below size bs
all_below size (hole n ∷ bs) = ltb n size && all_below size bs

all_below-holes :
    (size : ℕ) (bs : List Block)
    → ((pre post : List Block) (n : ℕ) → bs ≡ pre ++ (hole n ∷ post) → n < size)
    → all_below size bs ≡ true
unfolding all_below
all_below-holes size [] h = refl
all_below-holes size (taken n ∷ bs) h =
    all_below-holes size bs (λ pre post m e. h (taken n ∷ pre) post m (ap (λ l. taken n ∷ l) e))
all_below-holes size (hole n ∷ bs) h =
    let rest =
      all_below-holes size bs (λ pre post m e. h (hole n ∷ pre) post m (ap (λ l. hole n ∷ l) e)) in
    ground (arith, rest, h [] bs n refl)

-- A search that stops at no hole shows that every hole is too small.
pub none-all_below :
    (s : HeapState) (bs : List Block) (size : ℕ)
    → IsTiled s bs
    → ((k : ℕ) → k < s.heap.index.size → fits s.headers size 0 (s.heap.index.array k) ≡ false)
    → all_below size bs ≡ true
unfolding fits holes_at hole_flag block_size Laid
none-all_below s bs size t h = all_below-holes size bs (λ pre post n e.
    let a = s.heap.start + extent pre in
    let c = IsTiled-Cut s pre (hole n ∷ []) post (subst (IsTiled s) e t) in
    let bytes : (s.headers a).size ≡ n = ap (λ (h : Header). h.size) c.run.0 in
    let listed : 0 < held s.heap.index a = ground (arith, c.index a) in
    let (k, (k_in, k_at)) = held-index s.heap.index a listed in
    let small : fits s.headers size 0 a ≡ false =
      subst (λ x. fits s.headers size 0 x ≡ false) k_at (h k k_in) in
    ground (arith, small, bytes))

-- What `heap_alloc` makes of a hole of `m` bytes for a block of `size` bytes.
unfoldable pub cut_hole : ℕ → ℕ → List Block
cut_hole m size =
    if ltb (size + header_size) m
    then taken size ∷ hole (m - size - header_size) ∷ []
    else taken m ∷ []

pub cut_hole-kept :
    (m size : ℕ) → ltb (size + header_size) m ≡ false → cut_hole m size ≡ taken m ∷ []
unfolding cut_hole
cut_hole-kept m size e = rw e refl

pub cut_hole-split :
    (m size : ℕ)
    → ltb (size + header_size) m ≡ true
    → cut_hole m size ≡ taken size ∷ hole (m - size - header_size) ∷ []
unfolding cut_hole
cut_hole-split m size e = rw e refl

-- The block behind `pre` is trimmed to the bytes asked for.
trim-Cut :
    (s : HeapState) (pre post : List Block) (m size : ℕ)
    → Cut s pre (taken m ∷ []) post
    → 0 < size
    → size ≤ m
    → Cut (trim_block s (s.heap.start + extent pre) size) pre (cut_hole m size) post
unfolding trim_block Laid block_size extent
trim-Cut s pre post m size c some_bytes le =
    let a = s.heap.start + extent pre in
    let bytes : (s.headers a).size ≡ m = ap (λ (h : Header). h.size) c.run.0 in
    let rest : sub32 (s.headers a).size size ≡ m - size = ground (arith, bytes, c.whole, c.high) in
    elim (Bool-cases (ltb (size + header_size) m)) [
      | inl e ↦
          let test : ltb header_size (m - size) ≡ true = ground (arith, e) in
          rw (rest, test)
            (subst (λ l. Cut (heap_high_split s a (m - size)) pre l post)
              (sym (cut_hole-split m size e))
              (high_split-Cut s pre post m size (m - size) c (omega arith) some_bytes
                (ground (arith, e))))
      | inr e ↦
          let test : ltb header_size (m - size) ≡ false = ground (arith, e) in
          rw (rest, test) (subst (λ l. Cut s pre l post) (sym (cut_hole-kept m size e)) c)
    ]

-- The hole that the search found is taken and trimmed.
pub take-IsTiled :
    (s : HeapState) (pre post : List Block) (m idx size : ℕ)
    → IsTiled s (pre ++ (hole m ∷ post))
    → idx < s.heap.index.size
    → s.heap.index.array idx ≡ s.heap.start + extent pre
    → 0 < size
    → size ≤ m
    → let a = s.heap.start + extent pre in
      let s1 = index_remove (record s { headers = set_hole s.headers a 0 }) idx in
      IsTiled (trim_block s1 a size) (pre ++ (cut_hole m size ++ post))
unfolding index_remove
take-IsTiled s pre post m idx size t h e some_bytes le =
    let a = s.heap.start + extent pre in
    let s1 : HeapState = index_remove (record s { headers = set_hole s.headers a 0 }) idx in
    Cut-IsTiled (trim_block s1 a size) pre (cut_hole m size) post (
      trim-Cut s1 pre post m size
        (take-Cut s pre post m idx (IsTiled-Cut s pre (hole m ∷ []) post t) h e) some_bytes le)

-- Taking a hole leaves no two holes side by side.
pub take-apart :
    (pre post : List Block) (m size : ℕ)
    → apart (pre ++ (hole m ∷ post)) ≡ true
    → apart (pre ++ (cut_hole m size ++ post)) ≡ true
unfolding cut_hole
take-apart pre post m size h =
    let in_front = apart-last_taken pre size (apart-front pre (hole m ∷ post) h) in
    let in_front' = apart-last_taken pre m (apart-front pre (hole m ∷ post) h) in
    let behind : apart (hole m ∷ post) ≡ true = apart-back pre (hole m ∷ post) h in
    let j = m - size - header_size in
    elim (Bool-cases (ltb (size + header_size) m)) [
      | inl e ↦ rw e (
          apart-append pre (taken size) (hole j ∷ post)
          ∙ ground (
            arith,
            in_front,
            apart-first_taken size (hole j ∷ post),
            apart-first_hole j m post,
            behind,
          ))
      | inr e ↦ rw e (
          apart-append pre (taken m) post
          ∙ ground
              (arith, in_front', apart-first_taken m post (apart-back (hole m ∷ []) post behind)))
    ]
