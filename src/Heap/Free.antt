-- ===== src/Heap/Free.antt =====
-- src/kheap.c: what `heap_free` does to the blocks.
use eedox.Base.{
  ℕ, ◌+◌, ◌<◌, ◌≡◌, ◌⊎◌, inl, inr, refl, sym, ap, ◌∙◌, subst, true, false, ◌&&◌, not, List, [], ◌∷◌,
  ◌++◌, append_assoc, arith, ltb, ◌==◌, u32, Bool-cases,
}
use eedox.Heap.{
  index_remove, HeapState, Header, header_size, set_hole, index_insert, hheader_next,
  hheader_isvalid, heap_merge, join_next,
}
use eedox.Heap.Alloc.{free_block, merge_prev}
use eedox.Heap.Blocks.{
  extent-append, Block, hole, taken, block_size, hole_flag, extent, Laid, apart, IsTiled,
}
use eedox.Heap.Cut.{Cut, IsTiled-Cut, Cut-IsTiled}
use eedox.Heap.Join.{
  attach-hole, join-after, join-behind_hole, join-behind_taken, attach, join, join-fixed,
  apart-front, apart-back, last-cases,
}
use eedox.Heap.Steps.{give-Cut, merge-Cut}

pub heap_merge-same :
    (s : HeapState) (a : ℕ)
    → ((heap_merge s a).watcher ≡ s.watcher) × ((heap_merge s a).heap.start ≡ s.heap.start)
unfolding heap_merge join_next index_remove
heap_merge-same s a =
    elim (Bool-cases (
      hheader_isvalid (hheader_next s.headers a) s.heap
      && not ((s.headers (hheader_next s.headers a)).is_hole == 0))) [
        | inl e ↦ rw e (refl, refl)
        | inr e ↦ rw e (refl, refl)
      ]

-- The last block is left as it is.
merge-last :
    (s : HeapState) (pre : List Block) (n : ℕ)
    → Cut s pre (hole n ∷ []) []
    → heap_merge s (s.heap.start + extent pre) ≡ s
unfolding heap_merge hheader_next hheader_isvalid Laid extent block_size
merge-last s pre n c =
    let a = s.heap.start + extent pre in
    let size_here : (s.headers a).size ≡ n = ap (λ (h : Header). h.size) c.run.0 in
    let test : (ltb (u32 (a + header_size + (s.headers a).size)) (u32 (s.heap.start + s.heap.size))
          && not ((s.headers (u32 (a + header_size + (s.headers a).size))).is_hole == 0))
        ≡ false =
      ground (arith, size_here, c.whole, c.high) in
    rw test refl

-- A block with no hole behind it is left as it is.
merge-alone :
    (s : HeapState) (pre post : List Block) (n m : ℕ)
    → Cut s pre (hole n ∷ taken m ∷ []) post
    → heap_merge s (s.heap.start + extent pre) ≡ s
unfolding heap_merge hheader_next hheader_isvalid Laid extent block_size hole_flag
merge-alone s pre post n m c =
    let a = s.heap.start + extent pre in
    let size_here : (s.headers a).size ≡ n = ap (λ (h : Header). h.size) c.run.0 in
    let e1 : u32 (a + header_size + (s.headers a).size) ≡ a + header_size + n =
      ground (arith, size_here, c.whole, c.high) in
    let flag : (s.headers (u32 (a + header_size + (s.headers a).size))).is_hole ≡ 0 =
      ap (λ k. (s.headers k).is_hole) e1 ∙ ap (λ (h : Header). h.is_hole) c.run.2.0 in
    let test : (ltb (u32 (a + header_size + (s.headers a).size)) (u32 (s.heap.start + s.heap.size))
          && not ((s.headers (u32 (a + header_size + (s.headers a).size))).is_hole == 0))
        ≡ false =
      ground (arith, flag) in
    rw test refl

-- `heap_merge` at a hole attaches it to what stands behind it.
merge-IsTiled :
    (s : HeapState) (pre post : List Block) (n : ℕ)
    → IsTiled s (pre ++ (hole n ∷ post))
    → IsTiled (heap_merge s (s.heap.start + extent pre)) (pre ++ attach (hole n) post)
unfolding attach
merge-IsTiled s pre [] n t =
    subst (λ s'. IsTiled s' (pre ++ (hole n ∷ [])))
      (sym (merge-last s pre n (IsTiled-Cut s pre (hole n ∷ []) [] t))) t
merge-IsTiled s pre (taken m ∷ post) n t =
    subst (λ s'. IsTiled s' (pre ++ (hole n ∷ taken m ∷ post)))
      (sym (merge-alone s pre post n m (IsTiled-Cut s pre (hole n ∷ taken m ∷ []) post t))) t
merge-IsTiled s pre (hole m ∷ post) n t =
    Cut-IsTiled _ pre (hole (n + header_size + m) ∷ []) post
      (merge-Cut s pre post n m (IsTiled-Cut s pre (hole n ∷ hole m ∷ []) post t))

-- `merge_prev` with nothing, or with a live block, in front of the hole.
merge_prev-alone :
    (s : HeapState) (a : ℕ)
    → ((s.headers a).prev ≡ 0) ⊎ ((s.headers (s.headers a).prev).is_hole ≡ 0)
    → merge_prev s a ≡ s
unfolding merge_prev
merge_prev-alone s a h =
    let test : (not ((s.headers a).prev == 0) && not ((s.headers (s.headers a).prev).is_hole == 0))
        ≡ false =
      ground (arith, h) in
    rw test refl

merge_prev-merges :
    (s : HeapState) (a : ℕ)
    → 1 < (s.headers a).prev
    → (s.headers (s.headers a).prev).is_hole ≡ 1
    → merge_prev s a ≡ heap_merge s (s.headers a).prev
unfolding merge_prev
merge_prev-merges s a h e =
    let test : (not ((s.headers a).prev == 0) && not ((s.headers (s.headers a).prev).is_hole == 0))
        ≡ true =
      ground (arith, e, h) in
    let test_1 : ((s.headers a).prev == 1) ≡ false = ground (arith, h) in rw (test, test_1) refl

module _ (s : HeapState) (xs : List Block) (k j : ℕ) (r : List Block) where
  -- The address of the hole.
  abbrev behind : ℕ
  behind = s.heap.start + extent xs + header_size + k

  prev-taken :
      IsTiled s (xs ++ (taken k ∷ hole j ∷ r))
      → apart (xs ++ (taken k ∷ [])) ≡ true
      → apart (hole j ∷ r) ≡ true
      → IsTiled (merge_prev s behind) (join (xs ++ (taken k ∷ hole j ∷ r)))
  unfolding Laid block_size hole_flag
  prev-taken t h i =
      let c = IsTiled-Cut s xs (taken k ∷ hole j ∷ []) r t in
      let p : (s.headers behind).prev ≡ s.heap.start + extent xs =
        ap (λ (h : Header). h.prev) c.run.2.0 in
      let flag : (s.headers (s.headers behind).prev).is_hole ≡ 0 =
        ap (λ a. (s.headers a).is_hole) p ∙ ap (λ (h : Header). h.is_hole) c.run.0 in
      subst (λ s'. IsTiled s' (join (xs ++ (taken k ∷ hole j ∷ r))))
        (sym (merge_prev-alone s behind (inr flag)))
        (subst (IsTiled s) (sym (join-behind_taken xs k j r h i)) t)

  prev-hole :
      IsTiled s (xs ++ (hole k ∷ hole j ∷ r))
      → apart (xs ++ (hole k ∷ [])) ≡ true
      → apart (hole j ∷ r) ≡ true
      → IsTiled (merge_prev s behind) (join (xs ++ (hole k ∷ hole j ∷ r)))
  unfolding Laid block_size hole_flag attach
  prev-hole t h i =
      let c = IsTiled-Cut s xs (hole k ∷ hole j ∷ []) r t in
      let p : (s.headers behind).prev ≡ s.heap.start + extent xs =
        ap (λ (h : Header). h.prev) c.run.2.0 in
      let flag : (s.headers (s.headers behind).prev).is_hole ≡ 1 =
        ap (λ a. (s.headers a).is_hole) p ∙ ap (λ (h : Header). h.is_hole) c.run.0 in
      let merges =
        merge_prev-merges s behind (omega (arith, p, c.low)) flag ∙ ap (heap_merge s) p in
      subst (λ s'. IsTiled s' (join (xs ++ (hole k ∷ hole j ∷ r)))) (sym merges)
        (subst (IsTiled (heap_merge s (s.heap.start + extent xs)))
          (sym (join-behind_hole xs k j r h i)) (merge-IsTiled s xs (hole j ∷ r) k t))

prev-first :
    (s : HeapState) (j : ℕ) (r : List Block)
    → IsTiled s (hole j ∷ r)
    → apart (hole j ∷ r) ≡ true
    → IsTiled (merge_prev s s.heap.start) (join (hole j ∷ r))
unfolding Laid
prev-first s j r t i =
    subst (λ s'. IsTiled s' (join (hole j ∷ r)))
      (sym (merge_prev-alone s s.heap.start (inl (ap (λ (h : Header). h.prev) t.laid.0))))
      (subst (IsTiled s) (sym (join-fixed (hole j ∷ r) i)) t)

-- What `merge_prev` does at the hole behind `pre`.
abbrev Joins : HeapState → ℕ → List Block → List Block → Type 0
Joins s j r pre =
    IsTiled s (pre ++ (hole j ∷ r))
    → apart pre ≡ true
    → apart (hole j ∷ r) ≡ true
    → IsTiled (merge_prev s (s.heap.start + extent pre)) (join (pre ++ (hole j ∷ r)))

prev-block : (s : HeapState) (j : ℕ) (r xs : List Block) (b : Block) → Joins s j r (xs ++ (b ∷ []))
unfolding extent block_size
prev-block s j r xs b t h i =
    let assoc = append_assoc xs (b ∷ []) (hole j ∷ r) in
    let address : s.heap.start + extent xs + header_size + block_size b
        ≡ s.heap.start + extent (xs ++ (b ∷ [])) =
      omega (arith, extent-append xs (b ∷ [])) in
    subst (λ l. IsTiled (merge_prev s (s.heap.start + extent (xs ++ (b ∷ [])))) (join l))
      (sym assoc)
      (subst (λ a. IsTiled (merge_prev s a) (join (xs ++ (b ∷ hole j ∷ r)))) address
        (by_kind b (subst (IsTiled s) assoc t) h))
  where
    by_kind :
        (b : Block)
        → IsTiled s (xs ++ (b ∷ hole j ∷ r))
        → apart (xs ++ (b ∷ [])) ≡ true
        → IsTiled
            (merge_prev s (s.heap.start + extent xs + header_size + block_size b))
            (join (xs ++ (b ∷ hole j ∷ r)))
    by_kind (taken k) t h = prev-taken s xs k j r t h i
    by_kind (hole k) t h = prev-hole s xs k j r t h i

prev-IsTiled : (s : HeapState) (pre : List Block) (j : ℕ) (r : List Block) → Joins s j r pre
unfolding extent
prev-IsTiled s pre j r = elim (last-cases pre) [
  | inl e ↦ subst (Joins s j r) (sym e) (λ t h i.
      subst (λ a. IsTiled (merge_prev s a) (join (hole j ∷ r))) (omega arith)
        (prev-first s j r t i))
  | inr (xs, (b, e)) ↦ subst (Joins s j r) (sym e) (prev-block s j r xs b)
]

-- A live block that is freed becomes a hole, which is joined with the holes next to it.
pub free_block-IsTiled :
    (s : HeapState) (pre post : List Block) (n : ℕ)
    → IsTiled s (pre ++ (taken n ∷ post))
    → apart (pre ++ (taken n ∷ post)) ≡ true
    → IsTiled (free_block s (s.heap.start + extent pre)) (join (pre ++ (hole n ∷ post)))
unfolding free_block index_insert
free_block-IsTiled s pre post n t h =
    let a = s.heap.start + extent pre in
    let s1 : HeapState = index_insert (record s { headers = set_hole s.headers a 1 }) a in
    let s2 : HeapState = heap_merge s1 a in
    let given : IsTiled s1 (pre ++ (hole n ∷ post)) =
      Cut-IsTiled s1 pre (hole n ∷ []) post
        (give-Cut s pre post n (IsTiled-Cut s pre (taken n ∷ []) post t)) in
    let (j, (r, e)) = attach-hole n post in
    let apart_post = apart-back (taken n ∷ []) post (apart-back pre (taken n ∷ post) h) in
    let (joined, apart_r) = join-after pre post n j r apart_post e in
    let merged : IsTiled s2 (pre ++ (hole j ∷ r)) =
      subst (λ l. IsTiled s2 (pre ++ l)) e (merge-IsTiled s1 pre post n given) in
    let final = prev-IsTiled s2 pre j r merged (apart-front pre (taken n ∷ post) h) apart_r in
    subst (IsTiled (merge_prev s2 a)) (sym joined) (
      subst (λ b. IsTiled (merge_prev s2 (b + extent pre)) (join (pre ++ (hole j ∷ r))))
        (heap_merge-same s1 a).1 final)
