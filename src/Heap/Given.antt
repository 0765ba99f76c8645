-- ===== src/Heap/Given.antt =====
-- src/kheap.c and src/heapwatch.c: `heap_free` on a sound heap.
use eedox.Base.{
  ℕ, ◌+◌, ◌-◌, ◌≤◌, ◌<◌, ◌≡◌, inl, inr, refl, sym, ap, ◌∙◌, subst, true, false, ◌&&◌, not, List,
  ◌∷◌, ◌++◌, arith, ltb, ◌==◌, sub32, Bool-cases,
}
use eedox.Heap.{HeapState, header_size, set_hole, index_insert, heap_merge}
use eedox.Heap.Watch.{returns, panics, and_then}
use eedox.Heap.Alloc.{heap_alloc, merge_prev, free_block, free_watched, heap_free}
use eedox.Heap.Blocks.{Block, hole, taken, extent, extent-append, apart, IsTiled}
use eedox.Heap.Join.{
  apart-first_hole, apart-back, join, join-apart, join-fixed, join-append, attach,
}
use eedox.Heap.Find.{all_below, cut_hole, cut_hole-kept, cut_hole-split}
use eedox.Heap.Free.{heap_merge-same, free_block-IsTiled}
use eedox.Heap.Checked.{heap_check-passes}
use eedox.Heap.Watched.{IsWatched, taken_at}
use eedox.Heap.Records.{HasRoom}
use eedox.Heap.Cleared.{free-IsWatched, heapwatch_free-panics}
use eedox.Heap.Laws.{IsHeap, Allocates, with_watcher, heap_alloc-IsHeap}

merge_prev-same :
    (s : HeapState) (a : ℕ)
    → ((merge_prev s a).watcher ≡ s.watcher) × ((merge_prev s a).heap.start ≡ s.heap.start)
unfolding merge_prev
merge_prev-same s a =
    let prev = (s.headers a).prev in
    elim (Bool-cases (not (prev == 0) && not ((s.headers prev).is_hole == 0))) [
      | inl e ↦ rw e (elim (Bool-cases (prev == 1)) [
        | inl f ↦ rw f (refl, refl)
        | inr f ↦ rw f (heap_merge-same s prev)
      ])
      | inr e ↦ rw e (refl, refl)
    ]

free_block-same :
    (s : HeapState) (a : ℕ)
    → ((free_block s a).watcher ≡ s.watcher) × ((free_block s a).heap.start ≡ s.heap.start)
unfolding free_block index_insert
free_block-same s a =
    let s1 : HeapState = index_insert (record s { headers = set_hole s.headers a 1 }) a in
    let last = merge_prev-same (heap_merge s1 a) a in
    let next = heap_merge-same s1 a in (last.0 ∙ next.0, last.1 ∙ next.1)

-- `heap_free` at the address of a live block of a sound heap returns and does not stop the kernel. The
-- block is a hole then, joined with the holes next to it, all other blocks are left, and the heap is
-- sound.
pub heap_free-IsHeap :
    (s : HeapState) (pre post : List Block) (n : ℕ)
    → IsHeap s (pre ++ (taken n ∷ post))
    → (s' : HeapState) × (heap_free s (s.heap.start + extent pre + header_size) ≡ returns s')
      × (s'.heap.start ≡ s.heap.start)
      × IsHeap s' (join (pre ++ (hole n ∷ post)))
unfolding heap_free free_watched and_then
heap_free-IsHeap s pre post n h =
    let a = s.heap.start + extent pre in
    let bs = join (pre ++ (hole n ∷ post)) in
    let (w, run, watched) = free-IsWatched s.heap.start pre post n s.watcher h.watched in
    let s1 : HeapState = record s { watcher = w } in
    let final = free_block s1 a in
    let null : (a + header_size == 0) ≡ false = ground arith in
    let block : sub32 (a + header_size) header_size ≡ a =
      ground (arith, h.tiled.high, h.tiled.whole, extent-append pre (taken n ∷ post)) in
    let tiled : IsTiled final bs =
      free_block-IsTiled s1 pre post n (with_watcher s w _ h.tiled) h.separate in
    let same = free_block-same s1 a in
    let separate = join-apart (pre ++ (hole n ∷ post)) in
    (
      final,
      rw
          (
            heap_check-passes s _ h.tiled h.separate,
            run,
            null,
            block,
            heap_check-passes final bs tiled separate,
          )
          refl,
      same.1,
      record {
        tiled = tiled;
        separate = separate;
        watched =
            subst (λ w. IsWatched w final.heap.start bs) (sym same.0)
              (subst (λ x. IsWatched w x bs) (sym same.1) watched);
      },
    )

-- `heap_free` at an address that is not NULL and not that of a live block stops the kernel.
pub heap_free-panics :
    (s : HeapState) (bs : List Block) (ptr : ℕ)
    → IsHeap s bs
    → 0 < ptr
    → taken_at s.heap.start bs ptr ≡ false
    → heap_free s ptr ≡ panics
unfolding heap_free and_then
heap_free-panics s bs ptr h some_ptr away =
    rw
      (
        heap_check-passes s bs h.tiled h.separate,
        heapwatch_free-panics s.watcher s.heap.start bs ptr h.watched some_ptr away,
      )
      refl

join-split :
    (post : List Block) (m size : ℕ)
    → size + header_size < m
    → apart (hole m ∷ post) ≡ true
    → join (hole size ∷ hole (m - size - header_size) ∷ post) ≡ hole m ∷ post
unfolding join attach
join-split post m size less h =
    let r = m - size - header_size in
    ap (attach (hole size)) (join-fixed (hole r ∷ post) (apart-first_hole r m post ∙ h))
    ∙ ap (λ k. hole k ∷ post) (omega arith)

-- Giving back the block that was taken from a hole gives back the hole.
join-cut_hole :
    (pre post : List Block) (m size : ℕ)
    → size ≤ m
    → apart (pre ++ (hole m ∷ post)) ≡ true
    → (n : ℕ) × (rest : List Block) × (cut_hole m size ++ post ≡ taken n ∷ rest)
      × (join (pre ++ (hole n ∷ rest)) ≡ pre ++ (hole m ∷ post))
unfolding cut_hole
join-cut_hole pre post m size le h =
    let fixed = join-fixed (pre ++ (hole m ∷ post)) h in
    elim (Bool-cases (ltb (size + header_size) m)) [
      | inl e ↦
          let r = m - size - header_size in
          (
            size,
            hole r ∷ post,
            ap (λ l. l ++ post) (cut_hole-split m size e),
            join-append pre (hole size ∷ hole r ∷ post)
                ∙ ap (λ l. join (pre ++ l))
                    (join-split post m size (ground (arith, e)) (apart-back pre (hole m ∷ post) h))
                ∙ fixed,
          )
      | inr e ↦ (m, post, ap (λ l. l ++ post) (cut_hole-kept m size e), fixed)
    ]

-- `heap_free` of what `heap_alloc` has just returned gives back the blocks as they were, where a hole
-- was large enough.
pub heap_free-heap_alloc :
    (s : HeapState) (bs : List Block) (size : ℕ)
    → IsHeap s bs
    → HasRoom s.watcher
    → 0 < size
    → all_below size bs ≡ false
    → (ptr : ℕ) × (s' : HeapState) × (s'' : HeapState) × (heap_alloc s size 0 ≡ returns (ptr, s'))
      × (heap_free s' ptr ≡ returns s'')
      × IsHeap s'' bs
unfolding Allocates
heap_free-heap_alloc s bs size h has some_bytes some_hole =
    let (ptr, s', run, what) = heap_alloc-IsHeap s bs size h has in
    elim what [
      | inl (null, same, why) ↦
          absurd (elim why [ inl e ↦ omega (arith, e) | inr e ↦ ground (arith, e, some_hole) ])
      | inr (more, t) ↦
          let apart_bs : apart (t.pre ++ (hole t.bytes ∷ t.post)) ≡ true =
            subst (λ l. apart l ≡ true) t.blocks h.separate in
          let (n, rest, shape, back) = join-cut_hole t.pre t.post t.bytes size t.enough apart_bs in
          let live : IsHeap s' (t.pre ++ (taken n ∷ rest)) =
            subst (λ l. IsHeap s' (t.pre ++ l)) shape t.heap in
          let (s'', freed, start, heap) = heap_free-IsHeap s' t.pre rest n live in
          let at_ptr : s'.heap.start + extent t.pre + header_size ≡ ptr =
            omega (arith, t.start, t.address) in
          (
            ptr,
            s',
            s'',
            run,
            ap (heap_free s') (sym at_ptr) ∙ freed,
            subst (IsHeap s'') (back ∙ sym t.blocks) heap,
          )
    ]
