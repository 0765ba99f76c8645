-- ===== src/Heap/Laws.antt =====
-- src/kheap.c and src/heapwatch.c: `heap_alloc` on a sound heap.
use eedox.Base.{
  ℕ, ◌+◌, ◌^◌, ◌≤◌, ◌<◌, ◌≡◌, ◌⊎◌, inl, inr, refl, sym, ap, ◌∙◌, subst, true, false, List, [], ◌∷◌,
  ◌++◌, arith, ltb, ◌==◌, u32, sub32, Bool-cases,
}
use eedox.Ordlist.{ordlist_get, ordlist_size}
use eedox.Heap.{
  ordlist_get, HeapState, Header, Heapwatch, header_size, set_hole, index_remove, index_insert,
  high_split_at, heap_high_split,
}
use eedox.Heap.Watch.{returns, and_then}
use eedox.Heap.Alloc.{fits, best_index, trim_block, hand_out, take_hole, alloc_checked, heap_alloc}
use eedox.Heap.Blocks.{
  Block, hole, block_size, extent, extent-append, holes_at, apart, Laid, IsTiled,
}
use eedox.Heap.Cut.{IsTiled-Cut}
use eedox.Heap.Find.{
  cut_hole, all_below, none-all_below, best_index_lem, holes_at-HoleAt, take-IsTiled, take-apart,
}
use eedox.Heap.Checked.{heap_check-passes}
use eedox.Heap.Watched.{IsWatched}
use eedox.Heap.Records.{HasRoom}
use eedox.Heap.Live.{alloc-IsWatched}
use eedox.Ordlist.Held.{held-at}

-- The heap consists of the blocks, no two holes stand side by side, and the records are those of the
-- live blocks.
pub record IsHeap (s : HeapState) (bs : List Block) : Type 0 where
  pub tiled : IsTiled s bs
  pub separate : apart bs ≡ true
  pub watched : IsWatched s.watcher s.heap.start bs

-- A block of `size` bytes at `ptr` was taken from a hole.
pub record IsTaken (s : HeapState) (bs : List Block) (size ptr : ℕ) (s' : HeapState) : Type 0 where
  pub pre : List Block
  pub post : List Block
  pub bytes : ℕ
  pub blocks : bs ≡ pre ++ (hole bytes ∷ post)
  pub enough : size ≤ bytes
  pub address : ptr ≡ s.heap.start + extent pre + header_size
  pub start : s'.heap.start ≡ s.heap.start
  pub heap : IsHeap s' (pre ++ (cut_hole bytes size ++ post))

pub with_watcher :
    (s : HeapState) (w : Heapwatch) (bs : List Block)
    → IsTiled s bs
    → IsTiled (record s { watcher = w }) bs
with_watcher s w bs t = record {
  laid = t.laid;
  whole = t.whole;
  index = t.index;
  low = t.low;
  high = t.high;
}

trim_block-same :
    (s : HeapState) (a size : ℕ)
    → ((trim_block s a size).watcher ≡ s.watcher)
      × ((trim_block s a size).heap.start ≡ s.heap.start)
unfolding trim_block heap_high_split high_split_at index_insert
trim_block-same s a size = elim (Bool-cases (ltb header_size (sub32 (s.headers a).size size))) [
  | inl e ↦ rw e (refl, refl)
  | inr e ↦ rw e (refl, refl)
]

-- `take_hole` at the index of a hole that is large enough.
module _ (s : HeapState) (pre post : List Block) (m size idx : ℕ)
    (h : IsHeap s (pre ++ (hole m ∷ post))) (has : HasRoom s.watcher) (some_bytes : 0 < size)
    (le : size ≤ m) (u : idx < s.heap.index.size)
    (e : s.heap.index.array idx ≡ s.heap.start + extent pre) where
  abbrev block : ℕ
  block = s.heap.start + extent pre

  abbrev trimmed : HeapState
  trimmed =
      trim_block (index_remove (record s { headers = set_hole s.headers block 0 }) idx) block size

  hand_out-IsTaken :
      (s' : HeapState) × (hand_out trimmed block size ≡ returns (block + header_size, s'))
      × (s'.heap.start ≡ s.heap.start)
      × IsHeap s' (pre ++ (cut_hole m size ++ post))
  unfolding hand_out index_remove extent block_size and_then
  hand_out-IsTaken =
      let t = take-IsTiled s pre post m idx size h.tiled u e some_bytes le in
      let same =
        trim_block-same (index_remove (record s { headers = set_hole s.headers block 0 }) idx) block
          size in
      let whole : s.heap.start + extent (pre ++ (hole m ∷ post)) < 2 ^ 32 =
        omega (arith, h.tiled.whole, h.tiled.high) in
      let (w, run, watched) =
        alloc-IsWatched s.heap.start pre post m size some_bytes le s.watcher h.watched has whole in
      let ptr : u32 (block + header_size) ≡ block + header_size =
        ground (arith, whole, extent-append pre (hole m ∷ post)) in
      let final : HeapState = record trimmed { watcher = w } in
      let tiled : IsTiled final (pre ++ (cut_hole m size ++ post)) = with_watcher trimmed w _ t in
      let separate = take-apart pre post m size h.separate in
      (
        final,
        rw (ptr, same.0, run, heap_check-passes final _ tiled separate) refl,
        same.1,
        record {
          tiled = tiled;
          separate = separate;
          watched =
              subst (λ a. IsWatched w a (pre ++ (cut_hole m size ++ post))) (sym same.1) watched;
        },
      )

  take_hole-IsTaken :
      (s' : HeapState) × (take_hole s size 0 idx ≡ returns (block + header_size, s'))
      × (s'.heap.start ≡ s.heap.start)
      × IsHeap s' (pre ++ (cut_hole m size ++ post))
  unfolding take_hole ordlist_get
  take_hole-IsTaken =
      let (s', run, start, heap) = hand_out-IsTaken in
      (
        s',
        ap
              (λ a.
                hand_out
                  (trim_block (index_remove (record s { headers = set_hole s.headers a 0 }) idx) a
                    size)
                  a size)
              e
            ∙ run,
        start,
        heap,
      )

-- What `heap_alloc` without alignment comes to.
unfoldable pub Allocates : HeapState → List Block → ℕ → ℕ → HeapState → Type 0
Allocates s bs size out s' =
    ((out ≡ 0) × (s' ≡ s) × ((size ≡ 0) ⊎ (all_below size bs ≡ true)))
    ⊎ ((0 < size) × IsTaken s bs size out s')

alloc-none :
    (s : HeapState) (size : ℕ)
    → (size ≡ 0)
      ⊎ (best_index s.headers s.heap.index.array size 0 0 s.heap.index.size ≡ s.heap.index.size)
    → alloc_checked s size 0 ≡ returns (0, s)
unfolding alloc_checked ordlist_size
alloc-none s size h = elim (Bool-cases (size == 0)) [
  | inl e ↦ rw e refl
  | inr e ↦
      let idx = best_index s.headers s.heap.index.array size 0 0 s.heap.index.size in
      let test : (idx == s.heap.index.size) ≡ true = ground (arith, h, e) in rw (e, test) refl
]

alloc-some :
    (s : HeapState) (size : ℕ)
    → 0 < size
    → best_index s.headers s.heap.index.array size 0 0 s.heap.index.size < s.heap.index.size
    → alloc_checked s size 0
      ≡ take_hole s size 0 (best_index s.headers s.heap.index.array size 0 0 s.heap.index.size)
unfolding alloc_checked ordlist_size
alloc-some s size h u =
    let idx = best_index s.headers s.heap.index.array size 0 0 s.heap.index.size in
    let test : (idx == s.heap.index.size) ≡ false = ground (arith, u) in
    let some_bytes : (size == 0) ≡ false = ground (arith, h) in rw (some_bytes, test) refl

-- The search found a hole.
found-IsTaken :
    (s : HeapState) (bs : List Block) (size idx : ℕ)
    → IsHeap s bs
    → HasRoom s.watcher
    → 0 < size
    → idx < s.heap.index.size
    → fits s.headers size 0 (s.heap.index.array idx) ≡ true
    → (out : ℕ) × (s' : HeapState) × (take_hole s size 0 idx ≡ returns (out, s'))
      × IsTaken s bs size out s'
unfolding fits Laid block_size
found-IsTaken s bs size idx h has some_bytes u fit =
    let x = s.heap.index.array idx in
    let listed : 0 < holes_at s.heap.start bs x =
      omega (arith, held-at s.heap.index idx u, h.tiled.index x) in
    let at_x = holes_at-HoleAt s.heap.start bs x listed in
    let here : IsHeap s (at_x.pre ++ (hole at_x.bytes ∷ at_x.post)) =
      subst (IsHeap s) at_x.blocks h in
    let c = IsTiled-Cut s at_x.pre (hole at_x.bytes ∷ []) at_x.post here.tiled in
    let bytes : (s.headers x).size ≡ at_x.bytes =
      ap (λ a. (s.headers a).size) at_x.address ∙ ap (λ (h : Header). h.size) c.run.0 in
    let le : size ≤ at_x.bytes = ground (arith, fit, bytes) in
    let (s', run, start, heap) =
      take_hole-IsTaken s at_x.pre at_x.post at_x.bytes size idx here has some_bytes le u
        at_x.address in
    (
      _,
      s',
      run,
      record {
        pre = at_x.pre;
        post = at_x.post;
        bytes = at_x.bytes;
        blocks = at_x.blocks;
        enough = le;
        address = refl;
        start = start;
        heap = heap;
      },
    )

-- `heap_alloc` without alignment on a sound heap, with a place for another record, returns and does
-- not stop the kernel. It returns NULL and changes nothing where no byte is asked for or where every
-- hole is too small. Else it takes a hole that is large enough, returns the address behind its header,
-- makes a hole of the bytes that are left over where they are more than a header, leaves all other
-- blocks, and leaves the heap sound.
pub heap_alloc-IsHeap :
    (s : HeapState) (bs : List Block) (size : ℕ)
    → IsHeap s bs
    → HasRoom s.watcher
    → (out : ℕ) × (s' : HeapState) × (heap_alloc s size 0 ≡ returns (out, s'))
      × Allocates s bs size out s'
unfolding heap_alloc and_then Allocates
heap_alloc-IsHeap s bs size h has =
    rw (heap_check-passes s bs h.tiled h.separate) (elim (Bool-cases (size == 0)) [
      | inl e ↦ (
        0,
        s,
        alloc-none s size (inl (ground (arith, e))),
        inl (refl, refl, inl (ground (arith, e))),
      )
      | inr e ↦ elim (best_index_lem s.headers s.heap.index.array size 0 s.heap.index.size) [
        | inl none_fits ↦ (
          0,
          s,
          alloc-none s size (inr (none_fits.0 ∙ omega arith)),
          inl (
            refl,
            refl,
            inr (
                none-all_below s bs size h.tiled
                  (λ k u. none_fits.1 k (omega arith) (omega arith))),
          ),
        )
        | inr one_fits ↦
            let u : best_index s.headers s.heap.index.array size 0 0 s.heap.index.size
                < s.heap.index.size =
              omega (arith, one_fits.0) in
            let some_bytes : 0 < size = ground (arith, e) in
            let (out, s', run, is_taken) =
              found-IsTaken s bs size _ h has some_bytes u one_fits.1 in
            (out, s', alloc-some s size some_bytes u ∙ run, inr (some_bytes, is_taken))
      ]
    ])
