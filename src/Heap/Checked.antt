-- ===== src/Heap/Checked.antt =====
-- src/heapwatch.c: `heap_check` on the blocks of a sound heap.
use eedox.Base.{
  ℕ, zero, suc, ◌+◌, ◌^◌, ◌≤◌, ◌<◌, ◌≡◌, refl, ap, true, false, ◌&&◌, List, [], ◌∷◌, arith, leb,
  u32, length,
}
use eedox.Heap.{HeapState, Header, header_size}
use eedox.Heap.Watch.{returns, check_from, heap_check, header_fails, next_fails}
use eedox.Heap.Blocks.{Block, block_size, hole_flag, extent, header_of, Laid, apart, IsTiled}
use eedox.Ordlist.Held.{one_if}

flag-bound : (b : Block) (p : ℕ) → (header_of b p).is_hole ≤ 1
flag-bound b p = ground arith

-- What `heap_check` finds at the header behind a sound one.
module _ (hs : ℕ → Header) (start cur : ℕ) (b c : Block) (p : ℕ) (here : hs cur ≡ header_of b p)
    (there : hs (cur + header_size + block_size b) ≡ header_of c cur) (le : start ≤ cur)
    (h : (hole_flag b && hole_flag c) ≡ false) where
  sound-next : next_fails hs cur (cur + header_size + block_size b) ≡ false
  unfolding next_fails
  sound-next =
      let flag_b : (hs cur).is_hole ≡ one_if (hole_flag b) = ap (λ (h : Header). h.is_hole) here in
      let flag_c : (hs (cur + header_size + block_size b)).is_hole ≡ one_if (hole_flag c) =
        ap (λ (h : Header). h.is_hole) there in
      let p_c : (hs (cur + header_size + block_size b)).prev ≡ cur =
        ap (λ (h : Header). h.prev) there in
      ground (arith, flag_b, flag_c, p_c, h)

  sound-header :
      cur + header_size + block_size b < 2 ^ 32
      → header_fails hs start (cur + header_size + block_size b) ≡ false
  unfolding header_fails
  sound-header less =
      let flag_b : (hs cur).is_hole ≡ one_if (hole_flag b) = ap (λ (h : Header). h.is_hole) here in
      let size_b : (hs cur).size ≡ block_size b = ap (λ (h : Header). h.size) here in
      let flag_c : (hs (cur + header_size + block_size b)).is_hole ≡ one_if (hole_flag c) =
        ap (λ (h : Header). h.is_hole) there in
      let p_c : (hs (cur + header_size + block_size b)).prev ≡ cur =
        ap (λ (h : Header). h.prev) there in
      rw p_c (ground (arith, flag_b, flag_c, h, size_b, less))

-- The rounds of `heap_check` from a sound header find nothing.
check_from-passes :
    (hs : ℕ → Header) (start end : ℕ) (b : Block) (bs : List Block) (cur p n : ℕ)
    → Laid hs cur p (b ∷ bs)
    → apart (b ∷ bs) ≡ true
    → cur + extent (b ∷ bs) ≡ end + header_size
    → end + header_size < 2 ^ 32
    → length bs < n
    → start ≤ cur
    → header_fails hs start cur ≡ false
    → check_from hs start end cur n ≡ returns _
unfolding check_from Laid extent apart
check_from-passes hs start end b bs cur p zero l a w big more le fine = absurd (omega arith)
check_from-passes hs start end b [] cur p (suc n) l a w big more le fine =
    let size_b : (hs cur).size ≡ block_size b = ap (λ (h : Header). h.size) l.0 in
    let last : leb end (u32 (cur + header_size + (hs cur).size)) ≡ true =
      ground (arith, size_b, w, big) in
    rw (fine, last) refl
check_from-passes hs start end b (c ∷ bs) cur p (suc n) l a w big more le fine =
    let size_b : (hs cur).size ≡ block_size b = ap (λ (h : Header). h.size) l.0 in
    let (next_header, some_bytes, rest) = l.2 in
    let next : u32 (cur + header_size + (hs cur).size) ≡ cur + header_size + block_size b =
      ground (arith, size_b, w, big) in
    let inside : leb end (cur + header_size + block_size b) ≡ false =
      ground (arith, w, some_bytes) in
    let h : (hole_flag b && hole_flag c) ≡ false = ground (arith, a) in
    let passes =
      check_from-passes hs start end c bs (cur + header_size + block_size b) cur n l.2
        (ground (arith, a)) (omega (arith, w)) big (omega arith) (omega arith)
        (sound-header hs start cur b c p l.0 next_header le h (omega (arith, w, big))) in
    rw (next, fine, inside, sound-next hs start cur b c p l.0 next_header le h) passes

length-extent : (bs : List Block) → length bs ≤ extent bs
unfolding extent
length-extent [] = omega arith
length-extent (b ∷ bs) = omega (arith, length-extent bs)

first_sound :
    (s : HeapState) (b : Block) (bs : List Block)
    → IsTiled s (b ∷ bs)
    → header_fails s.headers s.heap.start s.heap.start ≡ false
unfolding header_fails Laid
first_sound s b bs t =
    let flag : (s.headers s.heap.start).is_hole ≡ one_if (hole_flag b) =
      ap (λ (h : Header). h.is_hole) t.laid.0 in
    let first : (s.headers s.heap.start).prev ≡ 0 = ap (λ (h : Header). h.prev) t.laid.0 in
    rw first (ground (arith, flag, t.low))

-- `heap_check` does not stop the kernel where the blocks tile the heap and no two holes stand side
-- by side, and its rounds suffice.
pub heap_check-passes :
    (s : HeapState) (bs : List Block) → IsTiled s bs → apart bs ≡ true → heap_check s ≡ returns _
unfolding heap_check extent
heap_check-passes s [] t a = absurd (omega (arith, t.whole))
heap_check-passes s (b ∷ bs) t a =
    let end : u32 (s.heap.start + s.heap.size) ≡ s.heap.start + s.heap.size =
      ground (arith, t.high) in
    let fine : header_fails s.headers s.heap.start s.heap.start ≡ false = first_sound s b bs t in
    rw end (
      check_from-passes s.headers s.heap.start (s.heap.start + s.heap.size) b bs s.heap.start 0
        (s.heap.size + 2) t.laid a (omega (arith, t.whole)) (omega (arith, t.high))
        (omega (arith, t.whole, length-extent bs)) (omega arith) fine)
