-- ===== src/Heap/Steps.antt =====
-- The steps of `heap_alloc` and `heap_free` of src/kheap.c on the blocks of the heap.
use eedox.Base.{
  ℕ, zero, suc, ◌+◌, ◌-◌, ◌≤◌, ◌<◌, ◌≡◌, ◌⊎◌, inl, inr, refl, sym, ap, ◌∙◌, subst, true, ◌&&◌, not,
  List, [], ◌∷◌, arith, ◌==◌, u32, sub32, Bool-cases,
}
use eedox.Ordlist.{Ordlist, ordlist_insert}
use eedox.Ordlist.Held.{held-index, held, one_if, held-insert, held-remove}
use eedox.Memory.{Mem}
use eedox.Heap.{
  heap_high_split, heap_merge, hheader_isvalid, hheader_next, join_next, heap_hole_index,
  hole_index, header_size, set_size, set_prev, index_insert, index_remove, set_hole, put,
  high_split_at, split_headers, HeapState, Header, compare_headers,
}
use eedox.Heap.Blocks.{
  Laid-extent, header_of, Block, hole, taken, block_size, hole_flag, extent, last_header, Laid,
  holes_at, Laid-next,
}
use eedox.Heap.Cut.{Cut, Cut-replace}

-- The hole whose address stands at the index `idx` is taken.
pub take-Cut :
    (s : HeapState) (pre post : List Block) (n idx : ℕ)
    → Cut s pre (hole n ∷ []) post
    → idx < s.heap.index.size
    → s.heap.index.array idx ≡ s.heap.start + extent pre
    → Cut
        (index_remove (record s { headers = set_hole s.headers (s.heap.start + extent pre) 0 }) idx)
        pre
        (taken n ∷ [])
        post
unfolding index_remove set_hole put Laid extent last_header block_size hole_flag holes_at
take-Cut s pre post n idx c h e =
    let a = s.heap.start + extent pre in
    Cut-replace s _ pre (hole n ∷ []) (taken n ∷ []) post c refl refl refl (λ x l. ground arith)
      (ground arith ∙ ap (λ (h : Header). record h { is_hole = 0 }) c.run.0, c.run.1, _)
      (λ x l. ground arith) (λ l. ground arith ∙ sym (Laid-next s.headers _ _ post c.back l))
      (λ x. ground (arith, held-remove s.heap.index idx x h))

-- A block that is freed is a hole of the index.
pub give-Cut :
    (s : HeapState) (pre post : List Block) (n : ℕ)
    → Cut s pre (taken n ∷ []) post
    → Cut
        (index_insert
          (record s { headers = set_hole s.headers (s.heap.start + extent pre) 1 })
          (s.heap.start + extent pre))
        pre
        (hole n ∷ [])
        post
unfolding index_insert set_hole put Laid extent last_header block_size hole_flag holes_at held
give-Cut s pre post n c =
    let a = s.heap.start + extent pre in
    let index : Ordlist = record s.heap.index { cmp = compare_headers (set_hole s.headers a 1) } in
    let inserted : (x : ℕ)
        → held (ordlist_insert index a).1 x ≡ one_if (a == x) + held s.heap.index x =
      held-insert index a in
    Cut-replace s _ pre (taken n ∷ []) (hole n ∷ []) post c refl refl refl (λ x l. ground arith)
      (ground arith ∙ ap (λ (h : Header). record h { is_hole = 1 }) c.run.0, c.run.1, _)
      (λ x l. ground arith) (λ l. ground arith ∙ sym (Laid-next s.headers _ _ post c.back l))
      (λ x. ground (arith, inserted x))

-- The index changes as the blocks do, the headers are those of `high_split_at`.
split-Cut :
    (s : HeapState) (pre post : List Block) (m n d next newhole : ℕ)
    → Cut s pre (taken m ∷ []) post
    → n + d ≡ m
    → 0 < n
    → header_size < d
    → newhole ≡ s.heap.start + extent pre + header_size + n
    → next ≡ newhole + d
    → Cut
        (high_split_at s (s.heap.start + extent pre) d next newhole)
        pre
        (taken n ∷ hole (d - header_size) ∷ [])
        post
unfolding high_split_at split_headers index_insert set_hole set_size set_prev put Laid extent
    last_header block_size hole_flag holes_at held hheader_isvalid
split-Cut s pre post m n d next newhole c e some_bytes more e1 e2 =
    let a = s.heap.start + extent pre in
    let index : Ordlist = record s.heap.index {
      cmp = compare_headers (split_headers s a d next newhole);
    } in
    let inserted : (x : ℕ)
        → held (ordlist_insert index newhole).1 x ≡ one_if (newhole == x) + held s.heap.index x =
      held-insert index newhole in
    let room : (extent post ≡ 0) ⊎ (header_size < extent post) =
      Laid-extent s.headers _ _ post c.back in
    let valid : 0 < extent post → hheader_isvalid next s.heap ≡ true =
      λ l. ground (arith, room, c.whole, c.high) in
    let e5 : sub32 m d ≡ n = ground (arith, c.whole, c.high) in
    let e6 : sub32 d header_size ≡ d - header_size = ground (arith, c.whole, c.high) in
    Cut-replace s _ pre (taken m ∷ []) (taken n ∷ hole (d - header_size) ∷ []) post c refl refl
      (omega arith) (λ x l. ground arith)
      (
        ground arith
            ∙ ap (λ (h : Header). record h { size = sub32 h.size d }) c.run.0
            ∙ ap (λ k. header_of (taken k) (last_header s.heap.start 0 pre)) e5,
        some_bytes,
        (ground arith ∙ ap (λ k. header_of (hole k) a) e6, omega arith, _),
      )
      (λ x l. ground arith)
      (λ l.
        let there = a + (m + header_size + 0) in
        (let e3 : next ≡ there = omega arith in
          let step : set_hole (split_headers s a d next newhole) newhole 1 next
              ≡ record (s.headers next) { prev = newhole } =
            ground (arith, valid l) in
          subst
            (λ k.
              set_hole (split_headers s a d next newhole) newhole 1 k
              ≡ record (s.headers k) { prev = a + header_size + n })
            e3 (step ∙ ap (λ k. let h : Header = record (s.headers next) { prev = k } in h) e1)))
      (λ x. ground (arith, inserted x))

-- A block keeps the bytes asked for, and what it has too many becomes a hole.
pub high_split-Cut :
    (s : HeapState) (pre post : List Block) (m n d : ℕ)
    → Cut s pre (taken m ∷ []) post
    → n + d ≡ m
    → 0 < n
    → header_size < d
    → Cut
        (heap_high_split s (s.heap.start + extent pre) d)
        pre
        (taken n ∷ hole (d - header_size) ∷ [])
        post
unfolding heap_high_split hheader_next Laid extent block_size
high_split-Cut s pre post m n d c e some_bytes more =
    let z : (s.headers (s.heap.start + extent pre)).size ≡ m =
      ap (λ (h : Header). h.size) c.run.0 in
    split-Cut s pre post m n d _ _ c e some_bytes more (ground (arith, z, c.whole, c.high))
      (ground (arith, z, c.whole, c.high))

hole_index_lem :
    (a : Mem) (x i n k : ℕ)
    → i ≤ k
    → k < i + n
    → a k ≡ x
    → (hole_index a x i n < i + n) × (a (hole_index a x i n) ≡ x)
unfolding hole_index
hole_index_lem a x i zero k l m e = absurd (omega arith)
hole_index_lem a x i (suc n) k l m e = elim (Bool-cases (a i == x)) [
  | inl t ↦ rw t (omega arith, ground arith)
  | inr t ↦ rw t (
      let r = hole_index_lem a x (i + 1) n k (ground arith) (omega arith) e in
      (omega (arith, r.0), r.1))
]

-- A hole and the hole behind it become one, and the second leaves the index.
join-Cut :
    (s : HeapState) (pre post : List Block) (n m next next_next idx : ℕ)
    → Cut s pre (hole n ∷ hole m ∷ []) post
    → next ≡ s.heap.start + extent pre + header_size + n
    → next_next ≡ next + header_size + m
    → idx < s.heap.index.size
    → s.heap.index.array idx ≡ next
    → Cut
        (join_next s (s.heap.start + extent pre) next next_next idx)
        pre
        (hole (n + header_size + m) ∷ [])
        post
unfolding join_next index_remove set_size set_prev put Laid extent last_header block_size hole_flag
    holes_at held hheader_isvalid
join-Cut s pre post n m next next_next idx c e1 e2 h e =
    let a = s.heap.start + extent pre in
    let room : (extent post ≡ 0) ⊎ (header_size < extent post) =
      Laid-extent s.headers _ _ post c.back in
    let valid : 0 < extent post → hheader_isvalid next_next s.heap ≡ true =
      λ l. ground (arith, room, c.whole, c.high) in
    let size_here : (s.headers a).size ≡ n = ap (λ (h : Header). h.size) c.run.0 in
    let size_next : (s.headers next).size ≡ m =
      ap (λ k. (s.headers k).size) e1 ∙ ap (λ (h : Header). h.size) c.run.2.0 in
    let e3 : u32 ((s.headers a).size + u32 ((s.headers next).size + header_size))
        ≡ n + header_size + m =
      ground (arith, c.whole, c.high) in
    Cut-replace s _ pre (hole n ∷ hole m ∷ []) (hole (n + header_size + m) ∷ []) post c refl refl
      (omega arith) (λ x l. ground arith)
      (
        ground arith ∙ ap (λ (h : Header). record h { size = n + header_size + m }) c.run.0,
        omega arith,
        _,
      )
      (λ x l. ground arith)
      (λ l.
        let there = a + (n + header_size + (m + header_size + 0)) in
        let e4 : next_next ≡ there = omega arith in
        let step : (join_next s a next next_next idx).headers next_next
            ≡ record (s.headers next_next) { prev = a } =
          ground (arith, valid l) in
        subst
          (λ k. (join_next s a next next_next idx).headers k ≡ record (s.headers k) { prev = a }) e4
          step)
      (λ x. ground (arith, held-remove s.heap.index idx x h))

-- `heap_merge` at a hole with a hole behind it makes one of them.
pub merge-Cut :
    (s : HeapState) (pre post : List Block) (n m : ℕ)
    → Cut s pre (hole n ∷ hole m ∷ []) post
    → Cut (heap_merge s (s.heap.start + extent pre)) pre (hole (n + header_size + m) ∷ []) post
unfolding heap_merge hheader_next hheader_isvalid Laid extent block_size holes_at hole_flag
    heap_hole_index
merge-Cut s pre post n m c =
    let a = s.heap.start + extent pre in
    let size_here : (s.headers a).size ≡ n = ap (λ (h : Header). h.size) c.run.0 in
    let e1 : hheader_next s.headers a ≡ a + header_size + n =
      ground (arith, size_here, c.whole, c.high) in
    let size_next : (s.headers (hheader_next s.headers a)).size ≡ m =
      ap (λ k. (s.headers k).size) e1 ∙ ap (λ (h : Header). h.size) c.run.2.0 in
    let flag_next : (s.headers (hheader_next s.headers a)).is_hole ≡ 1 =
      ap (λ k. (s.headers k).is_hole) e1 ∙ ap (λ (h : Header). h.is_hole) c.run.2.0 in
    let listed : 0 < held s.heap.index (hheader_next s.headers a) =
      ground (arith, c.index (hheader_next s.headers a), e1) in
    let (k, (k_in, k_at)) = held-index s.heap.index (hheader_next s.headers a) listed in
    let i =
      hole_index_lem s.heap.index.array (hheader_next s.headers a) 0 s.heap.index.size k
        (omega arith) (omega arith) k_at in
    let test : (hheader_isvalid (hheader_next s.headers a) s.heap
          && not ((s.headers (hheader_next s.headers a)).is_hole == 0))
        ≡ true =
      ground (arith, e1, flag_next, c.whole, c.high, c.run.2.1) in
    rw test (
      join-Cut s pre post n m _ _ _ c e1 (ground (arith, size_next, e1, c.whole, c.high))
        (omega (arith, i.0)) i.1)
