-- ===== src/Heap/Watch.antt =====
-- src/heapwatch.c: the record of the live blocks, and the check of the kernel heap. `recs` has 1024
-- places. The rounds of `heap_check` are bounded by the bytes of the heap, since each steps over a
-- header.
use eedox.Base.{
  ℕ, zero, suc, ◌+◌, ◌-◌, ◌^◌, Bool, ◌&&◌, ◌||◌, not, ltb, leb, ◌==◌, if◌then◌else◌, u32, sub32,
}
use eedox.Heap.{HeapState, Header, Heapwatch, WatchRec, header_size}

-- What a call comes to: it returns, or the kernel stops (`kpanic`), or the rounds given to the loop
-- of `heap_check` do not suffice.
pub data Run (A : Type 0) : Type 0 where
  returns : A → Run A
  panics : Run A
  out_of_rounds : Run A

unfoldable pub and_then : {A B : Type 0} → Run A → (A → Run B) → Run B
and_then (returns a) f = f a
and_then panics f = panics
and_then out_of_rounds f = out_of_rounds

-- The test of `heapwatch_alloc`: the first or the last byte of the new block stands in the record.
unfoldable pub overlaps : WatchRec → ℕ → ℕ → Bool
overlaps rec ptr size =
    let end = sub32 (u32 (ptr + size)) 1 in
    let rec_end = sub32 (u32 (rec.ptr + rec.size)) 1 in
    (leb rec.ptr ptr && leb ptr rec_end) || (leb rec.ptr end && leb end rec_end)

-- The loop of `heapwatch_alloc`, from index `i`, with `n` rounds left: the last unused record.
unfoldable pub free_record : (ℕ → WatchRec) → ℕ → ℕ → ℕ → ℕ → ℕ → Run ℕ
free_record recs ptr size free_index i zero = returns free_index
free_record recs ptr size free_index i (suc n) =
    let unused = (recs i).ptr == 0 in
    let rest = free_record recs ptr size (if unused then i else free_index) (i + 1) n in
    if unused then rest else if overlaps (recs i) ptr size then panics else rest

unfoldable pub put_record : (ℕ → WatchRec) → ℕ → WatchRec → ℕ → WatchRec
put_record recs k rec i = if i == k then rec else recs i

-- The end of `heapwatch_alloc`.
unfoldable pub record_block : Heapwatch → ℕ → ℕ → ℕ → Run Heapwatch
record_block w ptr size free_index =
    let rec : WatchRec = record { ptr = ptr; size = size } in
    if not (free_index == 2 ^ 32 - 1)
    then returns (record w { recs = put_record w.recs free_index rec })
    else if w.index == 1024
    then panics
    else returns (record { recs = put_record w.recs w.index rec; index = w.index + 1 })

unfoldable pub heapwatch_alloc : Heapwatch → ℕ → ℕ → Run Heapwatch
heapwatch_alloc w ptr size =
    if size == 0 || ptr == 0
    then returns w
    else and_then (free_record w.recs ptr size (2 ^ 32 - 1) 0 w.index) (record_block w ptr size)

-- The loop of `heapwatch_free`, from index `i`, with `n` rounds left.
unfoldable pub clear_record : Heapwatch → ℕ → ℕ → ℕ → Run Heapwatch
clear_record w ptr i zero = panics
clear_record w ptr i (suc n) =
    if (w.recs i).ptr == ptr
    then returns (record w { recs = put_record w.recs i (record { ptr = 0; size = 0 }) })
    else clear_record w ptr (i + 1) n

unfoldable pub heapwatch_free : Heapwatch → ℕ → Run Heapwatch
heapwatch_free w ptr = if ptr == 0 then returns w else clear_record w ptr 0 w.index

-- The checks of a round of `heap_check` on the header at `cur` and the one in front of it.
unfoldable pub header_fails : (ℕ → Header) → ℕ → ℕ → Bool
header_fails hs start cur =
    let prev = (hs cur).prev in
    (ltb 1 (hs cur).is_hole || ltb cur prev)
    || (leb start prev
        && (not (u32 (prev + header_size + (hs prev).size) == cur)
            || (not ((hs prev).is_hole == 0) && not ((hs cur).is_hole == 0))))

-- The checks on the next header.
unfoldable pub next_fails : (ℕ → Header) → ℕ → ℕ → Bool
next_fails hs cur next =
    not ((hs next).prev == cur) || (not ((hs cur).is_hole == 0) && not ((hs next).is_hole == 0))

-- The rounds of `heap_check`, from the header at `cur`.
unfoldable pub check_from : (ℕ → Header) → ℕ → ℕ → ℕ → ℕ → Run Unit
check_from hs start end cur zero = out_of_rounds
check_from hs start end cur (suc n) =
    let next = u32 (cur + header_size + (hs cur).size) in
    let rest = check_from hs start end next n in
    if header_fails hs start cur
    then panics
    else if leb end next
    then returns _
    else if next_fails hs cur next
    then panics
    else rest

unfoldable pub heap_check : HeapState → Run Unit
heap_check s =
    check_from s.headers s.heap.start (u32 (s.heap.start + s.heap.size)) s.heap.start
      (s.heap.size + 2)
