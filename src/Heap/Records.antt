-- ===== src/Heap/Records.antt =====
-- src/heapwatch.c: what `heapwatch_alloc` and `heapwatch_free` do to the records.
use eedox.Base.{
  ℕ, zero, suc, ◌+◌, ◌-◌, ◌^◌, ◌≤◌, ◌<◌, ◌≡◌, ◌⊎◌, inl, inr, refl, true, false, ◌||◌, arith, ◌==◌,
  Bool-cases,
}
use eedox.Heap.{Heapwatch, WatchRec}
use eedox.Heap.Watch.{
  returns, panics, and_then, overlaps, free_record, put_record, record_block, heapwatch_alloc,
  clear_record,
}

-- A place for another record.
unfoldable pub HasRoom : Heapwatch → Type 0
HasRoom w = (w.index < 1024) ⊎ ((i : ℕ) × ((i < w.index) × ((w.recs i).ptr ≡ 0)))

-- The place that `heapwatch_alloc` writes, and the length that it leaves.
pub record IsFree (w : Heapwatch) (k : ℕ) (index : ℕ) : Type 0 where
  pub within : k < index
  pub grown : (index ≡ w.index) ⊎ ((index ≡ w.index + 1) × (k ≡ w.index))
  pub unused : k < w.index → (w.recs k).ptr ≡ 0
  pub bound : index ≤ 1024

-- What the loop of `heapwatch_alloc` returns where no record overlaps the new block.
free_record_lem :
    (recs : ℕ → WatchRec) (ptr size last i n : ℕ)
    → ((k : ℕ) → i ≤ k → k < i + n → 0 < (recs k).ptr → overlaps (recs k) ptr size ≡ false)
    → i + n < 2 ^ 32 - 1
    → (last ≡ 2 ^ 32 - 1) ⊎ ((last < i) × ((recs last).ptr ≡ 0))
    → (r : ℕ) × (free_record recs ptr size last i n ≡ returns r)
      × (((r ≡ 2 ^ 32 - 1) × (last ≡ 2 ^ 32 - 1) × ((k : ℕ) → i ≤ k → k < i + n → 0 < (recs k).ptr))
          ⊎ ((r < i + n) × ((recs r).ptr ≡ 0)))
unfolding free_record
free_record_lem recs ptr size last i zero h small l = (
  last,
  refl,
  elim l [
    | inl e ↦ inl (e, e, λ k u v. absurd (omega arith))
    | inr e ↦ inr (omega (arith, e.0), e.1)
  ],
)
free_record_lem recs ptr size last i (suc n) h small l = elim (Bool-cases ((recs i).ptr == 0)) [
  | inl e ↦
      let (r, run, place) =
        free_record_lem recs ptr size i (i + 1) n (λ k u v. h k (omega arith) (omega arith))
          (omega arith) (inr (omega arith, ground (arith, e))) in
      (
        r,
        rw e run,
        elim place [ inl p ↦ absurd (omega (arith, p.1)) | inr p ↦ inr (omega (arith, p.0), p.1) ],
      )
  | inr e ↦
      let (r, run, place) =
        free_record_lem recs ptr size last (i + 1) n (λ k u v. h k (omega arith) (omega arith))
          (omega arith) (elim l [ inl p ↦ inl p | inr p ↦ inr (omega (arith, p.0), p.1) ]) in
      (
        r,
        rw (e, h i (omega arith) (omega arith) (ground (arith, e))) run,
        elim place [
          | inl p ↦ inl (p.0, p.1, λ k u v. ground (arith, p.2 k, e))
          | inr p ↦ inr (omega (arith, p.0), p.1)
        ],
      )
]

-- A record is cleared.
pub clear_record_lem :
    (w : Heapwatch) (ptr i n k : ℕ)
    → i ≤ k
    → k < i + n
    → (w.recs k).ptr ≡ ptr
    → (r : ℕ) × (r < i + n)
      × ((w.recs r).ptr ≡ ptr)
      × (clear_record w ptr i n
          ≡ returns (record w { recs = put_record w.recs r (record { ptr = 0; size = 0 }) }))
unfolding clear_record
clear_record_lem w ptr i zero k l m e = absurd (omega arith)
clear_record_lem w ptr i (suc n) k l m e = elim (Bool-cases ((w.recs i).ptr == ptr)) [
  | inl t ↦ (i, omega arith, ground (arith, t), rw t refl)
  | inr t ↦
      let (r, le, at_r, run) =
        clear_record_lem w ptr (i + 1) n k (ground (arith, t, e)) (omega arith) e in
      (r, omega (arith, le), at_r, rw t run)
]

-- No record has the address.
pub clear_record-panics :
    (w : Heapwatch) (ptr i n : ℕ)
    → ((k : ℕ) → k < i + n → ((w.recs k).ptr == ptr) ≡ false)
    → clear_record w ptr i n ≡ panics
unfolding clear_record
clear_record-panics w ptr i zero h = refl
clear_record-panics w ptr i (suc n) h =
    rw (h i (omega arith)) (clear_record-panics w ptr (i + 1) n (λ k l. h k (omega arith)))

-- No record overlaps a block that stands apart from them all.
pub overlaps-apart :
    (rec : WatchRec) (ptr size : ℕ)
    → 0 < size
    → 0 < rec.size
    → ptr + size < 2 ^ 32
    → rec.ptr + rec.size < 2 ^ 32
    → (rec.ptr + rec.size ≤ ptr) ⊎ (ptr + size ≤ rec.ptr)
    → overlaps rec ptr size ≡ false
unfolding overlaps
overlaps-apart rec ptr size h i j k o = ground (arith, h, i, j, k, o)

-- `heapwatch_alloc` of a block apart from all the recorded ones writes a free place.
pub heapwatch_alloc_lem :
    (w : Heapwatch) (ptr size : ℕ)
    → 0 < ptr
    → 0 < size
    → w.index ≤ 1024
    → HasRoom w
    → ((k : ℕ) → k < w.index → 0 < (w.recs k).ptr → overlaps (w.recs k) ptr size ≡ false)
    → (k : ℕ) × (index : ℕ) × IsFree w k index
      × (heapwatch_alloc w ptr size
          ≡ returns (record {
            recs = put_record w.recs k (record { ptr = ptr; size = size });
            index = index;
          }))
unfolding heapwatch_alloc record_block HasRoom and_then
heapwatch_alloc_lem w ptr size h i room has apart =
    let not_null : (size == 0 || ptr == 0) ≡ false = ground (arith, h, i) in
    let (r, run, place) =
      free_record_lem w.recs ptr size (2 ^ 32 - 1) 0 w.index (λ k u v. apart k (omega arith))
        (omega arith) (inl refl) in
    elim place [
      | inl p ↦
          let less : (w.index == 1024) ≡ false = elim has [
            | inl l ↦ ground (arith, l)
            | inr l ↦ absurd (omega (arith, p.2 l.0, l.1.0, l.1.1))
          ] in
          let last : (r == 2 ^ 32 - 1) ≡ true = ground (arith, p.0) in
          (
            w.index,
            w.index + 1,
            record {
              within = omega arith;
              grown = inr (refl, refl);
              unused = λ l. absurd (omega arith);
              bound = ground (arith, less, room);
            },
            rw (not_null, run, last, less) refl,
          )
      | inr p ↦
          let other : (r == 2 ^ 32 - 1) ≡ false = ground (arith, p.0, room) in
          (
            r,
            w.index,
            record {
              within = omega (arith, p.0);
              grown = inl refl;
              unused = λ l. p.1;
              bound = room;
            },
            rw (not_null, run, other) refl,
          )
    ]
