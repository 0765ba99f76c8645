-- ===== src/Heap/Live.antt =====
-- src/heapwatch.c: the records of the live blocks when a block is taken and when it is given back.
use eedox.Base.{
  ℕ, ◌+◌, ◌-◌, ◌^◌, ◌≤◌, ◌<◌, ◌≡◌, ◌≢◌, ◌⊎◌, inl, inr, refl, sym, ap, ◌∙◌, subst, true, false, ◌||◌,
  List, ◌∷◌, ◌++◌, arith, ltb, ◌==◌, ==_iff, Bool-cases,
}
use eedox.Heap.{Heapwatch, WatchRec, header_size}
use eedox.Heap.Watch.{returns, overlaps, put_record, heapwatch_alloc}
use eedox.Heap.Blocks.{Block, hole, extent, block_size, extent-append}
use eedox.Heap.Find.{cut_hole}
use eedox.Heap.Watched.{
  covers, taken_at, IsWatched, covers-append, taken_at-append, covers-range, taken_at-range,
  covers-at, taken_at-at,
}
use eedox.Heap.Records.{HasRoom, IsFree, overlaps-apart, heapwatch_alloc_lem}

covers-behind :
    (a : ℕ) (post : List Block) (m size : ℕ)
    → size ≤ m
    → (p n : ℕ) → covers (a + header_size + m) post p n ≡ true
    → covers a (cut_hole m size ++ post) p n ≡ true
unfolding covers cut_hole
covers-behind a post m size le p n h = elim (Bool-cases (ltb (size + header_size) m)) [
  | inl e ↦ rw e (
      let same =
        covers-at post p n (a + header_size + m)
          (a + header_size + size + header_size + (m - size - header_size)) (ground (arith, e)) in
      ground (arith, same, h))
  | inr e ↦ rw e (ground (arith, h))
]

covers-here :
    (a : ℕ) (post : List Block) (m size : ℕ)
    → 0 < size
    → size ≤ m
    → covers a (cut_hole m size ++ post) (a + header_size) size ≡ true
unfolding covers cut_hole
covers-here a post m size some_bytes le = elim (Bool-cases (ltb (size + header_size) m)) [
  | inl e ↦ rw e (ground (arith, some_bytes))
  | inr e ↦ rw e (ground (arith, some_bytes, le))
]

taken_at-behind :
    (a : ℕ) (post : List Block) (m size : ℕ)
    → size ≤ m
    → (x : ℕ)
    → taken_at a (cut_hole m size ++ post) x
      ≡ ((x == a + header_size) || taken_at (a + header_size + m) post x)
unfolding taken_at cut_hole
taken_at-behind a post m size le x = elim (Bool-cases (ltb (size + header_size) m)) [
  | inl e ↦ rw e (
      ap (λ t. (x == a + header_size) || t)
        (taken_at-at post x (a + header_size + size + header_size + (m - size - header_size))
          (a + header_size + m) (ground (arith, e))))
  | inr e ↦ rw e refl
]

pub put_record-same :
    (recs : ℕ → WatchRec) (k : ℕ) (rec : WatchRec) (i : ℕ)
    → (i == k) ≡ true
    → put_record recs k rec i ≡ rec
unfolding put_record
put_record-same recs k rec i e = rw e refl

pub put_record-other :
    (recs : ℕ → WatchRec) (k : ℕ) (rec : WatchRec) (i : ℕ)
    → (i == k) ≡ false
    → put_record recs k rec i ≡ recs i
unfolding put_record
put_record-other recs k rec i e = rw e refl

-- A hole of `m` bytes of which a block takes `size`.
module _ (a : ℕ) (pre post : List Block) (m size : ℕ) (some_bytes : 0 < size) (le : size ≤ m) where
  abbrev before : List Block
  before = pre ++ (hole m ∷ post)

  abbrev after : List Block
  after = pre ++ (cut_hole m size ++ post)

  abbrev ptr : ℕ
  ptr = a + extent pre + header_size

  covers-cut :
      (p n : ℕ)
      → (covers a before p n ≡ true → covers a after p n ≡ true) × (covers a after ptr size ≡ true)
  unfolding covers
  covers-cut p n =
      let A = a + extent pre in
      let old = covers-append pre (hole m ∷ post) p n a in
      let new = covers-append pre (cut_hole m size ++ post) p n a in
      let new_ptr = covers-append pre (cut_hole m size ++ post) ptr size a in
      let behind = covers-behind A post m size le p n in
      let at_ptr = covers-here A post m size some_bytes le in
      (λ h. ground (arith, old, new, behind, h), ground (arith, new_ptr, at_ptr))

  taken_at-cut : (x : ℕ) → taken_at a after x ≡ true → (taken_at a before x ≡ true) ⊎ (x ≡ ptr)
  unfolding taken_at
  taken_at-cut x h = ground (
    arith,
    h,
    taken_at-append pre (hole m ∷ post) x a,
    taken_at-append pre (cut_hole m size ++ post) x a,
    taken_at-behind (a + extent pre) post m size le x,
  )

  covers-away :
      (p n : ℕ)
      → covers a before p n ≡ true
      → ((p + n ≤ ptr) ⊎ (ptr + size ≤ p)) × (p ≢ ptr) × (0 < n) × (p + n ≤ a + extent before)
  unfolding covers extent block_size
  covers-away p n h = elim (Bool-cases (covers a pre p n)) [
    | inl e ↦
        let r = covers-range pre p n a e in
        (
          inl (omega (arith, r.1)),
          (λ same. absurd (omega (arith, r.1, r.2, same))),
          r.2,
          omega (arith, r.1, extent-append pre (hole m ∷ post)),
        )
    | inr e ↦
        let r =
          covers-range post p n (a + extent pre + header_size + m)
            (ground (arith, h, e, covers-append pre (hole m ∷ post) p n a)) in
        (
          inr (omega (arith, r.0, le)),
          (λ same. absurd (omega (arith, r.0, same))),
          r.2,
          omega (arith, r.1, extent-append pre (hole m ∷ post)),
        )
  ]

  -- The record of the new block is written.
  module _ (w : Heapwatch) (k index : ℕ) (h : IsWatched w a before) (free : IsFree w k index) where
    abbrev recs : ℕ → WatchRec
    recs = put_record w.recs k (record { ptr = ptr; size = size })

    fresh : (i : ℕ) → i < w.index → 0 < (w.recs i).ptr → (w.recs i).ptr ≢ ptr
    fresh i u v = (covers-away (w.recs i).ptr (w.recs i).size (h.sound i u v)).1

    recorded_sound :
        (i : ℕ) → i < index → 0 < (recs i).ptr → covers a after (recs i).ptr (recs i).size ≡ true
    recorded_sound i u v = elim (Bool-cases (i == k)) [
      | inl e ↦
          subst (λ (r : WatchRec). covers a after r.ptr r.size ≡ true)
            (sym (put_record-same w.recs k _ i e)) (covers-cut ptr size).1
      | inr e ↦
          let same = put_record-other w.recs k (record { ptr = ptr; size = size }) i e in
          subst (λ (r : WatchRec). covers a after r.ptr r.size ≡ true) (sym same)
            ((covers-cut (w.recs i).ptr (w.recs i).size).0 (
              h.sound i (ground (arith, u, e, free.grown))
                (subst (λ (r : WatchRec). 0 < r.ptr) same v)))
    ]

    recorded_once :
        (i j : ℕ) → i < index → j < index → 0 < (recs i).ptr → (recs i).ptr ≡ (recs j).ptr → i ≡ j
    recorded_once i j u v x y =
        let here = λ (i : ℕ). λ (e : (i == k) ≡ true).
          ap (λ (r : WatchRec). r.ptr)
            (put_record-same w.recs k (record { ptr = ptr; size = size }) i e) in
        let other = λ (i : ℕ). λ (e : (i == k) ≡ false).
          ap (λ (r : WatchRec). r.ptr)
            (put_record-other w.recs k (record { ptr = ptr; size = size }) i e) in
        elim (Bool-cases (i == k)) [
          | inl e ↦ elim (Bool-cases (j == k)) [
            | inl f ↦ ground (arith, e, f)
            | inr f ↦ absurd (
                fresh j (ground (arith, v, f, free.grown))
                  (omega (arith, here i e, other j f, x, y))
                  (omega (arith, here i e, other j f, y)))
          ]
          | inr e ↦ elim (Bool-cases (j == k)) [
            | inl f ↦ absurd (
                fresh i (ground (arith, u, e, free.grown)) (omega (arith, other i e, x))
                  (omega (arith, here j f, other i e, y)))
            | inr f ↦
                h.once i j (ground (arith, u, e, free.grown)) (ground (arith, v, f, free.grown))
                  (omega (arith, other i e, x)) (omega (arith, other i e, other j f, y))
          ]
        ]

    recorded_all :
        (x : ℕ) → taken_at a after x ≡ true → (i : ℕ) × ((i < index) × ((recs i).ptr ≡ x))
    recorded_all x y = elim (taken_at-cut x y) [
      | inl t ↦
          let (i, (u, v)) = h.all x t in
          let used = taken_at-range before x a t in
          let other : (i == k) ≡ false = ground (arith, free.unused, used.0, u, v) in
          (
            i,
            (
              ground (arith, u, free.grown),
              ap (λ (r : WatchRec). r.ptr) (put_record-other w.recs k _ i other) ∙ v,
            ),
          )
      | inr e ↦ (
        k,
        (
          free.within,
          ap (λ (r : WatchRec). r.ptr) (put_record-same w.recs k _ k ((==_iff k k).1 refl)) ∙ sym e,
        ),
      )
    ]

  -- The records keep up with the blocks when a block is taken.
  pub alloc-IsWatched :
      (w : Heapwatch)
      → IsWatched w a before
      → HasRoom w
      → a + extent before < 2 ^ 32
      → (w' : Heapwatch) × (heapwatch_alloc w ptr size ≡ returns w') × IsWatched w' a after
  unfolding extent block_size
  alloc-IsWatched w h has small =
      let away : (k : ℕ) → k < w.index → 0 < (w.recs k).ptr → overlaps (w.recs k) ptr size ≡ false =
        λ k u v.
          let r = covers-away (w.recs k).ptr (w.recs k).size (h.sound k u v) in
          overlaps-apart (w.recs k) ptr size some_bytes r.2
            (omega (arith, small, le, extent-append pre (hole m ∷ post)))
            (omega (arith, r.3, small)) r.0 in
      let (k, index, free, run) =
        heapwatch_alloc_lem w ptr size (omega arith) some_bytes h.room has away in
      (
        _,
        run,
        record {
          room = free.bound;
          sound = recorded_sound w k index h free;
          once = recorded_once w k index h free;
          all = recorded_all w k index h free;
        },
      )
