-- ===== src/Heap/Cleared.antt =====
-- src/heapwatch.c: the records when a block is given back, or an address that is none.
use eedox.Base.{
  ℕ, ◌+◌, ◌<◌, ◌≡◌, ◌≢◌, inl, inr, sym, ap, ◌∙◌, subst, true, false, ◌||◌, List, ◌∷◌, ◌++◌, arith,
  ◌==◌, ==_iff, Bool-cases,
}
use eedox.Heap.{Heapwatch, WatchRec, header_size}
use eedox.Heap.Watch.{returns, panics, put_record, heapwatch_free}
use eedox.Heap.Blocks.{Block, hole, taken, extent}
use eedox.Heap.Join.{join}
use eedox.Heap.Watched.{
  covers, taken_at, IsWatched, covers-append, taken_at-append, taken_at-range, covers-taken_at,
  covers-join, taken_at-join,
}
use eedox.Heap.Records.{clear_record_lem, clear_record-panics}
use eedox.Heap.Live.{put_record-same, put_record-other}

-- A live block of `n` bytes that is given back.
module _ (a : ℕ) (pre post : List Block) (n : ℕ) where
  abbrev before : List Block
  before = pre ++ (taken n ∷ post)

  abbrev after : List Block
  after = join (pre ++ (hole n ∷ post))

  abbrev ptr : ℕ
  ptr = a + extent pre + header_size

  covers-given : (p k : ℕ) → covers a before p k ≡ true → p ≢ ptr → covers a after p k ≡ true
  unfolding covers
  covers-given p k h other =
      covers-join (pre ++ (hole n ∷ post)) p k a
      ∙ ground (
        arith,
        h,
        other,
        covers-append pre (taken n ∷ post) p k a,
        covers-append pre (hole n ∷ post) p k a,
      )

  taken_at-given : (x : ℕ) → taken_at a after x ≡ true → (taken_at a before x ≡ true) × (x ≢ ptr)
  unfolding taken_at
  taken_at-given x h =
      let rest : (taken_at a pre x || taken_at (a + extent pre + header_size + n) post x) ≡ true =
        sym (taken_at-append pre (hole n ∷ post) x a)
        ∙ sym (taken_at-join (pre ++ (hole n ∷ post)) x a)
        ∙ h in
      (
        ground (arith, rest, taken_at-append pre (taken n ∷ post) x a),
        λ e. elim (Bool-cases (taken_at a pre x)) [
          | inl t ↦ let r = taken_at-range pre x a t in absurd (omega (arith, r.1, e))
          | inr t ↦
              let r =
                taken_at-range post x (a + extent pre + header_size + n)
                  (ground (arith, rest, t)) in
              absurd (omega (arith, r.0, e))
        ],
      )

  taken_at-ptr : taken_at a before ptr ≡ true
  unfolding taken_at
  taken_at-ptr = ground (arith, taken_at-append pre (taken n ∷ post) ptr a)

  -- The record of the block is cleared.
  module _ (w : Heapwatch) (r : ℕ) (h : IsWatched w a before) (u : r < w.index)
      (e : (w.recs r).ptr ≡ ptr) where
    abbrev recs : ℕ → WatchRec
    recs = put_record w.recs r (record { ptr = 0; size = 0 })

    abbrev none_here : WatchRec
    none_here = record { ptr = 0; size = 0 }

    cleared : (i : ℕ) → 0 < (recs i).ptr → ((i == r) ≡ false) × (recs i ≡ w.recs i)
    cleared i v = elim (Bool-cases (i == r)) [
      | inl t ↦
          absurd (
            omega (arith, v, ap (λ (r : WatchRec). r.ptr) (put_record-same w.recs r none_here i t)))
      | inr t ↦ (t, put_record-other w.recs r none_here i t)
    ]

    cleared_sound :
        (i : ℕ) → i < w.index → 0 < (recs i).ptr → covers a after (recs i).ptr (recs i).size ≡ true
    cleared_sound i v x =
        let (t, same) = cleared i x in
        let in_use : 0 < (w.recs i).ptr = subst (λ (r : WatchRec). 0 < r.ptr) same x in
        subst (λ (r : WatchRec). covers a after r.ptr r.size ≡ true) (sym same)
          (covers-given (w.recs i).ptr (w.recs i).size (h.sound i v in_use)
            (λ f. absurd (ground (arith, h.once i r v u in_use (f ∙ sym e), t))))

    cleared_once :
        (i j : ℕ)
        → i < w.index
        → j < w.index
        → 0 < (recs i).ptr
        → (recs i).ptr ≡ (recs j).ptr
        → i ≡ j
    cleared_once i j v x y z =
        let (t, same) = cleared i y in
        let (t', same') = cleared j (omega (arith, y, z)) in
        h.once i j v x (subst (λ (r : WatchRec). 0 < r.ptr) same y)
          (sym (ap (λ (r : WatchRec). r.ptr) same) ∙ z ∙ ap (λ (r : WatchRec). r.ptr) same')

    cleared_all :
        (x : ℕ) → taken_at a after x ≡ true → (i : ℕ) × ((i < w.index) × ((recs i).ptr ≡ x))
    cleared_all x y =
        let (was, other) = taken_at-given x y in
        let (i, (v, at_x)) = h.all x was in
        elim (Bool-cases (i == r)) [
          | inl t ↦ absurd (other (sym at_x ∙ ap (λ k. (w.recs k).ptr) ((==_iff i r).0 t) ∙ e))
          | inr t ↦ (
            i,
            (v, ap (λ (r : WatchRec). r.ptr) (put_record-other w.recs r none_here i t) ∙ at_x),
          )
        ]

  -- The records keep up with the blocks when a block is given back.
  pub free-IsWatched :
      (w : Heapwatch)
      → IsWatched w a before
      → (w' : Heapwatch) × (heapwatch_free w ptr ≡ returns w') × IsWatched w' a after
  unfolding heapwatch_free
  free-IsWatched w h =
      let (k, (k_in, k_at)) = h.all ptr taken_at-ptr in
      let (r, u, e, run) = clear_record_lem w ptr 0 w.index k (omega arith) (omega arith) k_at in
      let u' : r < w.index = omega (arith, u) in
      (
        _,
        (let null : (ptr == 0) ≡ false = ground arith in rw null run),
        record {
          room = h.room;
          sound = cleared_sound w r h u' e;
          once = cleared_once w r h u' e;
          all = cleared_all w r h u' e;
        },
      )

-- An address that no live block has stops the kernel.
pub heapwatch_free-panics :
    (w : Heapwatch) (a : ℕ) (bs : List Block) (p : ℕ)
    → IsWatched w a bs
    → 0 < p
    → taken_at a bs p ≡ false
    → heapwatch_free w p ≡ panics
unfolding heapwatch_free
heapwatch_free-panics w a bs p h some_ptr away =
    let other : (k : ℕ) → k < w.index → ((w.recs k).ptr == p) ≡ false = λ k u.
      elim (Bool-cases ((w.recs k).ptr == p)) [
        | inl e ↦
            let same : (w.recs k).ptr ≡ p = (==_iff _ _).0 e in
            let t = covers-taken_at bs _ _ a (h.sound k u (omega (arith, same, some_ptr))) in
            absurd (ground (arith, t, away, ap (taken_at a bs) same))
        | inr e ↦ e
      ] in
    let null : (p == 0) ≡ false = ground (arith, some_ptr) in
    rw null (clear_record-panics w p 0 w.index (λ k u. other k (omega arith)))
