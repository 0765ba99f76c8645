-- ===== src/Paging/Loop.antt =====
-- src/paging.c: the loop of `page_table_clone`.
use eedox.Base.{
  ℕ, zero, suc, ◌+◌, ◌≤◌, ◌<◌, ◌≡◌, inl, inr, refl, sym, ap, ◌∙◌, subst, false, arith, ◌==◌,
  if◌then◌else◌, ==_iff, Bool-cases,
}
use eedox.Paging.{Page, Space, clone_page, clone_pages}
use eedox.Paging.Frame.{in_use, frames_left}
use eedox.Paging.Pair.{
  used, IsReady, IsCloned, IsPaired, clone_page-IsPaired, IsPaired-IsReady, used-same,
}

-- An entry with a frame, and then those behind it.
module _ (s s1 s' : Space) (table new i n : ℕ) (h : IsReady s table new)
    (some_frame : 0 < (s.pages table i).frame) (p : IsPaired s table new i s1)
    (c : IsCloned s1 table new (i + 1) n s') where
  first_entry : s'.pages new i ≡ record (s.pages table i) { frame = p.idx }
  first_entry = c.others i (inl (omega arith)) ∙ p.entry

  first_frame : (s'.pages new i).frame ≡ p.idx
  first_frame = ap (λ (page : Page). page.frame) first_entry

  -- What was in use is as it was.
  same_contents : (f : ℕ) → in_use s.frames f ≡ 1 → s1.frames.contents f ≡ s.frames.contents f
  same_contents f e =
      let other : (f == p.idx) ≡ false = elim (Bool-cases (f == p.idx)) [
        | inl t ↦ absurd (omega (arith, e, p.was_free, ap (in_use s.frames) ((==_iff f p.idx).0 t)))
        | inr t ↦ t
      ] in
      p.contents f
      ∙ ap (λ b. if b then s.frames.contents (s.pages table i).frame else s.frames.contents f) other

  later_used : (k : ℕ) → 0 < (s.pages table k).frame → 0 < (s1.pages table k).frame
  later_used k l = subst (λ (page : Page). 0 < page.frame) (sym (p.old k)) l

  first_copied :
      (in_use s.frames (s'.pages new i).frame ≡ 0)
      × (in_use s'.frames (s'.pages new i).frame ≡ 1)
      × (s'.frames.contents (s'.pages new i).frame ≡ s.frames.contents (s.pages table i).frame)
      × (s'.pages new i ≡ record (s.pages table i) { frame = (s'.pages new i).frame })
  first_copied =
      let marked : in_use s1.frames p.idx ≡ 1 = ground (arith, p.bits p.idx) in
      (
        ap (in_use s.frames) first_frame ∙ p.was_free,
        ap (in_use s'.frames) first_frame ∙ c.marks p.idx marked,
        ap s'.frames.contents first_frame
            ∙ c.kept p.idx marked
            ∙ p.contents p.idx
            ∙ ap
                (λ b.
                  if b then s.frames.contents (s.pages table i).frame else s.frames.contents p.idx)
                ((==_iff p.idx p.idx).1 refl),
        first_entry
            ∙ ap (λ n. let q : Page = record (s.pages table i) { frame = n } in q)
                (sym first_frame),
      )

  later_copied :
      (k : ℕ)
      → i + 1 ≤ k
      → k < i + 1 + n
      → 0 < (s.pages table k).frame
      → (in_use s.frames (s'.pages new k).frame ≡ 0)
        × (in_use s'.frames (s'.pages new k).frame ≡ 1)
        × (s'.frames.contents (s'.pages new k).frame ≡ s.frames.contents (s.pages table k).frame)
        × (s'.pages new k ≡ record (s.pages table k) { frame = (s'.pages new k).frame })
  later_copied k u v l =
      let r = c.frame k u v (later_used k l) in
      (
        ground (arith, p.bits (s'.pages new k).frame, r.0),
        r.1,
        r.2
            ∙ ap (λ (page : Page). s1.frames.contents page.frame) (p.old k)
            ∙ same_contents (s.pages table k).frame (h.marked k l),
        r.3
            ∙ ap
                (λ (page : Page).
                  let q : Page = record page { frame = (s'.pages new k).frame } in q)
                (p.old k),
      )

  IsPaired-IsCloned : IsCloned s table new i (suc n) s'
  IsPaired-IsCloned = record {
    old = λ k. c.old k ∙ p.old k;
    others = λ k o.
        let other : (k == i) ≡ false = elim o [
          | inl l ↦ ground (arith, l)
          | inr e ↦ elim (Bool-cases (k == i)) [
            | inl t ↦
                absurd (
                  omega
                    (arith, e, some_frame, ap (λ j. (s.pages table j).frame) ((==_iff k i).0 t)))
            | inr t ↦ t
          ]
        ] in
        c.others k (elim o [
          | inl l ↦ inl (omega (arith, l))
          | inr e ↦ inr (ap (λ (page : Page). page.frame) (p.old k) ∙ e)
        ])
        ∙ p.others k other;
    marks = λ f e. c.marks f (ground (arith, p.bits f, e));
    kept = λ f e. c.kept f (ground (arith, p.bits f, e)) ∙ same_contents f e;
    frame = λ k u v l. elim (Bool-cases (k == i)) [
      | inl t ↦
          subst
            (λ k.
              (in_use s.frames (s'.pages new k).frame ≡ 0)
              × (in_use s'.frames (s'.pages new k).frame ≡ 1)
              × (s'.frames.contents (s'.pages new k).frame
                  ≡ s.frames.contents (s.pages table k).frame)
              × (s'.pages new k ≡ record (s.pages table k) { frame = (s'.pages new k).frame }))
            (sym ((==_iff k i).0 t)) first_copied
      | inr t ↦ later_copied k (ground (arith, t)) (omega (arith, v)) l
    ];
    distinct = λ k l u v w x y. elim (Bool-cases (k == i)) [
      | inl t ↦ λ e.
          let r = c.frame l (omega (arith, u, v)) (omega (arith, w)) (later_used l y) in
          let same : p.idx ≡ (s'.pages new l).frame =
            sym first_frame ∙ ap (λ j. (s'.pages new j).frame) (sym ((==_iff k i).0 t)) ∙ e in
          ground (arith, p.bits (s'.pages new l).frame, same, r.0)
      | inr t ↦
          c.distinct k l (ground (arith, t)) v (omega (arith, w)) (later_used k x) (later_used l y)
    ];
  }

-- An entry without a frame, and then those behind it.
IsCloned-skip :
    (s s' : Space) (table new i n : ℕ)
    → (s.pages table i).frame ≡ 0
    → IsCloned s table new (i + 1) n s'
    → IsCloned s table new i (suc n) s'
IsCloned-skip s s' table new i n e c =
    let other : (k : ℕ) → 0 < (s.pages table k).frame → (k == i) ≡ false = λ k l.
      elim (Bool-cases (k == i)) [
        | inl t ↦ absurd (omega (arith, e, l, ap (λ j. (s.pages table j).frame) ((==_iff k i).0 t)))
        | inr t ↦ t
      ] in
    record {
      old = c.old;
      others = λ k o. elim o [
        | inl l ↦ c.others k (inl (omega (arith, l)))
        | inr f ↦ c.others k (inr f)
      ];
      marks = c.marks;
      kept = c.kept;
      frame = λ k u v l. c.frame k (ground (arith, other k l)) (omega (arith, v)) l;
      distinct =
          λ k l u v w x y. c.distinct k l (ground (arith, other k x)) v (omega (arith, w)) x y;
    }

-- The loop of `page_table_clone` from entry `i`.
pub clone_pages-IsCloned :
    (s : Space) (table new i n : ℕ)
    → IsReady s table new
    → used (s.pages table) i n ≤ frames_left s.frames
    → IsCloned s table new i n (clone_pages s table new i n)
unfolding clone_pages used
clone_pages-IsCloned s table new i zero h l = record {
  old = λ k. refl;
  others = λ k o. refl;
  marks = λ f e. e;
  kept = λ f e. refl;
  frame = λ k u v. absurd (omega arith);
  distinct = λ k l u v w. absurd (omega arith);
}
clone_pages-IsCloned s table new i (suc n) h l = elim (Bool-cases ((s.pages table i).frame == 0)) [
  | inl e ↦ rw e (
      IsCloned-skip s _ table new i n (ground (arith, e))
        (clone_pages-IsCloned s table new (i + 1) n h (ground (arith, l, e))))
  | inr e ↦ rw e (
      let some_frame : 0 < (s.pages table i).frame = ground (arith, e) in
      let p = clone_page-IsPaired s table new i h (ground (arith, l, e)) in
      let left : used ((clone_page s table new i).pages table) (i + 1) n
          ≤ frames_left (clone_page s table new i).frames =
        ground (
          arith,
          used-same (s.pages table) ((clone_page s table new i).pages table) (i + 1) n p.old,
          p.left,
          l,
          e,
        ) in
      IsPaired-IsCloned s (clone_page s table new i) _ table new i n h some_frame p (
        clone_pages-IsCloned (clone_page s table new i) table new (i + 1) n
          (IsPaired-IsReady s _ table new i h p) left))
]
