-- ===== src/Paging/Clone.antt =====
-- src/paging.c: the copy that `page_table_clone` makes has frames of its own.
use eedox.Base.{
  ℕ, ◌≤◌, ◌<◌, ◌≡◌, ◌≢◌, inl, inr, refl, sym, ap, ◌∙◌, subst, arith, ◌==◌, ==_iff, Bool-cases,
}
use eedox.Paging.{Page, Frames, Space, new_table, page_table_clone, no_page}
use eedox.Paging.Frame.{in_use, frames_left}
use eedox.Paging.Pair.{used, IsReady, IsCloned, used-same}
use eedox.Paging.Loop.{clone_pages-IsCloned}

-- A table whose entries are those of another, with frames of its own that have the same contents.
pub record IsCopy (s : Space) (table new : ℕ) (s' : Space) : Type 0 where
  pub unused : (k : ℕ) → k < 1024 → (s.pages table k).frame ≡ 0 → s'.pages new k ≡ no_page
  pub frame :
      (k : ℕ)
      → k < 1024
      → 0 < (s.pages table k).frame
      → (in_use s.frames (s'.pages new k).frame ≡ 0)
        × (in_use s'.frames (s'.pages new k).frame ≡ 1)
        × (s'.frames.contents (s'.pages new k).frame ≡ s.frames.contents (s.pages table k).frame)
        × (s'.pages new k ≡ record (s.pages table k) { frame = (s'.pages new k).frame })
        × (0 < (s'.pages new k).frame)
  pub distinct :
      (k l : ℕ)
      → k < l
      → l < 1024
      → 0 < (s.pages table k).frame
      → 0 < (s.pages table l).frame
      → (s'.pages new k).frame ≢ (s'.pages new l).frame
  pub old : (k : ℕ) → s'.pages table k ≡ s.pages table k
  pub kept :
      (f : ℕ)
      → in_use s.frames f ≡ 1
      → (in_use s'.frames f ≡ 1) × (s'.frames.contents f ≡ s.frames.contents f)

IsCloned-IsCopy :
    (s s1 s' : Space) (table new : ℕ)
    → in_use s.frames 0 ≡ 1
    → s1.frames ≡ s.frames
    → ((k : ℕ) → s1.pages table k ≡ s.pages table k)
    → ((k : ℕ) → s1.pages new k ≡ no_page)
    → IsCloned s1 table new 0 1024 s'
    → IsCopy s table new s'
IsCloned-IsCopy s s1 s' table new zero_used e same blank c = record {
  unused = λ k u f. c.others k (inr (ap (λ (page : Page). page.frame) (same k) ∙ f)) ∙ blank k;
  frame = λ k u l.
      let r =
        c.frame k (omega arith) (omega (arith, u))
          (subst (λ (page : Page). 0 < page.frame) (sym (same k)) l) in
      let was_free : in_use s.frames (s'.pages new k).frame ≡ 0 =
        ap (λ (f : Frames). in_use f (s'.pages new k).frame) (sym e) ∙ r.0 in
      (
        was_free,
        r.1,
        r.2
            ∙ ap (λ (f : Frames). f.contents (s1.pages table k).frame) e
            ∙ ap (λ (page : Page). s.frames.contents page.frame) (same k),
        r.3
            ∙ ap
                (λ (page : Page).
                  let q : Page = record page { frame = (s'.pages new k).frame } in q)
                (same k),
        elim (Bool-cases ((s'.pages new k).frame == 0)) [
          | inl t ↦
              absurd (omega (arith, was_free, zero_used, ap (in_use s.frames) ((==_iff _ _).0 t)))
          | inr t ↦ ground (arith, t)
        ],
      );
  distinct = λ k l v w x y.
      c.distinct k l (omega arith) v (omega (arith, w))
        (subst (λ (page : Page). 0 < page.frame) (sym (same k)) x)
        (subst (λ (page : Page). 0 < page.frame) (sym (same l)) y);
  old = λ k. c.old k ∙ same k;
  kept = λ f u.
      let u' : in_use s1.frames f ≡ 1 = ap (λ (g : Frames). in_use g f) e ∙ u in
      (c.marks f u', c.kept f u' ∙ ap (λ (g : Frames). g.contents f) e);
}

-- `page_table_clone` makes a table with the same entries, in which each entry with a frame has one that
-- was not in use before, no two the same, with the contents of the old one. The old table, and all
-- that was in use, are left as they were. The conditions are that the map is one of bytes in which the
-- frame 0 and those of the old table are in use, that no frame has a number above 20 bits, that enough
-- frames are left, and that kmalloc_a returns another table than the old one.
pub page_table_clone-IsCopy :
    (s : Space) (table : ℕ)
    → IsReady s table (s.fresh 0)
    → used (s.pages table) 0 1024 ≤ frames_left s.frames
    → let (new, s') = page_table_clone s table in IsCopy s table new s'
unfolding page_table_clone new_table
page_table_clone-IsCopy s table h l =
    let (new, s1) = new_table s in
    let same : (k : ℕ) → s1.pages table k ≡ s.pages table k = λ k. ground (arith, h.apart) in
    let blank : (k : ℕ) → s1.pages new k ≡ no_page = λ k. ground arith in
    let ready : IsReady s1 table new = record {
      bytes = h.bytes;
      first = h.first;
      count = h.count;
      apart = h.apart;
      marked = λ k x.
          subst (λ (page : Page). in_use s.frames page.frame ≡ 1) (sym (same k))
            (h.marked k (subst (λ (page : Page). 0 < page.frame) (same k) x));
    } in
    IsCloned-IsCopy s s1 _ table new h.first refl same blank (
      clone_pages-IsCloned s1 table new 0 1024 ready
        (omega (arith, l, used-same (s.pages table) (s1.pages table) 0 1024 same)))
