-- ===== src/Paging/Pair.antt =====
-- src/paging.c: one entry of `page_table_clone`.
use eedox.Base.{
  ℕ, zero, suc, ◌+◌, ◌%◌, ◌^◌, ◌≤◌, ◌<◌, ◌≡◌, ◌≢◌, ◌⊎◌, refl, sym, ap, ap₂, ◌∙◌, subst, false,
  arith, ◌==◌, if◌then◌else◌,
}
use eedox.Bitset.Laws.{IsBytes}
use eedox.Paging.{Page, Space, framed, put_page, copy_frame, clone_page}
use eedox.Paging.Frame.{frame_count, in_use, frames_left, alloc_frame-Framed}

-- How many of the `n` entries of a table from `i` on have a frame.
unfoldable pub used : (ℕ → Page) → ℕ → ℕ → ℕ
used entries i zero = 0
used entries i (suc n) = (if (entries i).frame == 0 then 0 else 1) + used entries (i + 1) n

-- What a frame of an entry may be: it is marked, and the entry of 20 bits can hold its number.
pub record IsReady (s : Space) (table new : ℕ) : Type 0 where
  pub bytes : IsBytes s.frames.mem
  pub first : in_use s.frames 0 ≡ 1
  pub count : frame_count s.frames ≤ 2 ^ 20
  pub apart : (new == table) ≡ false
  pub marked : (k : ℕ) → 0 < (s.pages table k).frame → in_use s.frames (s.pages table k).frame ≡ 1

-- What the loop of `page_table_clone` has done to the entries from `i` up to `i + n`.
pub record IsCloned (s : Space) (table new i n : ℕ) (s' : Space) : Type 0 where
  pub old : (k : ℕ) → s'.pages table k ≡ s.pages table k
  pub others : (k : ℕ) → (k < i) ⊎ ((s.pages table k).frame ≡ 0) → s'.pages new k ≡ s.pages new k
  pub marks : (f : ℕ) → in_use s.frames f ≡ 1 → in_use s'.frames f ≡ 1
  pub kept : (f : ℕ) → in_use s.frames f ≡ 1 → s'.frames.contents f ≡ s.frames.contents f
  pub frame :
      (k : ℕ)
      → i ≤ k
      → k < i + n
      → 0 < (s.pages table k).frame
      → (in_use s.frames (s'.pages new k).frame ≡ 0)
        × (in_use s'.frames (s'.pages new k).frame ≡ 1)
        × (s'.frames.contents (s'.pages new k).frame ≡ s.frames.contents (s.pages table k).frame)
        × (s'.pages new k ≡ record (s.pages table k) { frame = (s'.pages new k).frame })
  pub distinct :
      (k l : ℕ)
      → i ≤ k
      → k < l
      → l < i + n
      → 0 < (s.pages table k).frame
      → 0 < (s.pages table l).frame
      → (s'.pages new k).frame ≢ (s'.pages new l).frame

-- One entry with a frame.
pub record IsPaired (s : Space) (table new i : ℕ) (s' : Space) : Type 0 where
  pub idx : ℕ
  pub old : (k : ℕ) → s'.pages table k ≡ s.pages table k
  pub others : (k : ℕ) → (k == i) ≡ false → s'.pages new k ≡ s.pages new k
  pub was_free : in_use s.frames idx ≡ 0
  pub bits : (f : ℕ) → in_use s'.frames f ≡ (if idx == f then 1 else in_use s.frames f)
  pub contents :
      (f : ℕ)
      → s'.frames.contents f
        ≡ (if f == idx then s.frames.contents (s.pages table i).frame else s.frames.contents f)
  pub entry : s'.pages new i ≡ record (s.pages table i) { frame = idx }
  pub bytes : IsBytes s'.frames.mem
  pub count : frame_count s'.frames ≡ frame_count s.frames
  pub left : frames_left s'.frames + 1 ≡ frames_left s.frames

put_page_self : (pages : ℕ → ℕ → Page) (t i : ℕ) (page : Page) → put_page pages t i page t i ≡ page
unfolding put_page
put_page_self pages t i page = ground arith

put_page_other :
    (pages : ℕ → ℕ → Page) (t i : ℕ) (page : Page) (k : ℕ)
    → (k == i) ≡ false
    → put_page pages t i page t k ≡ pages t k
unfolding put_page
put_page_other pages t i page k e = ground (arith, e)

put_page_apart :
    (pages : ℕ → ℕ → Page) (table new i : ℕ) (page : Page) (k : ℕ)
    → (new == table) ≡ false
    → put_page pages new i page table k ≡ pages table k
unfolding put_page
put_page_apart pages table new i page k e = ground (arith, e)

pub clone_page-IsPaired :
    (s : Space) (table new i : ℕ)
    → IsReady s table new
    → 0 < frames_left s.frames
    → IsPaired s table new i (clone_page s table new i)
unfolding clone_page framed copy_frame
clone_page-IsPaired s table new i h l =
    let a = alloc_frame-Framed s.frames (s.pages new i) 0 0 h.bytes l in
    rw a.runs (
      let small : a.idx % 2 ^ 20 ≡ a.idx = ground (arith, a.within, h.count) in
      record {
        idx = a.idx;
        old = λ k. put_page_apart s.pages table new i _ k h.apart;
        others = λ k e. put_page_other s.pages new i _ k e;
        was_free = a.was_free;
        bits = a.bits;
        contents = λ f.
            ap
              (λ n.
                if f == n then s.frames.contents (s.pages table i).frame else s.frames.contents f)
              small;
        entry =
            put_page_self s.pages new i _
            ∙ ap (λ n. let p : Page = record (s.pages table i) { frame = n } in p) small;
        bytes = a.kept;
        count = refl;
        left = a.left;
      })

-- The loop goes on from a state like the one before.
pub IsPaired-IsReady :
    (s s' : Space) (table new i : ℕ)
    → IsReady s table new
    → IsPaired s table new i s'
    → IsReady s' table new
IsPaired-IsReady s s' table new i h p = record {
  bytes = p.bytes;
  first = ground (arith, p.bits 0, h.first);
  count = omega (arith, p.count, h.count);
  apart = h.apart;
  marked = λ k l.
      subst (λ (page : Page). in_use s'.frames page.frame ≡ 1) (sym (p.old k))
        (ground (
          arith,
          p.bits (s.pages table k).frame,
          h.marked k (subst (λ (page : Page). 0 < page.frame) (p.old k) l),
        ));
}

pub used-same : (a b : ℕ → Page) (i n : ℕ) → ((k : ℕ) → b k ≡ a k) → used b i n ≡ used a i n
unfolding used
used-same a b i zero h = refl
used-same a b i (suc n) h =
    ap₂ ◌+◌ (ap (λ (page : Page). if page.frame == 0 then 0 else 1) (h i))
      (used-same a b (i + 1) n h)
