-- ===== src/Paging/Frame.antt =====
-- src/paging.c: the frame that `alloc_frame` takes.
use eedox.Base.{
  ℕ, zero, suc, ◌+◌, ◌*◌, ◌/◌, ◌≤◌, ◌<◌, ◌≡◌, inl, inr, refl, ap, ◌∙◌, arith, ◌==◌, if◌then◌else◌,
  Bool-cases,
}
use eedox.Base.Int.{ℤ, pos, negsuc}
use eedox.Memory.{Mem}
use eedox.Bitset.{Bitset, bitset_get, bitset_set, bitset_first_unset}
use eedox.Bitset.Laws.{IsBytes, get-set, Found, as_index, first_unset-Found}
use eedox.Paging.{alloc_at, Page, Frames, alloc_frame, framed}

-- How many of the first `n` bits are not set.
unfoldable pub unset : Mem → Bitset → ℕ → ℕ
unset m bs zero = 0
unset m bs (suc n) = (if bitset_get m bs n == 0 then 1 else 0) + unset m bs n

unset-pos :
    (m : Mem) (bs : Bitset) (n : ℕ) → 0 < unset m bs n → (j : ℕ) × (j < n) × (bitset_get m bs j ≡ 0)
unfolding unset
unset-pos m bs zero h = absurd (omega arith)
unset-pos m bs (suc n) h = elim (Bool-cases (bitset_get m bs n == 0)) [
  | inl e ↦ (n, omega arith, ground (arith, e))
  | inr e ↦ let (j, l, f) = unset-pos m bs n (ground (arith, h, e)) in (j, omega (arith, l), f)
]

unset-same :
    (m : Mem) (bs : Bitset) (idx n : ℕ)
    → IsBytes m
    → n ≤ idx
    → unset (bitset_set m bs idx 1) bs n ≡ unset m bs n
unfolding unset
unset-same m bs idx zero h l = refl
unset-same m bs idx (suc n) h l =
    let same : bitset_get (bitset_set m bs idx 1) bs n ≡ bitset_get m bs n =
      (get-set m bs idx n h).0 ∙ ground arith in
    rw (same, unset-same m bs idx n h (omega arith)) refl

unset-set :
    (m : Mem) (bs : Bitset) (idx n : ℕ)
    → IsBytes m
    → idx < n
    → bitset_get m bs idx ≡ 0
    → unset (bitset_set m bs idx 1) bs n + 1 ≡ unset m bs n
unfolding unset
unset-set m bs idx zero h l e = absurd (omega arith)
unset-set m bs idx (suc n) h l e = elim (Bool-cases (idx == n)) [
  | inl f ↦
      ground (arith, (get-set m bs idx n h).0, unset-same m bs idx n h (ground (arith, f)), e, f)
  | inr f ↦
      ground (arith, (get-set m bs idx n h).0, unset-set m bs idx n h (ground (arith, f, l)) e, f)
]

-- The frames of the map.
abbrev pub frame_count : Frames → ℕ
frame_count s = s.glb_frames.len / 8 * 8

-- A frame is in use.
abbrev pub in_use : Frames → ℕ → ℕ
in_use s f = bitset_get s.mem s.glb_frames f

-- How many frames are left.
abbrev pub frames_left : Frames → ℕ
frames_left s = unset s.mem s.glb_frames (frame_count s)

-- What `alloc_frame` does where a frame is left.
pub record Framed (s : Frames) (page : Page) (w k : ℕ) : Type 0 where
  pub idx : ℕ
  pub runs :
      alloc_frame s page w k
      ≡ (record s { mem = bitset_set s.mem s.glb_frames idx 1 }, framed page idx w k)
  pub was_free : in_use s idx ≡ 0
  pub within : idx < frame_count s
  pub bits :
      (f : ℕ)
      → bitset_get (bitset_set s.mem s.glb_frames idx 1) s.glb_frames f
        ≡ (if idx == f then 1 else in_use s f)
  pub kept : IsBytes (bitset_set s.mem s.glb_frames idx 1)
  pub left :
      unset (bitset_set s.mem s.glb_frames idx 1) s.glb_frames (frame_count s) + 1 ≡ frames_left s

alloc_by :
    (s : Frames) (page : Page) (w k : ℕ) (z : ℤ)
    → bitset_first_unset s.mem s.glb_frames ≡ z
    → IsBytes s.mem
    → 0 < frames_left s
    → Found s.mem s.glb_frames 0 (frame_count s) (as_index z)
    → Framed s page w k
unfolding alloc_frame alloc_at
alloc_by s page w k (pos idx) e h l found = record {
  idx = idx;
  runs = ap (alloc_at s page w k) e;
  was_free = found.2;
  within = found.1;
  bits = λ f. (get-set s.mem s.glb_frames idx f h).0;
  kept = (get-set s.mem s.glb_frames idx 0 h).1;
  left = unset-set s.mem s.glb_frames idx (frame_count s) h found.1 found.2;
}
alloc_by s page w k (negsuc n) e h l found =
    let (j, less, free) = unset-pos s.mem s.glb_frames (frame_count s) l in
    absurd (omega (arith, found j (omega arith) less, free))

pub alloc_frame-Framed :
    (s : Frames) (page : Page) (w k : ℕ) → IsBytes s.mem → 0 < frames_left s → Framed s page w k
alloc_frame-Framed s page w k h l =
    alloc_by s page w k _ refl h l (first_unset-Found s.mem s.glb_frames)
