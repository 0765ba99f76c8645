-- ===== src/Tests/OnPaging.antt =====
-- Page tables at concrete values.
use eedox.Base.{◌≡◌, inl, inr, refl, arith, ◌==◌, if◌then◌else◌, Bool-cases}
use eedox.Bitset.{get_bit, bitset_get}
use eedox.Paging.{Frames, Space, page_table_clone, no_page}
use eedox.Paging.Frame.{frames_left, unset}
use eedox.Paging.Pair.{IsReady, used}
use eedox.Paging.Clone.{IsCopy, page_table_clone-IsCopy}

-- 16 frames, of which 0 and 1 are in use.
abbrev frames : Frames
frames = record {
  mem = λ x. if x == 0 then 0xc0 else 0;
  glb_frames = record { start = 0; len = 16 };
  contents = λ f. λ x. f;
}

-- The table 0x5000 has one entry with a frame; the next table is 0x6000.
abbrev space : Space
space = record {
  frames = frames;
  pages = λ t. λ k. if k == 2 then record no_page { present = 1; frame = 1 } else no_page;
  directories = λ d. record { tables = λ k. 0; tables_physical = λ k. 0; physical = 0 };
  current_page_directory = 0;
  kernel_page_directory = 0;
  fresh = λ n. 0x6000;
}

space-IsReady : IsReady space 0x5000 0x6000
unfolding bitset_get get_bit
space-IsReady = record {
  bytes = λ x. ground arith;
  first = refl;
  count = omega arith;
  apart = refl;
  marked = λ k l. elim (Bool-cases (k == 2)) [
    | inl e ↦ rw e refl
    | inr e ↦ absurd (ground (arith, l, e))
  ];
}

one_used : used (space.pages 0x5000) 0 1024 ≡ 1
unfolding used
one_used = refl

some_left : frames_left space.frames ≡ 14
unfolding unset bitset_get get_bit
some_left = refl

page_table_clone-IsCopy_example :
    let (new, s') = page_table_clone space 0x5000 in IsCopy space 0x5000 new s'
page_table_clone-IsCopy_example =
    page_table_clone-IsCopy space 0x5000 space-IsReady (omega (arith, one_used, some_left))
