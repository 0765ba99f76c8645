-- ===== src/Paging.antt =====
-- src/paging.c and src/paging.h: page tables and the frames behind them.
pub mod Frame
pub mod Pair
pub mod Loop
pub mod Clone
use eedox.Base.{ltb, ℕ, zero, suc, ◌+◌, ◌-◌, ◌%◌, ◌^◌, ◌&&◌, ◌==◌, if◌then◌else◌}
use eedox.Base.Int.{ℤ, pos, negsuc}
use eedox.Memory.{Mem}
use eedox.Bitset.{Bitset, bitset_set, bitset_first_unset}

-- The fields of an entry that the code uses; one of one bit is 0 or 1.
pub record Page : Type 0 where
  pub present : ℕ
  pub rw : ℕ
  pub user : ℕ
  pub accessed : ℕ
  pub dirty : ℕ
  pub frame : ℕ

pub record Directory : Type 0 where
  pub tables : ℕ → ℕ
  pub tables_physical : ℕ → ℕ
  pub physical : ℕ

-- The map of the frames, `glb_frames` over its bytes, and what stands in each frame.
pub record Frames : Type 0 where
  pub mem : Mem
  pub glb_frames : Bitset
  pub contents : ℕ → Mem

-- The frames, the tables and directories by their addresses, and the addresses that kmalloc_a
-- returns, in turn.
pub record Space : Type 0 where
  pub frames : Frames
  pub pages : ℕ → ℕ → Page
  pub directories : ℕ → Directory
  pub current_page_directory : ℕ
  pub kernel_page_directory : ℕ
  pub fresh : ℕ → ℕ

abbrev pub no_page : Page
no_page = record { present = 0; rw = 0; user = 0; accessed = 0; dirty = 0; frame = 0 }

-- The entries of a table with one of them written.
unfoldable pub put_page : (ℕ → ℕ → Page) → ℕ → ℕ → Page → ℕ → ℕ → Page
put_page pages table i page t k = if t == table && k == i then page else pages t k

-- `*p = v` for an array of words.
abbrev pub put_word : (ℕ → ℕ) → ℕ → ℕ → ℕ → ℕ
put_word a i v k = if k == i then v else a k

-- The entry that `alloc_frame` writes.
unfoldable pub framed : Page → ℕ → ℕ → ℕ → Page
framed page idx is_writable is_kernel = record page {
  frame = idx % 2 ^ 20;
  present = 1;
  rw = if is_writable == 0 then 0 else 1;
  user = if is_kernel == 0 then 1 else 0;
}

-- `alloc_frame` with what `bitset_first_unset` returned. With no frame left the bit -1 is set, and the
-- entry is not written.
unfoldable pub alloc_at : Frames → Page → ℕ → ℕ → ℤ → Frames × Page
alloc_at s page is_writable is_kernel (pos idx) =
    (record s { mem = bitset_set s.mem s.glb_frames idx 1 }, framed page idx is_writable is_kernel)
alloc_at s page is_writable is_kernel (negsuc _) =
    (record s { mem = bitset_set s.mem s.glb_frames (2 ^ 32 - 1) 1 }, page)

unfoldable pub alloc_frame : Frames → Page → ℕ → ℕ → Frames × Page
alloc_frame s page is_writable is_kernel =
    alloc_at s page is_writable is_kernel (bitset_first_unset s.mem s.glb_frames)

-- The word that `bitset_set` gets of `frame`, a signed field of 20 bits.
abbrev frame_word : ℕ → ℕ
frame_word frame = if ltb frame (2 ^ 19) then frame else frame + (2 ^ 32 - 2 ^ 20)

unfoldable pub free_frame : Frames → Page → Frames × Page
free_frame s page = if page.frame == 0 then (s, page) else (
  record s { mem = bitset_set s.mem s.glb_frames (frame_word page.frame) 0 },
  record page { frame = 0; present = 0 },
)

-- `kmalloc_a` followed by the `memset` to 0 of the tables.
unfoldable pub new_table : Space → ℕ × Space
new_table s =
    let table = s.fresh 0 in
    (
      table,
      record s {
        pages = λ t k. if t == table then no_page else s.pages t k;
        fresh = λ k. s.fresh (k + 1);
      },
    )

-- `paging_physcpy` from one frame to another.
unfoldable pub copy_frame : Frames → ℕ → ℕ → Frames
copy_frame s src dest = record s {
  contents = λ f. if f == dest then s.contents src else s.contents f;
}

-- One entry of `page_table_clone`, where it has a frame.
unfoldable pub clone_page : Space → ℕ → ℕ → ℕ → Space
clone_page s table new i =
    let old = s.pages table i in
    let (frames, page) = alloc_frame s.frames (s.pages new i) 0 0 in
    let page : Page = record page {
      rw = old.rw;
      accessed = old.accessed;
      present = old.present;
      user = old.user;
      dirty = old.dirty;
    } in
    record s {
      frames = copy_frame frames old.frame page.frame;
      pages = put_page s.pages new i page;
    }

-- The loop of `page_table_clone`, from entry `i`, with `n` rounds left.
unfoldable pub clone_pages : Space → ℕ → ℕ → ℕ → ℕ → Space
clone_pages s table new i zero = s
clone_pages s table new i (suc n) =
    clone_pages (if (s.pages table i).frame == 0 then s else clone_page s table new i) table new
      (i + 1) n

unfoldable pub page_table_clone : Space → ℕ → ℕ × Space
page_table_clone s table = let (new, s) = new_table s in (new, clone_pages s table new 0 1024)
