-- ===== src/Terminal.antt =====
-- src/terminal.c and src/terminal.h: the cells of a terminal and the frame buffer of the display. The
-- ports that take the position of the cursor are `cursor`. Every colour that the code uses is white on
-- black.
pub mod Scroll
pub mod Shown
use eedox.Base.{
  ℕ, zero, suc, ◌+◌, ◌-◌, ◌*◌, ◌/◌, ◌%◌, ◌^◌, ◌≤◌, ◌<◌, min, max, ◌≡◌, ◌≢◌, ◌↔◌, ◌⊎◌, inl, inr,
  refl, sym, ap, ap₂, ◌∙◌, subst, fun_ext, Bool, true, false, ◌&&◌, ◌||◌, not, Option, none, some,
  List, [], ◌∷◌, ◌++◌, map, append-nil, append_assoc, arith, ltb, leb, ◌==◌, if◌then◌else◌, u32,
  sub32, ==_iff, Bool-cases, Option-cases, length, get_elem?, set, take, drop, length-append,
  length-set, get_elem?-set_self, get_elem?-set_ne, length-take, length-drop,
}
use eedox.Base.Int.{ℤ, pos, negsuc, pos_part, neg_part, sub_ℕ, ◌+ℤ◌, ◌-ℤ◌, ◌≤ℤ◌, leb_ℤ, ltb_ℤ}

-- `for (i = from; n rounds; i++)`
unfoldable pub rounds : {S : Type 0} → (ℕ → S → S) → ℕ → ℕ → S → S
rounds f i zero s = s
rounds f i (suc n) s = rounds f (i + 1) n (f i s)

abbrev pub termcols : ℕ
termcols = 80

abbrev pub termrows : ℕ
termrows = 25

-- `terminal_t`, the bytes of the frame buffer, and the position that the display was given. The cell
-- of a row and a column is at `row * termcols + col`.
pub record Terminal : Type 0 where
  pub active : Bool
  pub currow : ℕ
  pub curcol : ℕ
  pub cells : ℕ → ℕ
  pub frame_buffer : ℕ → ℕ
  pub cursor : ℕ

-- White on black.
abbrev pub white_on_black : ℕ
white_on_black = 0 * 16 + 15

unfoldable pub term_raw_putchar : Terminal → ℕ → ℕ → ℕ → Terminal
term_raw_putchar t row col c =
    let index = row * termcols + col in
    record t {
      frame_buffer = λ i.
          if i == index * 2
          then c
          else if i == index * 2 + 1
          then white_on_black
          else t.frame_buffer i;
    }

unfoldable pub term_raw_set_cursor : Terminal → ℕ → ℕ → Terminal
term_raw_set_cursor t row col = record t { cursor = (row * termcols + col) % 2 ^ 16 }

unfoldable pub term_putchar : Terminal → ℕ → ℕ → ℕ → Terminal
term_putchar t row col c = if t.active then term_raw_putchar t row col c else t

unfoldable pub term_set_cursor : Terminal → ℕ → ℕ → Terminal
term_set_cursor t row col = if t.active then term_raw_set_cursor t row col else t

abbrev pub set_cell : Terminal → ℕ → ℕ → ℕ → Terminal
set_cell t row col c = record t { cells = λ i. if i == row * termcols + col then c else t.cells i }

-- One round of the loops of `term_scrollup`.
unfoldable pub copy_cell : ℕ → ℕ → Terminal → Terminal
copy_cell i j t = let c = t.cells ((i + 1) * termcols + j) in term_putchar (set_cell t i j c) i j c

unfoldable pub clear_cell : ℕ → ℕ → Terminal → Terminal
clear_cell i j t = term_putchar (set_cell t i j 0) i j 0

unfoldable pub term_scrollup : Terminal → Terminal
term_scrollup t =
    rounds (clear_cell (termrows - 1)) 0 termcols
      (rounds (λ i. rounds (copy_cell i) 0 termcols) 0 (termrows - 1) t)

-- `term_write_char` up to the test of the row.
unfoldable pub advance : Terminal → ℕ → Terminal
advance t c =
    let put = set_cell (term_putchar t t.currow t.curcol c) t.currow t.curcol c in
    if c == b'\n'
    then record t { curcol = 0; currow = t.currow + 1 }
    else if t.curcol + 1 == termcols
    then record put { curcol = 0; currow = t.currow + 1 }
    else record put { curcol = t.curcol + 1 }

-- The end of `term_write_char`.
unfoldable pub keep_in : Terminal → Terminal
keep_in t =
    if t.currow == termrows
    then (let t1 = if t.active then term_scrollup t else t in record t1 { currow = t1.currow - 1 })
    else t

unfoldable pub term_write_char : Terminal → ℕ → Terminal
term_write_char t c =
    let t1 = keep_in (advance t c) in if c == 0 then t else term_set_cursor t1 t1.currow t1.curcol

unfoldable pub term_curc : Terminal → ℕ
term_curc t = t.cells (t.currow * termcols + t.curcol)

-- The loop of `term_backspace` over the `n` columns up to the one it looks at: the column behind the
-- one at which it ends. It ends below column 0 if all of them are empty.
unfoldable pub skip_empty : (ℕ → ℕ) → ℕ → ℕ → ℕ
skip_empty cells row zero = 0
skip_empty cells row (suc n) =
    let before = skip_empty cells row n in if cells (row * termcols + n) == 0 then before else suc n

unfoldable pub term_backspace : Terminal → Terminal
term_backspace t =
    let above = t.currow - 1 in
    let behind = skip_empty t.cells above termcols in
    let moved =
      if behind == termcols
      then term_putchar (record t { currow = above; curcol = termcols - 1 }) above (termcols - 1) 0
      else record t { currow = above; curcol = behind } in
    let left = t.curcol - 1 in
    let erased = clear_cell t.currow left (record t { curcol = left }) in
    if (t.curcol == 0) && (t.currow == 0)
    then t
    else if t.curcol == 0
    then term_set_cursor moved moved.currow moved.curcol
    else term_set_cursor erased erased.currow erased.curcol

unfoldable pub term_init : Terminal → Terminal
term_init t =
    let t1 = rounds (λ i. rounds (λ j s. set_cell s i j 0) 0 termcols) 0 termrows t in
    record t1 { active = false; curcol = 0; currow = 0 }

unfoldable pub term_fg : Terminal → Terminal
term_fg t =
    let t1 = term_raw_set_cursor (record t { active = true }) t.currow t.curcol in
    rounds (λ i. rounds (λ j s. term_raw_putchar s i j (s.cells (i * termcols + j))) 0 termcols) 0
      termrows t1

unfoldable pub term_bg : Terminal → Terminal
term_bg t = record t { active = false }

unfoldable pub term_clear : Terminal → Terminal
term_clear t =
    let t1 = rounds (λ i. rounds (clear_cell i) 0 termcols) 0 termrows t in
    term_set_cursor (record t1 { curcol = 0; currow = 0 }) 0 0

-- The loop over the characters; the length is that of the list.
unfoldable pub term_print_buffer : Terminal → List ℕ → Terminal
term_print_buffer t [] = t
term_print_buffer t (c ∷ str) = term_print_buffer (term_write_char t c) str

-- Of a text without NUL.
unfoldable pub term_print : Terminal → List ℕ → Terminal
term_print t [] = t
term_print t (c ∷ str) = term_print (term_write_char t c) str

unfoldable pub term_print_endl : Terminal → Terminal
term_print_endl t = term_print t (b'\n' ∷ [])
