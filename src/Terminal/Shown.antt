-- ===== src/Terminal/Shown.antt =====
-- What the display shows of a terminal of src/terminal.c, and where its cursor is.
use eedox.Base.{
  ℕ, ◌+◌, ◌-◌, ◌*◌, ◌%◌, ◌^◌, ◌≤◌, ◌<◌, ◌≡◌, inl, inr, refl, Bool, true, false, List, [], ◌∷◌,
  arith, ◌==◌, if◌then◌else◌, ==_iff, Bool-cases,
}
use eedox.Terminal.{
  termcols, termrows, Terminal, term_raw_putchar, term_raw_set_cursor, term_putchar,
  term_set_cursor, set_cell, term_scrollup, advance, keep_in, term_write_char, term_print_buffer,
}
use eedox.Terminal.Scroll.{Mirrors, IsOnGrid, putchar_same, scrollup-Became}

-- What the display shows of a terminal in the foreground: its cells, and the cursor at its place.
pub record IsShown (t : Terminal) : Type 0 where
  pub mirrors : Mirrors t
  pub grid : IsOnGrid t
  pub cursor : t.active ≡ true → t.cursor ≡ t.currow * termcols + t.curcol

-- The terminal in another place.
moved-Mirrors :
    (t : Terminal) (row col cursor : ℕ)
    → Mirrors t
    → Mirrors (record t { currow = row; curcol = col; cursor = cursor })
moved-Mirrors t row col cursor m = record { char = m.char; colour = m.colour }

shown_put-Mirrors :
    (t : Terminal) (row col c : ℕ)
    → Mirrors t
    → Mirrors (set_cell (term_putchar t row col c) row col c)
unfolding term_putchar term_raw_putchar
shown_put-Mirrors t row col c m = elim (Bool-cases t.active) [
  | inr e ↦ rw e (record { char = λ a i l. absurd cc; colour = λ a i l. absurd cc })
  | inl e ↦ rw e (record {
    char = λ a i l. ground (arith, m.char e i l);
    colour = λ a i l. ground (arith, m.colour e i l);
  })
]

advance-Mirrors : (t : Terminal) (c : ℕ) → Mirrors t → Mirrors (advance t c)
unfolding advance
advance-Mirrors t c m =
    let put = set_cell (term_putchar t t.currow t.curcol c) t.currow t.curcol c in
    let m' = shown_put-Mirrors t t.currow t.curcol c m in
    elim (Bool-cases (c == b'\n')) [
      | inl e ↦ rw e (moved-Mirrors t (t.currow + 1) 0 t.cursor m)
      | inr e ↦ elim (Bool-cases (t.curcol + 1 == termcols)) [
        | inl d ↦ rw (e, d) (moved-Mirrors put (t.currow + 1) 0 put.cursor m')
        | inr d ↦ rw (e, d) (moved-Mirrors put put.currow (t.curcol + 1) put.cursor m')
      ]
    ]

advance_place :
    (t : Terminal) (c : ℕ)
    → IsOnGrid t
    → ((advance t c).currow ≤ termrows) × ((advance t c).curcol < termcols)
unfolding advance
advance_place t c g =
    let (a, r, l, f) = putchar_same t t.currow t.curcol c in
    elim (Bool-cases (c == b'\n')) [
      | inl e ↦ rw e (omega (arith, g.row), omega (arith, g.col))
      | inr e ↦ elim (Bool-cases (t.curcol + 1 == termcols)) [
        | inl d ↦ rw (e, d) (omega (arith, g.row), omega arith)
        | inr d ↦ rw (e, d) (omega (arith, g.row, r), ground (arith, g.col))
      ]
    ]

-- What holds of both branches, each under its test.
if_ind :
    {A : Type 0} (P : A → Type 0) (b : Bool) {x y : A}
    → (b ≡ true → P x)
    → (b ≡ false → P y)
    → P (if b then x else y)
if_ind P true f g = f refl
if_ind P false f g = g refl

-- The terminal with its cursor a row up.
up-Mirrors :
    (t s : Terminal)
    → Mirrors s
    → t.currow ≡ termrows
    → s.currow ≡ t.currow
    → s.curcol < termcols
    → Mirrors (record s { currow = s.currow - 1 }) × IsOnGrid (record s { currow = s.currow - 1 })
up-Mirrors t s m r e c = (
  moved-Mirrors s (s.currow - 1) s.curcol s.cursor m,
  record { row = omega (arith, r, e); col = c },
)

keep_in-Mirrors :
    (t : Terminal)
    → Mirrors t
    → t.currow ≤ termrows
    → t.curcol < termcols
    → Mirrors (keep_in t) × IsOnGrid (keep_in t)
unfolding keep_in
keep_in-Mirrors t m r c =
    if_ind (λ s. Mirrors s × IsOnGrid s) (t.currow == termrows)
      (λ e.
        let full : t.currow ≡ termrows = (==_iff t.currow termrows).0 e in
        if_ind
          (λ s.
            Mirrors (record s { currow = s.currow - 1 })
            × IsOnGrid (record s { currow = s.currow - 1 }))
          t.active
          (λ a.
            let b = scrollup-Became t m in
            up-Mirrors t (term_scrollup t) b.mirrors full b.row (omega (arith, b.col)))
          (λ a. up-Mirrors t t m full refl c))
      (λ e. (m, record { row = ground arith; col = c }))

set_cursor-IsShown :
    (t : Terminal) → Mirrors t → IsOnGrid t → IsShown (term_set_cursor t t.currow t.curcol)
unfolding term_set_cursor term_raw_set_cursor
set_cursor-IsShown t m g =
    if_ind IsShown t.active
      (λ a. record {
        mirrors = moved-Mirrors t t.currow t.curcol ((t.currow * termcols + t.curcol) % 2 ^ 16) m;
        grid = record { row = g.row; col = g.col };
        cursor = λ _. omega (arith, g.row, g.col);
      })
      (λ a. record { mirrors = m; grid = g; cursor = λ b. absurd cc })

-- `term_write_char` keeps what is shown.
write-IsShown : (t : Terminal) (c : ℕ) → IsShown t → IsShown (term_write_char t c)
unfolding term_write_char
write-IsShown t c is =
    let (r, l) = advance_place t c is.grid in
    let (m, g) = keep_in-Mirrors (advance t c) (advance-Mirrors t c is.mirrors) r l in
    if_ind IsShown (c == 0) (λ e. is) (λ e. set_cursor-IsShown (keep_in (advance t c)) m g)

-- `term_print_buffer` of any bytes keeps the cursor on the grid, and in the foreground the display
-- shows the cells and the cursor, if it did before.
pub print-IsShown : (t : Terminal) (str : List ℕ) → IsShown t → IsShown (term_print_buffer t str)
unfolding term_print_buffer
print-IsShown t [] is = is
print-IsShown t (c ∷ str) is = print-IsShown (term_write_char t c) str (write-IsShown t c is)
