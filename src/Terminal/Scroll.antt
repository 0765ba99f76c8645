-- ===== src/Terminal/Scroll.antt =====
-- The loops of src/terminal.c, and what `term_scrollup` does to the cells and to the display.
use eedox.Base.{
  ℕ, zero, suc, ◌+◌, ◌-◌, ◌*◌, ◌≤◌, ◌<◌, ◌≡◌, inl, inr, refl, ap, ◌∙◌, subst, true, arith, ltb,
  ◌==◌, if◌then◌else◌, Bool-cases,
}
use eedox.Terminal.{
  rounds, termcols, termrows, Terminal, white_on_black, term_raw_putchar, term_putchar, set_cell,
  copy_cell, clear_cell, term_scrollup,
}

-- What holds before each round holds behind them.
rounds_ind :
    {S : Type 0} (f : ℕ → S → S) (P : ℕ → S → Type 0) (from n : ℕ)
    → ((i : ℕ) (s : S) → from ≤ i → i < from + n → P i s → P (i + 1) (f i s))
    → (s : S) → P from s
    → P (from + n) (rounds f from n s)
unfolding rounds
rounds_ind f P from zero step s h = subst (λ i. P i s) (omega arith) h
rounds_ind f P from (suc n) step s h =
    subst (λ i. P i (rounds f (from + 1) n (f from s))) (omega arith)
      (rounds_ind f P (from + 1) n (λ i s' a b. step i s' (omega arith) (omega arith)) (f from s)
        (step from s (omega arith) (omega arith) h))

-- The display has the characters of the cells.
pub record Mirrors (t : Terminal) : Type 0 where
  pub char : t.active ≡ true → (i : ℕ) → i < 2000 → t.frame_buffer (i * 2) ≡ t.cells i
  pub colour : t.active ≡ true → (i : ℕ) → i < 2000 → t.frame_buffer (i * 2 + 1) ≡ white_on_black

-- The cursor is on the grid.
pub record IsOnGrid (t : Terminal) : Type 0 where
  pub row : t.currow < termrows
  pub col : t.curcol < termcols

put-Mirrors :
    (t : Terminal) (row col c : ℕ)
    → Mirrors t
    → Mirrors (term_putchar (set_cell t row col c) row col c)
unfolding term_putchar term_raw_putchar
put-Mirrors t row col c m = elim (Bool-cases t.active) [
  | inr e ↦ rw e (record { char = λ a i l. absurd cc; colour = λ a i l. absurd cc })
  | inl e ↦ rw e (record {
    char = λ a i l. ground (arith, m.char e i l);
    colour = λ a i l. ground (arith, m.colour e i l);
  })
]

-- A terminal came from an old one: the cells are `f`, and the rest is as it was.
pub record Became (old : Terminal) (f : ℕ → ℕ) (t : Terminal) : Type 0 where
  pub mirrors : Mirrors t
  pub active : t.active ≡ old.active
  pub row : t.currow ≡ old.currow
  pub col : t.curcol ≡ old.curcol
  pub cells : (i : ℕ) → t.cells i ≡ f i

-- `term_putchar` changes the frame buffer only.
pub putchar_same :
    (t : Terminal) (row col c : ℕ)
    → let t' = term_putchar t row col c in
      (t'.active ≡ t.active)
      × (t'.currow ≡ t.currow)
      × (t'.curcol ≡ t.curcol)
      × (t'.cells ≡ t.cells)
unfolding term_putchar term_raw_putchar
putchar_same t row col c = elim (Bool-cases t.active) [
  | inl a ↦ rw a (refl, refl, refl, refl)
  | inr a ↦ rw a (refl, refl, refl, refl)
]

put-Became :
    {old t : Terminal} {f : ℕ → ℕ} (g : ℕ → ℕ) (row col c : ℕ)
    → Became old f t
    → ((i : ℕ) → (if i == row * termcols + col then c else f i) ≡ g i)
    → Became old g (term_putchar (set_cell t row col c) row col c)
put-Became {old} {t} {f} g row col c b e =
    let (active, currow, curcol, cells) = putchar_same (set_cell t row col c) row col c in
    record {
      mirrors = put-Mirrors t row col c b.mirrors;
      active = active ∙ b.active;
      row = currow ∙ b.row;
      col = curcol ∙ b.col;
      cells = λ i.
          ap (λ q. q i) cells
          ∙ ap (λ x. if i == row * termcols + col then c else x) (b.cells i)
          ∙ e i;
    }

-- The cells when the first `n` of them have been moved up.
abbrev moved_up : Terminal → ℕ → ℕ → ℕ
moved_up old n i = if ltb i n then old.cells (i + 80) else old.cells i

-- The cells when the last row has been cleared up to `n`.
abbrev scrolled : Terminal → ℕ → ℕ → ℕ
scrolled old n i = if ltb i 1920 then old.cells (i + 80) else if ltb i n then 0 else old.cells i

copy-Became :
    (old : Terminal) (i j : ℕ) (t : Terminal)
    → Became old (moved_up old (i * 80 + j)) t
    → Became old (moved_up old (i * 80 + (j + 1))) (copy_cell i j t)
unfolding copy_cell
copy-Became old i j t b =
    put-Became (moved_up old (i * 80 + (j + 1))) i j (t.cells ((i + 1) * termcols + j)) b
      (λ x. ground (arith, b.cells ((i + 1) * termcols + j)))

row-Became :
    (old : Terminal) (i : ℕ) (t : Terminal)
    → Became old (moved_up old (i * 80)) t
    → Became old (moved_up old ((i + 1) * 80)) (rounds (copy_cell i) 0 termcols t)
row-Became old i t b =
    subst (λ n. Became old (moved_up old n) (rounds (copy_cell i) 0 termcols t)) (omega arith)
      (rounds_ind (copy_cell i) (λ j. Became old (moved_up old (i * 80 + j))) 0 80
        (λ j s l h. copy-Became old i j s) t
        (subst (λ n. Became old (moved_up old n) t) (omega arith) b))

rows-Became :
    (old : Terminal)
    → Mirrors old
    → Became old
        (moved_up old 1920)
        (rounds (λ i. rounds (copy_cell i) 0 termcols) 0 (termrows - 1) old)
rows-Became old m =
    rounds_ind (λ i. rounds (copy_cell i) 0 termcols) (λ i. Became old (moved_up old (i * 80))) 0 24
      (λ i s l h. row-Became old i s) old
      (record { mirrors = m; active = refl; row = refl; col = refl; cells = λ i. ground arith })

clear-Became :
    (old : Terminal) (j : ℕ) (t : Terminal)
    → Became old (scrolled old (1920 + j)) t
    → Became old (scrolled old (1920 + (j + 1))) (clear_cell (termrows - 1) j t)
unfolding clear_cell
clear-Became old j t b =
    put-Became (scrolled old (1920 + (j + 1))) (termrows - 1) j 0 b (λ x. ground arith)

none_cleared : (old : Terminal) (i : ℕ) → moved_up old 1920 i ≡ scrolled old (1920 + 0) i
none_cleared old i = ground arith

-- `term_scrollup` moves every row up by one, clears the last one, and shows it.
pub scrollup-Became :
    (old : Terminal) → Mirrors old → Became old (scrolled old 2000) (term_scrollup old)
unfolding term_scrollup
scrollup-Became old m =
    let r = rows-Became old m in
    let t = rounds (λ i. rounds (copy_cell i) 0 termcols) 0 (termrows - 1) old in
    rounds_ind (clear_cell (termrows - 1)) (λ j. Became old (scrolled old (1920 + j))) 0 80
      (λ j s l h. clear-Became old j s) t
      (record {
        mirrors = r.mirrors;
        active = r.active;
        row = r.row;
        col = r.col;
        cells = λ i. r.cells i ∙ none_cleared old i;
      })
