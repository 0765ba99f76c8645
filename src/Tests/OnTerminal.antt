-- ===== src/Tests/OnTerminal.antt =====
-- Runs of the terminal of src/terminal.c and of the keyboard of src/kb.c.
use eedox.Base.{ℕ, List, map, ◌++◌, ◌≡◌, ◌%◌, refl, true, [], ◌∷◌, arith, ◌==◌, if◌then◌else◌}
use eedox.Terminal.{Terminal, term_print_buffer}
use eedox.Terminal.Scroll.{Mirrors}
use eedox.Terminal.Shown.{IsShown, print-IsShown}
use eedox.Keyboard.{kbchar}
use eedox.Keyboard.{Input}
use eedox.Keyboard.Line.{AllPlain, no_key, one_key, IsEntered, press, line-IsEntered}
use eedox.Tests.State.{zeros, system}

-- An empty screen in the foreground, with the cursor in the last cell.
abbrev screen : Terminal
screen = record {
  active = true;
  currow = 24;
  curcol = 79;
  cells = zeros;
  frame_buffer = λ i. if i % 2 == 0 then 0 else 15;
  cursor = 1999;
}

screen-Mirrors : Mirrors screen
screen-Mirrors = record { char = λ a i l. ground arith; colour = λ a i l. ground arith }

screen-IsShown : IsShown screen
screen-IsShown = record {
  mirrors = screen-Mirrors;
  grid = record { row = omega arith; col = omega arith };
  cursor = λ a. refl;
}

print-IsShown_example : IsShown (term_print_buffer screen (65 ∷ 10 ∷ 66 ∷ []))
print-IsShown_example = print-IsShown screen (65 ∷ 10 ∷ 66 ∷ []) screen-IsShown

enter_key : kbchar 28 ≡ b'\n'
unfolding kbchar
enter_key = refl

space_key : kbchar 57 ≡ b' '
unfolding kbchar
space_key = refl

plus_key : kbchar 78 ≡ b'+'
unfolding kbchar
plus_key = refl

minus_key : kbchar 74 ≡ b'-'
unfolding kbchar
minus_key = refl

-- The keys of `ls`, and one task waits for the line.
abbrev ls_keys : List ℕ
ls_keys = 38 ∷ 31 ∷ []

ls-AllPlain : AllPlain ls_keys
unfolding kbchar
ls-AllPlain =
    one_key
      (record {
        pressed = omega arith;
        char = omega arith;
        no_erase = omega arith;
        no_end = omega arith;
      })
      (one_key
        (record {
          pressed = omega arith;
          char = omega arith;
          no_erase = omega arith;
          no_end = omega arith;
        })
        no_key)

abbrev waiting : Input
waiting = record system.input { reader_task = 20 }

line-IsEntered_example :
    IsEntered waiting
      ([] ++ (map kbchar ls_keys ++ (b'\n' ∷ [])))
      (press (ls_keys ++ (28 ∷ [])) waiting)
line-IsEntered_example = line-IsEntered waiting ls_keys refl refl ls-AllPlain
