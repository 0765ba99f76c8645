-- ===== src/Keyboard.antt =====
-- src/kb.c: the keyboard. `scancode` is what the port gives. The text that is being typed is a list of
-- characters, as Kstring/Laws.antt justifies, and the queue of lines a list of texts. A `char` is its
-- byte.
pub mod Line
use eedox.Base.{
  ℕ, ◌+◌, ◌-◌, ◌%◌, Bool, true, false, ◌&&◌, not, Option, none, some, List, [], ◌∷◌, ◌++◌, ltb,
  ◌==◌, if◌then◌else◌, u32, length, get_elem?, take,
}
use eedox.Terminal.{Terminal, term_write_char, term_backspace}
use eedox.Task.{Kernel, task_awake}

-- `kbchars`
abbrev pub kbchars : List ℕ
kbchars =
    0 ∷ 27 ∷ b'1' ∷ b'2' ∷ b'3' ∷ b'4' ∷ b'5' ∷ b'6' ∷ b'7' ∷ b'8' ∷ b'9' ∷ b'0' ∷ b'-' ∷ b'=' ∷ 8
    ∷ 0 ∷ b'q' ∷ b'w' ∷ b'e' ∷ b'r' ∷ b't' ∷ b'y' ∷ b'u' ∷ b'i' ∷ b'o' ∷ b'p' ∷ b'[' ∷ b']' ∷ 10 ∷ 0
    ∷ b'a' ∷ b's' ∷ b'd' ∷ b'f' ∷ b'g' ∷ b'h' ∷ b'j' ∷ b'k' ∷ b'l' ∷ b';' ∷ 39 ∷ 96 ∷ 0 ∷ 92 ∷ b'z'
    ∷ b'x' ∷ b'c' ∷ b'v' ∷ b'b' ∷ b'n' ∷ b'm' ∷ b',' ∷ b'.' ∷ b'/' ∷ 0 ∷ b'*' ∷ 0 ∷ b' ' ∷ 0 ∷ 0 ∷ 0
    ∷ 0 ∷ 0 ∷ 0 ∷ 0 ∷ 0 ∷ 0 ∷ 0 ∷ 0 ∷ 0 ∷ 0 ∷ 0 ∷ 0 ∷ 0 ∷ b'-' ∷ 0 ∷ 0 ∷ 0 ∷ b'+' ∷ []

abbrev pub char_or_nul : Option ℕ → ℕ
char_or_nul none = 0
char_or_nul (some c) = c

-- The entries behind the last one written are 0.
unfoldable pub kbchar : ℕ → ℕ
kbchar scancode = char_or_nul (get_elem? kbchars scancode)

-- The globals of src/kb.c, those that it changes elsewhere, and the flag of src/task.c.
pub record Input : Type 0 where
  pub key_shift : Bool
  pub key_ctrl : Bool
  pub key_alt : Bool
  pub terminal_buffer : List ℕ
  pub input_list : List (List ℕ)
  pub reader_task : ℕ
  pub keyboard_input_size : ℕ
  pub glb_term : Terminal
  pub multitasking_flag : Bool
  pub kernel : Kernel

abbrev pub key_code_shift : ℕ
key_code_shift = 42

abbrev pub key_code_ctrl : ℕ
key_code_ctrl = 29

abbrev pub key_code_alt : ℕ
key_code_alt = 56

-- A key that is pressed, released, or neither.
abbrev pub after_key : ℕ → ℕ → Bool → Bool
after_key key keycode b = if keycode == key then true else if keycode == key + 128 then false else b

unfoldable pub setkey : ℕ → Input → Input
setkey keycode s = record s {
  key_shift = after_key key_code_shift keycode s.key_shift;
  key_ctrl = after_key key_code_ctrl keycode s.key_ctrl;
  key_alt = after_key key_code_alt keycode s.key_alt;
}

unfoldable pub keyboard_eof : Input → Input
keyboard_eof s =
    let pushed = record s {
      keyboard_input_size = 0;
      input_list = s.input_list ++ (s.terminal_buffer ∷ []);
      terminal_buffer = [];
    } in
    if not (s.reader_task == 0) && s.multitasking_flag
    then record pushed { kernel = task_awake s.kernel s.reader_task; reader_task = 0 }
    else pushed

-- A character that goes to the text.
unfoldable pub typed : ℕ → Input → Input
typed ch s =
    let s' = record s {
      keyboard_input_size = u32 (s.keyboard_input_size + 1);
      glb_term = term_write_char s.glb_term ch;
      terminal_buffer = s.terminal_buffer ++ (ch ∷ []);
    } in
    if ch == b'\n' then keyboard_eof s' else s'

-- The backspace key.
unfoldable pub erased : Input → Input
erased s = if s.keyboard_input_size == 0 then s else record s {
  keyboard_input_size = s.keyboard_input_size - 1;
  terminal_buffer = take (length s.terminal_buffer - 1) s.terminal_buffer;
  glb_term = term_backspace s.glb_term;
}

-- `keyboard_handler` behind `setkey`, for a character that is not NUL.
unfoldable pub key_pressed : ℕ → Input → Input
key_pressed ch s =
    if (ch == b'd') && s.key_ctrl
    then keyboard_eof s
    else if ch == 8
    then erased s
    else if s.key_ctrl
    then s
    else typed (if s.key_shift then (ch + 224) % 256 else ch) s

unfoldable pub keyboard_handler : ℕ → Input → Input
keyboard_handler scancode s0 =
    let s = setkey scancode s0 in
    let ch = kbchar scancode in if ltb scancode 128 && not (ch == 0) then key_pressed ch s else s

unfoldable pub keyboard_init : Input → Input
keyboard_init s = record s { terminal_buffer = []; input_list = [] }
