-- ===== src/Keyboard/Line.antt =====
-- A line that is typed on the keyboard of src/kb.c.
use eedox.Base.{
  ℕ, ◌+◌, ◌<◌, ◌≡◌, ◌≢◌, inl, inr, refl, sym, ap, ap₂, ◌∙◌, subst, Bool, true, false, ◌&&◌, not,
  List, [], ◌∷◌, ◌++◌, map, append_assoc, arith, ltb, ◌==◌, u32, Bool-cases,
}
use eedox.Task.{task_awake}
use eedox.Terminal.{term_write_char}
use eedox.Keyboard.{
  kbchar, Input, key_code_shift, key_code_ctrl, after_key, setkey, keyboard_eof, typed, key_pressed,
  keyboard_handler,
}

-- Keys, one after the other.
unfoldable pub press : List ℕ → Input → Input
press [] s = s
press (c ∷ cs) s = press cs (keyboard_handler c s)

-- A key with a character that is neither the backspace nor the line feed.
pub record IsPlain (c : ℕ) : Type 0 where
  pub pressed : c < 128
  pub char : kbchar c ≢ 0
  pub no_erase : kbchar c ≢ 8
  pub no_end : kbchar c ≢ b'\n'

pub data AllPlain : List ℕ → Type 0 where
  no_key : AllPlain []
  one_key : {c : ℕ} {cs : List ℕ} → IsPlain c → AllPlain cs → AllPlain (c ∷ cs)

-- The state with one more character in the text.
abbrev with_char : ℕ → Input → Input
with_char ch s = record s {
  keyboard_input_size = u32 (s.keyboard_input_size + 1);
  glb_term = term_write_char s.glb_term ch;
  terminal_buffer = s.terminal_buffer ++ (ch ∷ []);
}

typed_plain : (ch : ℕ) (s : Input) → ch ≢ b'\n' → typed ch s ≡ with_char ch s
unfolding typed
typed_plain ch s n = let z : (ch == b'\n') ≡ false = ground arith in rw z refl

typed_end : (s : Input) → typed b'\n' s ≡ keyboard_eof (with_char b'\n' s)
unfolding typed
typed_end s = refl

pressed_plain :
    (ch : ℕ) (s : Input)
    → s.key_ctrl ≡ false
    → s.key_shift ≡ false
    → ch ≢ 8
    → key_pressed ch s ≡ typed ch s
unfolding key_pressed
pressed_plain ch s c h n =
    let z : (ch == 8) ≡ false = ground arith in
    elim (Bool-cases (ch == b'd')) [ inl d ↦ rw (d, c, z, h) refl | inr d ↦ rw (d, c, z, h) refl ]

-- The flags of the keys that are held stay.
kept : (key c : ℕ) (b : Bool) → c ≢ key → c < 128 → after_key key c b ≡ b
kept key c b n l =
    let e : (c == key) ≡ false = ground arith in
    let e' : (c == key + 128) ≡ false = ground arith in rw (e, e') refl

not_held : (c key : ℕ) → kbchar key ≡ 0 → kbchar c ≢ 0 → c ≢ key
not_held c key z n e = n (ap kbchar e ∙ z)

handled :
    (c : ℕ) (s : Input)
    → c < 128
    → kbchar c ≢ 0
    → keyboard_handler c s ≡ key_pressed (kbchar c) (setkey c s)
unfolding keyboard_handler
handled c s l n = let e : (ltb c 128 && not (kbchar c == 0)) ≡ true = ground arith in rw e refl

-- A text is being typed.
record IsTyping (s0 : Input) (text : List ℕ) (s : Input) : Type 0 where
  ctrl : s.key_ctrl ≡ false
  shift : s.key_shift ≡ false
  buffer : s.terminal_buffer ≡ text
  lines : s.input_list ≡ s0.input_list
  reader : s.reader_task ≡ s0.reader_task
  multitasking : s.multitasking_flag ≡ s0.multitasking_flag
  kernel : s.kernel ≡ s0.kernel

ctrl_kept : (c : ℕ) (s : Input) → c < 128 → kbchar c ≢ 0 → (setkey c s).key_ctrl ≡ s.key_ctrl
unfolding setkey kbchar
ctrl_kept c s l n = kept key_code_ctrl c s.key_ctrl (not_held c key_code_ctrl refl n) l

shift_kept : (c : ℕ) (s : Input) → c < 128 → kbchar c ≢ 0 → (setkey c s).key_shift ≡ s.key_shift
unfolding setkey kbchar
shift_kept c s l n = kept key_code_shift c s.key_shift (not_held c key_code_shift refl n) l

run_plain :
    (c : ℕ) (s : Input)
    → c < 128
    → kbchar c ≢ 0
    → kbchar c ≢ 8
    → s.key_ctrl ≡ false
    → s.key_shift ≡ false
    → keyboard_handler c s ≡ typed (kbchar c) (setkey c s)
run_plain c s l n m ctrl shift =
    handled c s l n
    ∙ pressed_plain (kbchar c) (setkey c s) (ctrl_kept c s l n ∙ ctrl) (shift_kept c s l n ∙ shift)
        m

press-IsTyping :
    {s0 : Input} {text : List ℕ} (c : ℕ) (s : Input)
    → IsPlain c
    → IsTyping s0 text s
    → IsTyping s0 (text ++ (kbchar c ∷ [])) (keyboard_handler c s)
unfolding setkey
press-IsTyping {s0} {text} c s is t =
    subst (IsTyping s0 (text ++ (kbchar c ∷ [])))
      (sym (
        run_plain c s is.pressed is.char is.no_erase t.ctrl t.shift
        ∙ typed_plain (kbchar c) (setkey c s) is.no_end))
      (go)
  where
    go : IsTyping s0 (text ++ (kbchar c ∷ [])) (with_char (kbchar c) (setkey c s))
    go = record {
      ctrl = ctrl_kept c s is.pressed is.char ∙ t.ctrl;
      shift = shift_kept c s is.pressed is.char ∙ t.shift;
      buffer = ap (λ l. l ++ (kbchar c ∷ [])) t.buffer;
      lines = t.lines;
      reader = t.reader;
      multitasking = t.multitasking;
      kernel = t.kernel;
    }

-- What the end of a line leaves.
pub record IsEntered (s0 : Input) (line : List ℕ) (s : Input) : Type 0 where
  pub lines : s.input_list ≡ s0.input_list ++ (line ∷ [])
  pub buffer : s.terminal_buffer ≡ []
  pub size : s.keyboard_input_size ≡ 0
  pub reader :
      s0.reader_task ≢ 0
      → s0.multitasking_flag ≡ true
      → (s.kernel ≡ task_awake s0.kernel s0.reader_task) × (s.reader_task ≡ 0)

eof-IsEntered : (s : Input) → IsEntered s s.terminal_buffer (keyboard_eof s)
unfolding keyboard_eof
eof-IsEntered s = elim (Bool-cases (not (s.reader_task == 0) && s.multitasking_flag)) [
  | inl e ↦ rw e (record { lines = refl; buffer = refl; size = refl; reader = λ n m. (refl, refl) })
  | inr e ↦ rw e (record {
    lines = refl;
    buffer = refl;
    size = refl;
    reader = λ n m. absurd (ground (arith, n, m, e));
  })
]

end-IsEntered :
    {s0 : Input} {text : List ℕ} (s : Input)
    → IsTyping s0 text s
    → IsEntered s0 (text ++ (b'\n' ∷ [])) (keyboard_handler 28 s)
unfolding setkey kbchar
end-IsEntered {s0} {text} s t =
    let last = with_char b'\n' (setkey 28 s) in
    let r = eof-IsEntered last in
    let run : keyboard_handler 28 s ≡ keyboard_eof last =
      run_plain 28 s (omega arith) (omega arith) (omega arith) t.ctrl t.shift
      ∙ typed_end (setkey 28 s) in
    subst (IsEntered s0 (text ++ (b'\n' ∷ []))) (sym run) (record {
      lines = r.lines ∙ ap₂ (λ l x. l ++ ((x ++ (b'\n' ∷ [])) ∷ [])) t.lines t.buffer;
      buffer = r.buffer;
      size = r.size;
      reader = λ n m.
          let (k, z) = r.reader (λ e. n (sym t.reader ∙ e)) (t.multitasking ∙ m) in
          (k ∙ ap₂ task_awake t.kernel t.reader, z);
    })

rest-IsEntered :
    {s0 : Input} {cs : List ℕ}
    → AllPlain cs
    → (text : List ℕ) (s : Input) → IsTyping s0 text s
    → IsEntered s0 (text ++ (map kbchar cs ++ (b'\n' ∷ []))) (press (cs ++ (28 ∷ [])) s)
unfolding press
rest-IsEntered no_key text s t = end-IsEntered s t
rest-IsEntered {s0} {cs = c ∷ cs} (one_key is h) text s t =
    subst (λ l. IsEntered s0 l (press (cs ++ (28 ∷ [])) (keyboard_handler c s)))
      (append_assoc text (kbchar c ∷ []) (map kbchar cs ++ (b'\n' ∷ [])))
      (rest-IsEntered h (text ++ (kbchar c ∷ [])) (keyboard_handler c s) (press-IsTyping c s is t))

-- Plain keys and then Enter, with neither Ctrl nor Shift held: the queue of lines gets one more, which
-- is the text typed before, the characters of the keys, and a line feed; the text is then empty, and
-- a task that waits for a line is put back on the run queue, if tasks run at all.
pub line-IsEntered :
    (s : Input) (cs : List ℕ)
    → s.key_ctrl ≡ false
    → s.key_shift ≡ false
    → AllPlain cs
    → IsEntered s (s.terminal_buffer ++ (map kbchar cs ++ (b'\n' ∷ []))) (press (cs ++ (28 ∷ [])) s)
line-IsEntered s cs ctrl shift h = rest-IsEntered h s.terminal_buffer s (record {
  ctrl = ctrl;
  shift = shift;
  buffer = refl;
  lines = refl;
  reader = refl;
  multitasking = refl;
  kernel = refl;
})
