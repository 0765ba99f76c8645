-- ===== src/Tests/OnShell.antt =====
-- The parser of a command line at a concrete line.
use eedox.Base.{ℕ, ◌≡◌, refl, some, List, [], ◌∷◌, arith, leb, ◌==◌, if◌then◌else◌}
use eedox.Memory.{Mem}
use eedox.Shell.{parse_input}
use eedox.Shell.Words.{
  is_separator, IsText, Text, Part, Tokens, words, words_from, ended, parse_input-Tokens,
}

-- `a  bc` and a line feed.
abbrev line : List ℕ
line = b'a' ∷ b' ' ∷ b' ' ∷ b'b' ∷ b'c' ∷ b'\n' ∷ []

abbrev buffer : Mem
buffer i =
    if i == 0
    then b'a'
    else if leb i 2
    then b' '
    else if i == 3
    then b'b'
    else if i == 4
    then b'c'
    else if i == 5
    then b'\n'
    else 0

buffer-Text : Text buffer 0 line
unfolding Text Part
buffer-Text = ((refl, (refl, (refl, (refl, (refl, (refl, _)))))), refl)

line-IsText : IsText line
unfolding IsText
line-IsText =
    (omega arith, (omega arith, (omega arith, (omega arith, (omega arith, (omega arith, _))))))

words_run : words line ≡ (b'a' ∷ []) ∷ (b'b' ∷ b'c' ∷ []) ∷ []
unfolding words words_from ended is_separator
words_run = refl

parse_input-Tokens_example :
    (tokens : List ℕ) × (line' : Mem) × (parse_input 9 buffer ≡ some (tokens, line'))
    × Tokens line' tokens (words line)
parse_input-Tokens_example = parse_input-Tokens line 9 buffer line-IsText buffer-Text (omega arith)
