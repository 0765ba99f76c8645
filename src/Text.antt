-- ===== src/Text.antt =====
-- src/util.c: the routines on C strings and on numbers (strlen, strcpy, strcmp, tostr_u, tostr_x,
-- dec_to_hex, min, max), over the memory of Memory.antt. Each loop that runs to a terminator has
-- fuel, and is `none` when that runs out.
pub mod Strings
pub mod Decimal
pub mod Hex
use eedox.Base.{
  ℕ, zero, suc, ◌+◌, ◌-◌, ◌/◌, ◌%◌, Bool, true, false, ◌||◌, Option, none, some, ltb, ◌==◌,
  if◌then◌else◌, u32,
}
use eedox.Base.Int.{ℤ, pos, negsuc}
use eedox.Memory.{Mem, store, strrev}

-- `char` is signed: this number orders the bytes as the code compares them.
abbrev pub char_key : ℕ → ℕ
char_key c = (c + 128) % 256

strlen_loop : ℕ → Mem → ℕ → ℕ → Option ℕ
strlen_loop zero m str len = none
strlen_loop (suc fuel) m str len =
    let rest = strlen_loop fuel m (str + 1) (u32 (len + 1)) in if m str == 0 then some len else rest

unfoldable pub strlen : ℕ → Mem → ℕ → Option ℕ
unfolding strlen_loop
strlen fuel m str = strlen_loop fuel m str 0

strcpy_loop : ℕ → Mem → ℕ → ℕ → ℕ → Option Mem
strcpy_loop zero m dest src i = none
strcpy_loop (suc fuel) m dest src i =
    let rest = strcpy_loop fuel (store m (dest + i) (m (src + i))) dest src (i + 1) in
    if m (src + i) == 0 then some m else rest

-- No terminator is written.
unfoldable pub strcpy : ℕ → Mem → ℕ → ℕ → Option Mem
unfolding strcpy_loop
strcpy fuel m dest src = strcpy_loop fuel m dest src 0

strcmp_loop : ℕ → Mem → ℕ → ℕ → ℕ → Option ℤ
strcmp_loop zero m str1 str2 i = none
strcmp_loop (suc fuel) m str1 str2 i =
    let c = m (str1 + i) in
    let d = m (str2 + i) in
    let rest = strcmp_loop fuel m str1 str2 (i + 1) in
    if (c == 0) || (d == 0)
    then (if c == 0 then if d == 0 then some (pos 0) else some (negsuc 0) else some (pos 1))
    else if ltb (char_key d) (char_key c)
    then some (pos 1)
    else if ltb (char_key c) (char_key d)
    then some (negsuc 0)
    else rest

unfoldable pub strcmp : ℕ → Mem → ℕ → ℕ → Option ℤ
unfolding strcmp_loop
strcmp fuel m str1 str2 = strcmp_loop fuel m str1 str2 0

-- The loop of `tostr_u`: the digits of `i`, the lowest first, from index `idx` on.
digits_loop : ℕ → Mem → ℕ → ℕ → ℕ → Option (Mem × ℕ)
digits_loop zero m buffer idx i = none
digits_loop (suc fuel) m buffer idx i =
    let rest = digits_loop fuel (store m (buffer + idx) (48 + i % 10)) buffer (idx + 1) (i / 10) in
    if i == 0 then some (m, idx) else rest

-- The terminator is written before the digits are put the right way round.
abbrev end_and_reverse : ℕ → Option (Mem × ℕ) → Option Mem
end_and_reverse buffer none = none
end_and_reverse buffer (some (m, idx)) = some (strrev (store m (buffer + idx) 0) buffer idx)

unfoldable pub tostr_u : ℕ → Mem → ℕ → ℕ → Option Mem
unfolding digits_loop
tostr_u fuel m buffer i =
    if i == 0
    then end_and_reverse buffer (some (store m buffer 48, 1))
    else end_and_reverse buffer (digits_loop fuel m buffer 0 i)

unfoldable pub dec_to_hex : ℕ → ℕ
dec_to_hex d = if ltb d 10 then 48 + d else 97 + d - 10

-- The loop of `tostr_x`, from index `i`, with `n` rounds left.
hex_loop : Mem → ℕ → ℕ → ℕ → ℕ → Mem
hex_loop m buffer i h zero = m
hex_loop m buffer i h (suc n) =
    hex_loop (store m (buffer + (9 - i)) (dec_to_hex (h % 16))) buffer (i + 1) (h / 16) n

unfoldable pub tostr_x : Mem → ℕ → ℕ → Mem
unfolding hex_loop
tostr_x m buffer h =
    hex_loop (store (store (store m buffer 48) (buffer + 1) 120) (buffer + 10) 0) buffer 0 h 8

unfoldable pub min_u : ℕ → ℕ → ℕ
min_u a b = if ltb b a then b else a

unfoldable pub max_u : ℕ → ℕ → ℕ
max_u a b = if ltb b a then a else b
