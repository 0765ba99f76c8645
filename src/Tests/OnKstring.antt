-- ===== src/Tests/OnKstring.antt =====
-- Runs of the texts of src/kstring.c.
use eedox.Base.{◌+◌, ◌-◌, ◌≡◌, min, some, arith, ltb, if◌then◌else◌, refl}
use eedox.Memory.{Mem}
use eedox.Kstring.{Kstring, kstring_append, kstring_insert}
use eedox.Kstring.Laws.{IsKstring, append-IsKstring, insert-IsKstring}

abbrev junk : Mem
junk i = 170

-- `abcd`, and room for no more.
abbrev letters : Mem
letters i = if ltb i 4 then 97 + i else 0

abbrev abcd : Kstring
abcd = record { buffer = letters; cap = 4; size = 4 }

abcd-IsKstring : IsKstring abcd 4 letters
abcd-IsKstring = record {
  size = refl;
  byte = λ i l. refl;
  char = λ i l. ground arith;
  terminator = refl;
  room = omega arith;
  some_room = omega arith;
}

abbrev digits : Mem
digits i = 48 + i

insert-IsKstring_example :
    (k' : Kstring) × (kstring_insert junk 20 abcd 1 digits 5 ≡ some k')
    × IsKstring k' 9 (λ i.
      if ltb i (min 1 4)
      then letters i
      else if ltb i (min 1 4 + 5)
      then digits (i - min 1 4)
      else letters (i - 5))
insert-IsKstring_example =
    insert-IsKstring junk abcd-IsKstring 20 1 digits 5 (λ i l. omega arith) (omega arith)
      (omega arith)

append-IsKstring_example :
    (k' : Kstring) × (kstring_append junk 20 abcd digits 5 ≡ some k')
    × IsKstring k' 9 (λ i. if ltb i 4 then letters i else digits (i - 4))
append-IsKstring_example =
    append-IsKstring junk abcd-IsKstring 20 digits 5 (λ i l. omega arith) (omega arith)
      (omega arith)
