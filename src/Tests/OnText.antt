-- ===== src/Tests/OnText.antt =====
-- Runs of the routines on texts and numbers of src/util.c.
use eedox.Base.{List, ℕ, refl, [], ◌∷◌, arith, ◌==◌, if◌then◌else◌}
use eedox.Memory.{Mem}
use eedox.Text.Strings.{TextAt}

abbrev ab : List ℕ
ab = 97 ∷ 98 ∷ []

abbrev ac : List ℕ
ac = 97 ∷ 99 ∷ []

-- `ab` at 10, `ac` at 20, and nothing else.
abbrev two_texts : Mem
two_texts x =
    if x == 10
    then 97
    else if x == 11
    then 98
    else if x == 20
    then 97
    else if x == 21
    then 99
    else 0

abbrev text_ab : TextAt two_texts 10 ab
text_ab = (refl, omega arith, omega arith, (refl, omega arith, omega arith, refl))

abbrev text_ac : TextAt two_texts 20 ac
text_ac = (refl, omega arith, omega arith, (refl, omega arith, omega arith, refl))
