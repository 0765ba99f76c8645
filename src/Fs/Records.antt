-- ===== src/Fs/Records.antt =====
-- The bytes of a list of children, and where childtable_find of src/fs.c finds a name in them.
use eedox.Base.{
  ℕ, zero, suc, ◌+◌, ◌^◌, ◌≤◌, ◌<◌, ◌≡◌, refl, sym, ap, ◌∙◌, false, Option, none, some, List, [],
  ◌∷◌, ◌++◌, arith, ◌==◌, if◌then◌else◌, length, take, drop, length-append,
}
use eedox.Pipe.{until_nul}
use eedox.Mq.{same_text}
use eedox.Text.Strings.{IsText}
use eedox.Fs.Children.{word_bytes, shifted, find_record}

abbrev pub Children : Type 0
Children = List (List ℕ × ℕ)

-- The bytes of one child, and of all of them.
abbrev pub entry : List ℕ → ℕ → List ℕ
entry name index = name ++ (0 ∷ word_bytes index)

unfoldable pub encode : Children → List ℕ
encode [] = []
encode ((name, index) ∷ cs) = entry name index ++ encode cs

-- Names are texts, and indices words.
abbrev pub AreChildren : Children → Type 0
AreChildren [] = Unit
AreChildren ((name, index) ∷ cs) = IsText name × (index < 2 ^ 32) × AreChildren cs

-- The index of the first child of that name, 0 if there is none.
unfoldable pub index_of : Children → List ℕ → ℕ
index_of [] name = 0
index_of ((n, index) ∷ cs) name = if same_text n name then index else index_of cs name

-- The children without the first one of that name.
unfoldable pub without : Children → List ℕ → Children
without [] name = []
without ((n, index) ∷ cs) name = if same_text n name then cs else (n, index) ∷ without cs name

-- Where its record starts.
unfoldable pub offset_of : Children → List ℕ → Option ℕ
offset_of [] name = none
offset_of ((n, index) ∷ cs) name =
    if same_text n name then some 0 else shifted (length n + 5) (offset_of cs name)

pub take-append : (xs ys : List ℕ) (k : ℕ) → take (length xs + k) (xs ++ ys) ≡ xs ++ take k ys
take-append [] ys k = ap (λ n. take n ys) (omega arith)
take-append (x ∷ xs) ys k =
    let e : suc (length xs) + k ≡ suc (length xs + k) = omega arith in
    rw e (ap (λ l. x ∷ l) (take-append xs ys k))

pub drop-append : (xs ys : List ℕ) (k : ℕ) → drop (length xs + k) (xs ++ ys) ≡ drop k ys
drop-append [] ys k = ap (λ n. drop n ys) (omega arith)
drop-append (x ∷ xs) ys k =
    let e : suc (length xs) + k ≡ suc (length xs + k) = omega arith in rw e (drop-append xs ys k)

pub length-entry : (name : List ℕ) (index : ℕ) → length (entry name index) ≡ length name + 5
length-entry name index = omega (arith, length-append name (0 ∷ word_bytes index))

pub drop-entry :
    (name : List ℕ) (index k : ℕ) (rest : List ℕ)
    → drop (length name + 5 + k) (entry name index ++ rest) ≡ drop k rest
drop-entry name index k rest =
    ap (λ n. drop (n + k) (entry name index ++ rest)) (sym (length-entry name index))
    ∙ drop-append (entry name index) rest k

pub take-entry :
    (name : List ℕ) (index k : ℕ) (rest : List ℕ)
    → take (length name + 5 + k) (entry name index ++ rest) ≡ entry name index ++ take k rest
take-entry name index k rest =
    ap (λ n. take (n + k) (entry name index ++ rest)) (sym (length-entry name index))
    ∙ take-append (entry name index) rest k

until_nul-entry :
    (name : List ℕ) (index : ℕ) (rest : List ℕ)
    → IsText name
    → until_nul (entry name index ++ rest) ≡ name
unfolding until_nul
until_nul-entry [] index rest t = refl
until_nul-entry (c ∷ name) index rest t =
    let z : (c == 0) ≡ false = ground (arith, t.0) in
    rw z (ap (λ l. c ∷ l) (until_nul-entry name index rest t.2))

pub find_record-offset_of :
    (cs : Children) (fuel : ℕ) (name : List ℕ)
    → AreChildren cs
    → length cs ≤ fuel
    → find_record fuel (encode cs) name ≡ offset_of cs name
unfolding find_record encode offset_of
find_record-offset_of [] zero name a h = refl
find_record-offset_of [] (suc fuel) name a h = ground arith
find_record-offset_of (c ∷ cs) zero name a h = absurd (omega arith)
find_record-offset_of ((n, index) ∷ cs) (suc fuel) name a h =
    let l : (length (entry n index ++ encode cs) == 0) ≡ false =
      ground (arith, length-append (entry n index) (encode cs), length-entry n index) in
    let d : drop (length n + 5) (entry n index ++ encode cs) ≡ encode cs =
      ap (λ k. drop k (entry n index ++ encode cs)) (omega arith)
      ∙ drop-entry n index 0 (encode cs) in
    rw
      (
        until_nul-entry n index (encode cs) a.0,
        l,
        d,
        find_record-offset_of cs fuel name a.2 (omega arith),
      )
      refl
