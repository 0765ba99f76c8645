-- ===== src/Text/Strings.antt =====
-- The string routines against the texts that stand in memory.
use eedox.Base.{
  ℕ, zero, suc, ◌+◌, ◌^◌, ◌≤◌, ◌<◌, ◌≡◌, ◌↔◌, ◌⊎◌, refl, some, false, subst, List, [], ◌∷◌, arith,
  ltb, ◌==◌, if◌then◌else◌, length,
}
use eedox.Base.Int.{ℤ, pos, negsuc}
use eedox.Memory.{Mem, store, copy_up}
use eedox.Memory.Copy.{moved, copy_up_lem}
use eedox.Text.{char_key, strlen_loop, strlen, strcpy_loop, strcpy, strcmp_loop, strcmp}

-- A text: bytes, none of them the terminator.
abbrev pub IsText : List ℕ → Type 0
IsText [] = Unit
IsText (c ∷ s) = (0 < c) × (c < 256) × IsText s

-- The text `s` and its terminator stand at `p`.
abbrev pub TextAt : Mem → ℕ → List ℕ → Type 0
TextAt m p [] = m p ≡ 0
TextAt m p (c ∷ s) = (m p ≡ c) × (0 < c) × (c < 256) × TextAt m (p + 1) s

strlen_loop_lem :
    (m : Mem) (s : List ℕ) (fuel str len : ℕ)
    → TextAt m str s
    → length s < fuel
    → len + length s < 2 ^ 32
    → strlen_loop fuel m str len ≡ some (len + length s)
unfolding strlen_loop
strlen_loop_lem m s zero str len t f h = absurd (omega arith)
strlen_loop_lem m [] (suc fuel) str len t f h = ground arith
strlen_loop_lem m (c ∷ s) (suc fuel) str len t f h =
    ground (arith, strlen_loop_lem m s fuel (str + 1) (len + 1))

-- `strlen` of a text in memory is its length, given more fuel than the text is long and a length
-- that an uint32_t holds.
pub strlen-length :
    (m : Mem) (s : List ℕ) (fuel str : ℕ)
    → TextAt m str s
    → length s < fuel
    → length s < 2 ^ 32
    → strlen fuel m str ≡ some (length s)
unfolding strlen
strlen-length m s fuel str t f h = ground (arith, strlen_loop_lem m s fuel str 0)

TextAt-store :
    (m : Mem) (s : List ℕ) (p a v : ℕ)
    → TextAt m p s
    → (a < p) ⊎ (p + length s < a)
    → TextAt (store m a v) p s
unfolding store
TextAt-store m [] p a v t h = ground arith
TextAt-store m (c ∷ s) p a v t h =
    (ground arith, t.1, t.2, TextAt-store m s (p + 1) a v t.3 (omega arith))

strcpy_loop_lem :
    (m : Mem) (s : List ℕ) (fuel dest src i : ℕ)
    → TextAt m (src + i) s
    → length s < fuel
    → (dest ≤ src) ⊎ (src + i + length s < dest + i)
    → strcpy_loop fuel m dest src i ≡ some (copy_up m dest src i (length s))
unfolding strcpy_loop copy_up
strcpy_loop_lem m s zero dest src i t f h = absurd (omega arith)
strcpy_loop_lem m [] (suc fuel) dest src i t f h = rw t
strcpy_loop_lem m (c ∷ s) (suc fuel) dest src i t f h =
    let t' : TextAt m (src + (i + 1)) s = subst (λ k. TextAt m k s) (omega arith) t.3 in
    rw nonzero (
      strcpy_loop_lem (store m (dest + i) (m (src + i))) s fuel dest src (i + 1)
        (TextAt-store m s (src + (i + 1)) (dest + i) (m (src + i)) t' (omega arith)) (omega arith)
        (omega arith))
  where
    nonzero : (m (src + i) == 0) ≡ false
    nonzero = ground arith

-- `strcpy` with more fuel than the text is long puts the bytes of the text at `dest` and writes
-- nowhere else, not even a terminator, if `dest` does not lie behind `src` inside the text.
pub strcpy-moved :
    (m : Mem) (s : List ℕ) (fuel dest src : ℕ)
    → TextAt m src s
    → length s < fuel
    → (dest ≤ src) ⊎ (src + length s < dest)
    → (m' : Mem) × (strcpy fuel m dest src ≡ some m')
      × ((x : ℕ) → m' x ≡ moved m dest src (length s) x)
unfolding strcpy
strcpy-moved m s fuel dest src t f h = (
  copy_up m dest src 0 (length s),
  strcpy_loop_lem m s fuel dest src 0 (subst (λ k. TextAt m k s) (omega arith) t) f (omega arith),
  λ x. ground (arith, copy_up_lem m dest src 0 (length s) x (omega arith)),
)

-- The order of two texts, by their first difference; the shorter is the smaller.
unfoldable pub compare_text : List ℕ → List ℕ → ℤ
compare_text [] [] = pos 0
compare_text [] (d ∷ t) = negsuc 0
compare_text (c ∷ s) [] = pos 1
compare_text (c ∷ s) (d ∷ t) =
    if ltb (char_key d) (char_key c)
    then pos 1
    else if ltb (char_key c) (char_key d)
    then negsuc 0
    else compare_text s t

strcmp_loop_lem :
    (m : Mem) (s t : List ℕ) (fuel str1 str2 i : ℕ)
    → TextAt m (str1 + i) s
    → TextAt m (str2 + i) t
    → length s < fuel
    → strcmp_loop fuel m str1 str2 i ≡ some (compare_text s t)
unfolding strcmp_loop compare_text
strcmp_loop_lem m s t zero str1 str2 i p q f = absurd (omega arith)
strcmp_loop_lem m [] [] (suc fuel) str1 str2 i p q f = ground arith
strcmp_loop_lem m [] (d ∷ t) (suc fuel) str1 str2 i p q f = ground arith
strcmp_loop_lem m (c ∷ s) [] (suc fuel) str1 str2 i p q f = ground arith
strcmp_loop_lem m (c ∷ s) (d ∷ t) (suc fuel) str1 str2 i p q f = ground (
  arith,
  strcmp_loop_lem m s t fuel str1 str2 (i + 1) (subst (λ k. TextAt m k s) (omega arith) p.3)
      (subst (λ k. TextAt m k t) (omega arith) q.3),
)

pub compare_text_iff : (s t : List ℕ) → IsText s → IsText t → (compare_text s t ≡ pos 0) ↔ (s ≡ t)
unfolding compare_text
compare_text_iff [] [] p q = (λ e. refl, λ e. refl)
compare_text_iff [] (d ∷ t) p q = (λ e. cc, λ e. cc)
compare_text_iff (c ∷ s) [] p q = (λ e. cc, λ e. cc)
compare_text_iff (c ∷ s) (d ∷ t) p q =
    let ih = compare_text_iff s t p.2 q.2 in (λ e. ground (arith, ih.0), λ e. ground (arith, ih.1))

TextAt-IsText : (m : Mem) (s : List ℕ) (p : ℕ) → TextAt m p s → IsText s
TextAt-IsText m [] p t = tt
TextAt-IsText m (c ∷ s) p t = (t.1, t.2, TextAt-IsText m s (p + 1) t.3)

-- `strcmp` of two texts in memory is their lexicographic order by signed characters, given more fuel
-- than the first is long; and it is 0 exactly when the texts are the same.
pub strcmp-compare_text :
    (m : Mem) (s t : List ℕ) (fuel str1 str2 : ℕ)
    → TextAt m str1 s
    → TextAt m str2 t
    → length s < fuel
    → (strcmp fuel m str1 str2 ≡ some (compare_text s t)) × ((compare_text s t ≡ pos 0) ↔ (s ≡ t))
unfolding strcmp
strcmp-compare_text m s t fuel str1 str2 p q f = (
  strcmp_loop_lem m s t fuel str1 str2 0 (subst (λ k. TextAt m k s) (omega arith) p)
      (subst (λ k. TextAt m k t) (omega arith) q) f,
  compare_text_iff s t (TextAt-IsText m s str1 p) (TextAt-IsText m t str2 q),
)
