-- ===== src/UserHeap/FreeList.antt =====
-- user/alloc.c: the doubly linked list of the free blocks.
use eedox.Base.{
  ℕ, ◌≡◌, ◌≢◌, ◌⊎◌, inl, inr, refl, ap, ◌∙◌, Bool, true, false, ◌&&◌, ◌||◌, not, List, [], ◌∷◌,
  ◌++◌, arith, ◌==◌, ==_iff, Bool-cases, length,
}
use eedox.UserHeap.{Heaped}

unfoldable pub is_in : ℕ → List ℕ → Bool
is_in a [] = false
is_in a (c ∷ cs) = (c == a) || is_in a cs

unfoldable pub distinct : List ℕ → Bool
distinct [] = true
distinct (c ∷ cs) = not (is_in c cs) && distinct cs

unfoldable pub first : List ℕ → ℕ
first [] = 0
first (c ∷ cs) = c

unfoldable pub last : ℕ → List ℕ → ℕ
last p [] = p
last p (c ∷ cs) = last c cs

-- Each block leads to the next one, the last one to NULL.
unfoldable pub NextChain : (ℕ → ℕ) → List ℕ → Type 0
NextChain f [] = Unit
NextChain f (c ∷ cs) = (f c ≡ first cs) × NextChain f cs

-- Each block leads back to the one before, the first one to `pv`.
unfoldable pub PrevChain : (ℕ → ℕ) → ℕ → List ℕ → Type 0
PrevChain f pv [] = Unit
PrevChain f pv (c ∷ cs) = (f c ≡ pv) × PrevChain f c cs

-- The list of free blocks.
pub record IsFreeList (s : Heaped) (cs : List ℕ) : Type 0 where
  pub free : s.mem.free ≡ first cs
  pub next : NextChain (λ x. (s.headers x).next_free) cs
  pub prev : PrevChain (λ x. (s.headers x).prev_free) 0 cs
  pub once : distinct cs ≡ true
  pub some_block : is_in 0 cs ≡ false

pub Next-same :
    (f g : ℕ → ℕ) (cs : List ℕ)
    → ((x : ℕ) → is_in x cs ≡ true → g x ≡ f x)
    → NextChain f cs
    → NextChain g cs
unfolding NextChain is_in
Next-same f g [] h c = _
Next-same f g (a ∷ cs) h c =
    (h a (ground arith) ∙ c.0, Next-same f g cs (λ x i. h x (ground (arith, i))) c.1)

pub Prev-same :
    (f g : ℕ → ℕ) (cs : List ℕ) (pv : ℕ)
    → ((x : ℕ) → is_in x cs ≡ true → g x ≡ f x)
    → PrevChain f pv cs
    → PrevChain g pv cs
unfolding PrevChain is_in
Prev-same f g [] pv h c = _
Prev-same f g (a ∷ cs) pv h c =
    (h a (ground arith) ∙ c.0, Prev-same f g cs a (λ x i. h x (ground (arith, i))) c.1)

-- Two addresses of which one is in the list and the other is not.
pub in-other : (cs : List ℕ) (x a : ℕ) → is_in x cs ≡ true → is_in a cs ≡ false → (x == a) ≡ false
in-other cs x a i n = elim (Bool-cases (x == a)) [
  | inl e ↦ absurd (ground (arith, i, n, ap (λ y. is_in y cs) ((==_iff x a).0 e)))
  | inr e ↦ e
]

pub last-in : (b : ℕ) (cs rest : List ℕ) → is_in (last b cs) (b ∷ cs ++ rest) ≡ true
unfolding last is_in
last-in b [] rest = ground arith
last-in b (c ∷ cs) rest = ground (arith, last-in c cs rest)

pub distinct-head : (a : ℕ) (cs : List ℕ) → distinct (a ∷ cs) ≡ true → is_in a cs ≡ false
unfolding distinct
distinct-head a cs h = ground (arith, h)

pub distinct-tail : (a : ℕ) (cs : List ℕ) → distinct (a ∷ cs) ≡ true → distinct cs ≡ true
unfolding distinct
distinct-tail a cs h = ground (arith, h)

pub is_in-append : (x : ℕ) (xs ys : List ℕ) → is_in x (xs ++ ys) ≡ (is_in x xs || is_in x ys)
unfolding is_in
is_in-append x [] ys = refl
is_in-append x (c ∷ xs) ys = ground (arith, is_in-append x xs ys)

-- An address that is not in the blocks is none of them.
pub not_in : (a x : ℕ) (cs : List ℕ) → is_in a cs ≡ false → is_in x cs ≡ true → (a == x) ≡ false
not_in a x cs n i = ground (arith, in-other cs x a i n)

pub is_in-behind :
    (a h : ℕ) (pre post : List ℕ)
    → is_in a (pre ++ (h ∷ post)) ≡ false
    → ((a == h) ≡ false) × (is_in a post ≡ false)
unfolding is_in
is_in-behind a h pre post n = (
  ground (arith, is_in-append a pre (h ∷ post), n),
  ground (arith, is_in-append a pre (h ∷ post), n),
)

-- The next of the block before `h` is set to the block behind it.
pub Next-unlink :
    (f g : ℕ → ℕ) (h : ℕ) (post pre : List ℕ) (a : ℕ)
    → NextChain f (a ∷ pre ++ (h ∷ post))
    → distinct (a ∷ pre ++ (h ∷ post)) ≡ true
    → g (last a pre) ≡ first post
    → ((x : ℕ) → (x == last a pre) ≡ false → (x == h) ≡ false → g x ≡ f x)
    → NextChain g (a ∷ pre ++ post)
unfolding NextChain first last
Next-unlink f g h post [] a c d at_last same =
    let away = is_in-behind a h [] post (distinct-head a (h ∷ post) d) in
    let away_h = distinct-head h post (distinct-tail a (h ∷ post) d) in
    (
      at_last,
      Next-same f g post (λ x i. same x (in-other post x a i away.1) (in-other post x h i away_h))
          c.1.1,
    )
Next-unlink f g h post (b ∷ pre) a c d at_last same =
    let away = distinct-head a (b ∷ pre ++ (h ∷ post)) d in
    (
      same a (not_in a (last b pre) (b ∷ pre ++ (h ∷ post)) away (last-in b pre (h ∷ post)))
            (is_in-behind a h (b ∷ pre) post away).0
          ∙ c.0,
      Next-unlink f g h post pre b c.1 (distinct-tail a (b ∷ pre ++ (h ∷ post)) d) at_last same,
    )

pub cons-nil : (b : ℕ) (bs : List ℕ) → b ∷ bs ≢ []
cons-nil b bs e = absurd (omega (arith, ap length e))

pub apart_first :
    (a : ℕ) (post : List ℕ) → is_in a post ≡ false → (post ≡ []) ⊎ ((a == first post) ≡ false)
unfolding first is_in
apart_first a [] n = inl refl
apart_first a (b ∷ post) n = inr (ground (arith, n))

-- The prev of the block behind `h` is set to the block before it.
pub Prev-unlink :
    (f g : ℕ → ℕ) (h : ℕ) (post pre : List ℕ) (pv : ℕ)
    → PrevChain f pv (pre ++ (h ∷ post))
    → distinct (pre ++ (h ∷ post)) ≡ true
    → ((post ≡ []) ⊎ (g (first post) ≡ last pv pre))
    → ((x : ℕ) → (post ≡ []) ⊎ ((x == first post) ≡ false) → (x == h) ≡ false → g x ≡ f x)
    → PrevChain g pv (pre ++ post)
unfolding PrevChain first last
Prev-unlink f g h [] [] pv c d at_first same = _
Prev-unlink f g h (b ∷ post) [] pv c d at_first same =
    let away = distinct-head b post (distinct-tail h (b ∷ post) d) in
    let away_h = is_in-behind h b [] post (distinct-head h (b ∷ post) d) in
    (
      elim at_first [ inl e ↦ absurd (cons-nil b post e) | inr e ↦ e ],
      Prev-same f g post b
          (λ x i. same x (inr (in-other post x b i away)) (in-other post x h i away_h.1)) c.1.1,
    )
Prev-unlink f g h post (a ∷ pre) pv c d at_first same =
    let away = is_in-behind a h pre post (distinct-head a (pre ++ (h ∷ post)) d) in
    (
      same a (apart_first a post away.1) away.0 ∙ c.0,
      Prev-unlink f g h post pre a c.1 (distinct-tail a (pre ++ (h ∷ post)) d) at_first same,
    )
