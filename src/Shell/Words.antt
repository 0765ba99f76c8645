-- ===== src/Shell/Words.antt =====
-- user/sh.c: `parse_input` finds the words of a line.
use eedox.Base.{
  Bool, ◌||◌, ℕ, zero, suc, ◌+◌, ◌≤◌, ◌<◌, ◌≡◌, inl, inr, refl, ap, ◌∙◌, false, Option, none, some,
  List, [], ◌∷◌, ◌++◌, arith, ◌==◌, if◌then◌else◌, Bool-cases, length, length-append,
}
use eedox.Memory.{Mem, store}
use eedox.Shell.{ends_token, closed, pushed, begun, push_first, parse_from, parse_input}

-- The characters stand in the line from `t` on.
unfoldable pub Part : Mem → ℕ → List ℕ → Type 0
Part m t [] = Unit
Part m t (c ∷ cs) = (m t ≡ c) × Part m (t + 1) cs

-- The text stands from `t` on, and a 0 behind it.
unfoldable pub Text : Mem → ℕ → List ℕ → Type 0
Text m t cs = Part m t cs × (m (t + length cs) ≡ 0)

-- What separates words: a blank, the character 32, or a line feed, the character 10.
unfoldable pub is_separator : ℕ → Bool
is_separator c = (c == 32) || (c == 10)

-- In a text, which has no 0, these are what ends a token.
ends_token-is_separator : (c : ℕ) → 0 < c → ends_token c ≡ is_separator c
unfolding ends_token is_separator
ends_token-is_separator c h = ground arith

-- The words of a text behind the characters of one that has begun: what stands between blanks and
-- line feeds.
unfoldable pub ended : List ℕ → List (List ℕ) → List (List ℕ)
ended [] ws = ws
ended (c ∷ cs) ws = (c ∷ cs) ∷ ws

unfoldable pub words_from : List ℕ → List ℕ → List (List ℕ)
words_from word [] = ended word []
words_from word (c ∷ cs) =
    if is_separator c then ended word (words_from [] cs) else words_from (word ++ (c ∷ [])) cs

unfoldable pub words : List ℕ → List (List ℕ)
words cs = words_from [] cs

-- No character is 0.
unfoldable pub IsText : List ℕ → Type 0
IsText [] = Unit
IsText (c ∷ cs) = (0 < c) × IsText cs

-- The tokens are the words, each with a 0 behind it.
unfoldable pub Tokens : Mem → List ℕ → List (List ℕ) → Type 0
Tokens m [] [] = Unit
Tokens m (t ∷ ts) (w ∷ ws) = Text m t w × Tokens m ts ws
Tokens m _ _ = ⊥

-- The word that has begun, and where.
unfoldable Begun : Mem → ℕ → Option ℕ → List ℕ → Type 0
Begun m i none word = word ≡ []
Begun m i (some t) [] = ⊥
Begun m i (some t) (c ∷ cs) = Part m t (c ∷ cs) × (t + length (c ∷ cs) ≡ i)

Part-same :
    (m m' : Mem) (t : ℕ) (cs : List ℕ)
    → ((x : ℕ) → t ≤ x → x < t + length cs → m' x ≡ m x)
    → Part m t cs
    → Part m' t cs
unfolding Part
Part-same m m' t [] h p = _
Part-same m m' t (c ∷ cs) h p = (
  h t (omega arith) (omega arith) ∙ p.0,
  Part-same m m' (t + 1) cs (λ x u l. h x (omega arith) (omega arith)) p.1,
)

Part-snoc :
    (m : Mem) (t : ℕ) (cs : List ℕ) (c : ℕ)
    → Part m t cs
    → m (t + length cs) ≡ c
    → Part m t (cs ++ (c ∷ []))
unfolding Part
Part-snoc m t [] c p e = (ap m (omega arith) ∙ e, _)
Part-snoc m t (d ∷ cs) c p e = (p.0, Part-snoc m (t + 1) cs c p.1 (ap m (omega arith) ∙ e))

-- A character goes to the word.
Begun-more :
    (m : Mem) (i : ℕ) (arg : Option ℕ) (word : List ℕ) (c : ℕ)
    → Begun m i arg word
    → m i ≡ c
    → Begun m (i + 1) (begun i arg) (word ++ (c ∷ []))
unfolding Begun begun Part
Begun-more m i none [] c b e = ((e, _), refl)
Begun-more m i none (d ∷ ds) c b e = absurd (omega (arith, ap length b))
Begun-more m i (some t) [] c b e = elim b [ ]
Begun-more m i (some t) (d ∷ ds) c b e =
    (Part-snoc m t (d ∷ ds) c b.0 (ap m b.1 ∙ e), omega (arith, b.1, length-append ds (c ∷ [])))

-- What the loop has done: the tokens are the words, and what stands below the index is left.
record Parsed (m : Mem) (i : ℕ) (ws : List (List ℕ)) (r : Option (List ℕ × Mem)) : Type 0 where
  pub tokens : List ℕ
  pub line : Mem
  pub runs : r ≡ some (tokens, line)
  pub found : Tokens line tokens ws
  pub left : (x : ℕ) → x < i → line x ≡ m x

-- A word that ends at `i`.
closed-left : (m : Mem) (i : ℕ) (arg : Option ℕ) (x : ℕ) → x < i → closed m i arg x ≡ m x
unfolding closed store
closed-left m i none x l = refl
closed-left m i (some t) x l = ground arith

closed-right : (m : Mem) (i : ℕ) (arg : Option ℕ) (x : ℕ) → i + 1 ≤ x → closed m i arg x ≡ m x
unfolding closed store
closed-right m i none x l = refl
closed-right m i (some t) x l = ground arith

ended-Tokens :
    (m m' : Mem) (i : ℕ) (arg : Option ℕ) (word : List ℕ) (ts : List ℕ) (ws : List (List ℕ))
    → Begun m i arg word
    → ((x : ℕ) → x < i + 1 → m' x ≡ closed m i arg x)
    → Tokens m' ts ws
    → Tokens m' (pushed arg ts) (ended word ws)
unfolding Begun pushed ended Tokens Text closed store
ended-Tokens m m' i none [] ts ws b h t = t
ended-Tokens m m' i none (d ∷ ds) ts ws b h t = absurd (omega (arith, ap length b))
ended-Tokens m m' i (some a) [] ts ws b h t = elim b [ ]
ended-Tokens m m' i (some a) (d ∷ ds) ts ws b h t = (
  (
    Part-same m m' a (d ∷ ds) (λ x u l. h x (omega (arith, l, b.1)) ∙ ground (arith, l, b.1)) b.0,
    ap m' b.1 ∙ h i (omega arith) ∙ ground arith,
  ),
  t,
)

no-Tokens : (m : Mem) → Tokens m [] []
unfolding Tokens
no-Tokens m = _

-- The text behind a word is left.
closed-Text :
    (m : Mem) (i : ℕ) (arg : Option ℕ) (cs : List ℕ)
    → Text m (i + 1) cs
    → Text (closed m i arg) (i + 1) cs
unfolding Text
closed-Text m i arg cs h =
    let same : (x : ℕ) → i + 1 ≤ x → closed m i arg x ≡ m x = closed-right m i arg in
    (
      Part-same m (closed m i arg) (i + 1) cs (λ x u l. same x u) h.0,
      same (i + 1 + length cs) (omega arith) ∙ h.1,
    )

parse_from-Parsed :
    (cs : List ℕ) (n : ℕ) (m : Mem) (i : ℕ) (arg : Option ℕ) (word : List ℕ)
    → IsText cs
    → Text m i cs
    → Begun m i arg word
    → length cs < n
    → Parsed m i (words_from word cs) (parse_from n m i arg)
unfolding parse_from words_from IsText Text Part Begun push_first ends_token
parse_from-Parsed cs zero m i arg word t h b l = absurd (omega arith)
parse_from-Parsed [] (suc n) m i arg word t h b l =
    let zero_here : m i ≡ 0 = ap m (omega arith) ∙ h.1 in
    rw zero_here (record {
      tokens = pushed arg [];
      line = closed m i arg;
      runs = refl;
      found =
          ended-Tokens m (closed m i arg) i arg word [] [] b (λ x l. refl)
            (no-Tokens (closed m i arg));
      left = closed-left m i arg;
    })
parse_from-Parsed (c ∷ cs) (suc n) m i arg word t h b l =
    let here : m i ≡ c = h.0.0 in
    let some_char : (c == 0) ≡ false = ground (arith, t.0) in
    let behind : Text m (i + 1) cs = (h.0.1, ap m (omega arith) ∙ h.1) in
    let test : ends_token c ≡ is_separator c = ends_token-is_separator c t.0 in
    elim (Bool-cases (is_separator c)) [
      | inl e ↦
          let r =
            parse_from-Parsed cs n (closed m i arg) (i + 1) none [] t.1
              (closed-Text m i arg cs behind) refl (omega arith) in
          rw (here, test, e, some_char)
            (record {
              tokens = pushed arg r.tokens;
              line = r.line;
              runs = ap (push_first arg) r.runs;
              found = ended-Tokens m r.line i arg word r.tokens _ b r.left r.found;
              left = λ x l. r.left x (omega arith) ∙ closed-left m i arg x l;
            })
      | inr e ↦
          let r =
            parse_from-Parsed cs n m (i + 1) (begun i arg) (word ++ (c ∷ [])) t.1 behind
              (Begun-more m i arg word c b here) (omega arith) in
          rw (here, test, e)
            (record {
              tokens = r.tokens;
              line = r.line;
              runs = r.runs;
              found = r.found;
              left = λ x l. r.left x (omega arith);
            })
    ]

-- `parse_input` of a line of characters ends, for which as many rounds as it has characters and one
-- more are enough. The tokens are its words, in their order: the runs of characters between blanks and
-- line feeds.
-- Each is a pointer into the line to the characters of a word with a 0 behind them.
pub parse_input-Tokens :
    (cs : List ℕ) (fuel : ℕ) (m : Mem)
    → IsText cs
    → Text m 0 cs
    → length cs < fuel
    → (tokens : List ℕ) × (line : Mem) × (parse_input fuel m ≡ some (tokens, line))
      × Tokens line tokens (words cs)
unfolding parse_input words Begun
parse_input-Tokens cs fuel m t h l =
    let r = parse_from-Parsed cs fuel m 0 none [] t h refl l in (r.tokens, r.line, r.runs, r.found)
