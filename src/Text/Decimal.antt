-- ===== src/Text/Decimal.antt =====
-- The number printers of src/util.c: what they write, read back.
use eedox.Base.{
  sym, Option, ◌^◌, true, length, ℕ, zero, suc, ◌+◌, ◌-◌, ◌*◌, ◌/◌, ◌%◌, ◌≤◌, ◌<◌, ◌≡◌, ◌≢◌, inl,
  inr, refl, ap, ap₂, ◌∙◌, subst, false, some, List, [], ◌∷◌, ◌++◌, arith, ◌==◌, if◌then◌else◌,
  Bool-cases,
}
use mathlib.Core.List.{reverse, reverse-cons, reverse-append}
use eedox.Memory.{strrev, Mem}
use eedox.Memory.{Mem, store}
use eedox.Memory.Copy.{strrev_lem, within}
use eedox.Text.{end_and_reverse, tostr_u, digits_loop}
use eedox.Text.Strings.{TextAt}

-- The number that decimal digits stand for, the highest first.
unfoldable pub decimal : ℕ → List ℕ → ℕ
decimal acc [] = acc
decimal acc (c ∷ s) = decimal (acc * 10 + (c - 48)) s

-- The same, the lowest first.
decimal_low : List ℕ → ℕ
decimal_low [] = 0
decimal_low (c ∷ s) = (c - 48) + 10 * decimal_low s

decimal-append : (acc : ℕ) (s t : List ℕ) → decimal acc (s ++ t) ≡ decimal (decimal acc s) t
unfolding decimal
decimal-append acc [] t = refl
decimal-append acc (c ∷ s) t = decimal-append (acc * 10 + (c - 48)) s t

decimal-reverse : (s : List ℕ) → decimal 0 (reverse s) ≡ decimal_low s
unfolding decimal decimal_low
decimal-reverse [] = refl
decimal-reverse (c ∷ s) = rw (reverse-cons, decimal-append, decimal-reverse s) (omega arith)

-- The `n` bytes from `p` on.
abbrev bytes : Mem → ℕ → ℕ → List ℕ
bytes m p zero = []
bytes m p (suc n) = m p ∷ bytes m (p + 1) n

-- Every byte is a digit of the decimal system.
abbrev pub IsDecimal : List ℕ → Type 0
IsDecimal [] = Unit
IsDecimal (c ∷ s) = (48 ≤ c) × (c < 58) × IsDecimal s

-- The powers of ten.
abbrev pub pow10 : ℕ → ℕ
pow10 zero = 1
pow10 (suc k) = 10 * pow10 k

-- The same bytes from the last to the first.
abbrev bytes_down : Mem → ℕ → ℕ → List ℕ
bytes_down m p zero = []
bytes_down m p (suc n) = m (p + n) ∷ bytes_down m p n

bytes-snoc : (m : Mem) (p n : ℕ) → bytes m p (suc n) ≡ bytes m p n ++ (m (p + n) ∷ [])
bytes-snoc m p zero = ap (λ k. m k ∷ []) (omega arith)
bytes-snoc m p (suc n) =
    ap (λ l. m p ∷ l)
      (bytes-snoc m (p + 1) n ∙ ap (λ k. bytes m (p + 1) n ++ (m k ∷ [])) (omega arith))

bytes_down-reverse : (m : Mem) (p n : ℕ) → bytes_down m p n ≡ reverse (bytes m p n)
bytes_down-reverse m p zero = refl
bytes_down-reverse m p (suc n) = rw (bytes-snoc m p n, reverse-append, bytes_down-reverse m p n)

-- `g` has the `n` bytes of `m` at `p` the other way round.
reversed_bytes :
    (m g : Mem) (p n i k : ℕ)
    → i + k ≡ n
    → ((x : ℕ) → g x ≡ (if within p n x then m (p + (n - 1 - (x - p))) else m x))
    → bytes g (p + i) k ≡ bytes_down m p k
reversed_bytes m g p n i zero e h = refl
reversed_bytes m g p n i (suc k) e h =
    ap₂ ◌∷◌ (ground (arith, h (p + i)))
      (ap (λ q. bytes g q k) (omega arith) ∙ reversed_bytes m g p n (i + 1) k (omega arith) h)

TextAt-bytes :
    (m : Mem) (p n : ℕ) → IsDecimal (bytes m p n) → m (p + n) ≡ 0 → TextAt m p (bytes m p n)
TextAt-bytes m p zero d e = ground arith
TextAt-bytes m p (suc n) d e =
    (refl, omega arith, omega arith, TextAt-bytes m (p + 1) n d.2 (ap m (omega arith) ∙ e))

IsDecimal-append : (s t : List ℕ) → IsDecimal s → IsDecimal t → IsDecimal (s ++ t)
IsDecimal-append [] t a b = b
IsDecimal-append (c ∷ s) t a b = (a.0, a.1, IsDecimal-append s t a.2 b)

IsDecimal-reverse : (s : List ℕ) → IsDecimal s → IsDecimal (reverse s)
IsDecimal-reverse [] d = tt
IsDecimal-reverse (c ∷ s) d =
    rw reverse-cons (IsDecimal-append (reverse s) (c ∷ []) (IsDecimal-reverse s d.2) (d.0, d.1, tt))

-- What the loop has done: `n` digits of `i` from `p` on, the lowest first, and nothing else.
record Wrote (m m' : Mem) (p n i : ℕ) : Type 0 where
  value : decimal_low (bytes m' p n) ≡ i
  digits : IsDecimal (bytes m' p n)
  same : (x : ℕ) → within p n x ≡ false → m' x ≡ m x

Wrote-digit :
    (m m' : Mem) (p n i : ℕ)
    → i ≢ 0
    → Wrote (store m p (48 + i % 10)) m' (p + 1) n (i / 10)
    → Wrote m m' p (suc n) i
unfolding store decimal_low
Wrote-digit m m' p n i ne w = record {
  value = ground (arith, first, w.value);
  digits = (omega (arith, first), omega (arith, first), w.digits);
  same = λ x h. ground (arith, w.same x);
}
  where
    first : m' p ≡ 48 + i % 10
    first = ground (arith, w.same p)

-- `n` digits are enough for `i`, and no more than it needs.
abbrev Short : ℕ → ℕ → Type 0
Short i n = (k : ℕ) → i < pow10 k → n ≤ k

Short-digit : (i n : ℕ) → i ≢ 0 → Short (i / 10) n → Short i (suc n)
Short-digit i n ne s zero h = absurd (omega arith)
Short-digit i n ne s (suc k) h = omega (arith, s k (omega arith))

digits_loop-Wrote :
    (fuel : ℕ) (m : Mem) (buffer idx i : ℕ)
    → i < fuel
    → (m' : Mem) × (n : ℕ) × (digits_loop fuel m buffer idx i ≡ some (m', idx + n))
      × Wrote m m' (buffer + idx) n i
      × Short i n
unfolding digits_loop decimal_low
digits_loop-Wrote zero m buffer idx i f = absurd (omega arith)
digits_loop-Wrote (suc fuel) m buffer idx i f = elim (Bool-cases (i == 0)) [
  | inl done ↦ (
    m,
    0,
    ground arith,
    record { value = ground arith; digits = tt; same = λ x h. refl },
    λ k h. omega arith,
  )
  | inr more ↦
      let (m', n, run, w, short) =
        digits_loop-Wrote fuel (store m (buffer + idx) (48 + i % 10)) buffer (idx + 1) (i / 10)
          (ground arith) in
      (
        m',
        suc n,
        rw more (run ∙ ap (λ k. some (m', k)) (omega arith)),
        Wrote-digit m m' (buffer + idx) n i (ground arith) (
            subst (λ q. Wrote (store m (buffer + idx) (48 + i % 10)) m' q n (i / 10)) (omega arith)
              w),
        Short-digit i n (ground arith) short,
      )
]

-- What a printer leaves: the text of `i` in decimal at `p`, and nothing written outside `room` bytes.
record Printed (m m' : Mem) (p i : ℕ) (s : List ℕ) : Type 0 where
  text : TextAt m' p s
  digits : IsDecimal s
  value : decimal 0 s ≡ i
  same : (x : ℕ) → within p (length s + 1) x ≡ false → m' x ≡ m x

length-bytes : (m : Mem) (p n : ℕ) → length (bytes m p n) ≡ n
length-bytes m p zero = refl
length-bytes m p (suc n) = ap suc (length-bytes m (p + 1) n)

bytes-congr :
    (m g : Mem) (p n : ℕ) → ((x : ℕ) → within p n x ≡ true → g x ≡ m x) → bytes g p n ≡ bytes m p n
bytes-congr m g p zero h = refl
bytes-congr m g p (suc n) h =
    ap₂ ◌∷◌ (h p (ground arith)) (bytes-congr m g (p + 1) n λ x w. h x (ground arith))

module _ (m g : Mem) (p n i : ℕ) (w : Wrote m g p n i) where
  finish : Mem
  finish = strrev (store g (p + n) 0) p n

  bytes-finish : bytes finish p n ≡ reverse (bytes g p n)
  unfolding finish store
  bytes-finish =
      ap (λ q. bytes finish q n) (omega arith)
      ∙ reversed_bytes (store g (p + n) 0) finish p n 0 n (omega arith)
          (strrev_lem (store g (p + n) 0) p n)
      ∙ bytes_down-reverse (store g (p + n) 0) p n
      ∙ ap reverse (bytes-congr g (store g (p + n) 0) p n λ x h. ground arith)

  finish-Printed : 0 < n → Printed m finish p i (bytes finish p n)
  unfolding finish store
  finish-Printed pos_n = record {
    text = TextAt-bytes finish p n d (ground (arith, strrev_lem (store g (p + n) 0) p n (p + n)));
    digits = d;
    value = rw (bytes-finish, decimal-reverse, w.value);
    same = λ x h.
        ground (arith, strrev_lem (store g (p + n) 0) p n x, w.same x, length-bytes finish p n);
  }
    where
      d : IsDecimal (bytes finish p n)
      d = rw bytes-finish (IsDecimal-reverse (bytes g p n) w.digits)

-- The digit of zero.
Wrote-zero : (m : Mem) (p : ℕ) → Wrote m (store m p 48) p 1 0
unfolding decimal_low store
Wrote-zero m p = record {
  value = ground arith;
  digits = (ground arith, ground arith, tt);
  same = λ x h. ground arith;
}

-- The result of `tostr_u`, whichever way it ran.
abbrev pub IsDecimalText : Mem → ℕ → ℕ → Option Mem → Type 0
IsDecimalText m buffer i r =
    (m' : Mem) × (s : List ℕ) × (r ≡ some m')
    × TextAt m' buffer s
    × IsDecimal s
    × (decimal 0 s ≡ i)
    × (0 < length s)
    × (length s ≤ 10)
    × ((x : ℕ) → within buffer (length s + 1) x ≡ false → m' x ≡ m x)

end_and_reverse_lem :
    (m g : Mem) (p n i : ℕ)
    → Wrote m g p n i
    → 0 < n
    → n ≤ 10
    → IsDecimalText m p i (end_and_reverse p (some (g, n)))
unfolding finish
end_and_reverse_lem m g p n i w a b =
    let r = finish-Printed m g p n i w a in
    (
      finish m g p n i w,
      bytes (finish m g p n i w) p n,
      refl,
      r.text,
      r.digits,
      r.value,
      omega (arith, length-bytes (finish m g p n i w) p n),
      omega (arith, length-bytes (finish m g p n i w) p n),
      r.same,
    )

at_least : (m g : Mem) (p n i : ℕ) → i ≢ 0 → Wrote m g p n i → 0 < n
unfolding decimal_low
at_least m g p zero i ne w = absurd (ne (sym w.value))
at_least m g p (suc n) i ne w = omega arith

-- `tostr_u` with more fuel than `i`, an uint32_t, ends and leaves the decimal text of `i` at
-- `buffer`: read back it gives `i`, it has from one to ten digits, and nothing is written outside
-- the text and its terminator.
pub tostr_u-decimal :
    (m : Mem) (fuel buffer i : ℕ)
    → i < fuel
    → i < 2 ^ 32
    → IsDecimalText m buffer i (tostr_u fuel m buffer i)
unfolding tostr_u
tostr_u-decimal m fuel buffer i f h = elim (Bool-cases (i == 0)) [
  | inl e ↦ rw e (
      end_and_reverse_lem m (store m buffer 48) buffer 1 i
        (subst (Wrote m (store m buffer 48) buffer 1) (ground arith) (Wrote-zero m buffer))
        (omega arith) (omega arith))
  | inr e ↦
      let (m', n, run, w, short) = digits_loop-Wrote fuel m buffer 0 i f in
      rw (e, run)
        (subst (λ k. IsDecimalText m buffer i (end_and_reverse buffer (some (m', k)))) (omega arith)
          (end_and_reverse_lem m m' buffer n i (subst (λ q. Wrote m m' q n i) (omega arith) w)
            (at_least m m' buffer n i (ground arith)
              (subst (λ q. Wrote m m' q n i) (omega arith) w))
            (short 10 (omega arith))))
]
