-- ===== src/Text/Hex.antt =====
-- `tostr_x` of src/util.c: the eight digits that it writes, read back.
use eedox.Base.{
  ap, ℕ, zero, suc, ◌+◌, ◌-◌, ◌*◌, ◌/◌, ◌%◌, ◌^◌, ◌≤◌, ◌<◌, ◌≡◌, ◌⊎◌, inl, inr, refl, ◌∙◌, true,
  false, arith, ltb, if◌then◌else◌, Bool-cases,
}
use eedox.Memory.{Mem, store}
use eedox.Memory.Copy.{within}
use eedox.Text.{dec_to_hex, hex_loop, tostr_x}

abbrev pow16 : ℕ → ℕ
pow16 zero = 1
pow16 (suc k) = 16 * pow16 k

-- The value of a hexadecimal digit.
abbrev pub hex_digit : ℕ → ℕ
hex_digit c = if ltb c 58 then c - 48 else c - 87

abbrev pub IsHex : ℕ → Type 0
IsHex c = ((48 ≤ c) × (c < 58)) ⊎ ((97 ≤ c) × (c < 103))

-- `dec_to_hex` of a number below 16 is the digit of that value.
dec_to_hex_lem : (d : ℕ) → d < 16 → IsHex (dec_to_hex d) × (hex_digit (dec_to_hex d) ≡ d)
unfolding dec_to_hex
dec_to_hex_lem d h = (
  elim (Bool-cases (ltb d 10)) [ inl e ↦ inl (ground arith) | inr e ↦ inr (ground arith) ],
  ground arith,
)

-- The value of the `n` digits from `p` on, the highest first.
abbrev pub hex_at : ℕ → Mem → ℕ → ℕ → ℕ
hex_at acc m p zero = acc
hex_at acc m p (suc n) = hex_at (acc * 16 + hex_digit (m p)) m (p + 1) n

-- The value of the `n` digits that end at `p`, the lowest first.
hex_low : Mem → ℕ → ℕ → ℕ
hex_low m p zero = 0
hex_low m p (suc n) = hex_digit (m p) + 16 * hex_low m (p - 1) n

hex_low-congr :
    (m g : Mem) (p n : ℕ)
    → n ≤ p
    → ((x : ℕ) → p < x + n → x ≤ p → g x ≡ m x)
    → hex_low g p n ≡ hex_low m p n
unfolding hex_low
hex_low-congr m g p zero l h = refl
hex_low-congr m g p (suc n) l h = ground (
  arith,
  h p,
  hex_low-congr m g (p - 1) n (omega arith) (λ x a b. h x (omega arith) (omega arith)),
)

record HexWrote (m m' : Mem) (buffer i h n : ℕ) : Type 0 where
  value : h < pow16 n → hex_low m' (buffer + (9 - i)) n ≡ h
  digits : (x : ℕ) → within (buffer + 2) n x ≡ true → IsHex (m' x)
  same : (x : ℕ) → within (buffer + 2) n x ≡ false → m' x ≡ m x

HexWrote-digit :
    (n : ℕ) (m m' : Mem) (buffer i h : ℕ)
    → i + suc n ≡ 8
    → HexWrote (store m (buffer + (9 - i)) (dec_to_hex (h % 16))) m' buffer (i + 1) (h / 16) n
    → HexWrote m m' buffer i h (suc n)
unfolding hex_low store
HexWrote-digit n m m' buffer i h e w = record {
  value = λ b.
      let shift : buffer + (9 - i) - 1 ≡ buffer + (9 - (i + 1)) = omega arith in
      rw (first, shift, w.value (omega arith)) (omega (arith, dec_to_hex_lem (h % 16)));
  digits = λ x b. ground (arith, first, dec_to_hex_lem (h % 16), w.digits x);
  same = λ x b. ground (arith, w.same x);
}
  where
    first : m' (buffer + (9 - i)) ≡ dec_to_hex (h % 16)
    first = ground (arith, w.same (buffer + (9 - i)))

hex_loop-HexWrote :
    (n : ℕ) (m : Mem) (buffer i h : ℕ)
    → i + n ≡ 8
    → HexWrote m (hex_loop m buffer i h n) buffer i h n
unfolding hex_loop hex_low
hex_loop-HexWrote zero m buffer i h e = record {
  value = λ b. ground arith;
  digits = λ x w. absurd (ground arith);
  same = λ x w. refl;
}
hex_loop-HexWrote (suc n) m buffer i h e = HexWrote-digit n m _ buffer i h e (
    hex_loop-HexWrote n (store m (buffer + (9 - i)) (dec_to_hex (h % 16))) buffer (i + 1) (h / 16)
      (omega arith))

hex_at-snoc :
    (n acc : ℕ) (m : Mem) (p : ℕ)
    → hex_at acc m p (suc n) ≡ hex_at acc m p n * 16 + hex_digit (m (p + n))
hex_at-snoc zero acc m p = ap (λ k. acc * 16 + hex_digit (m k)) (omega arith)
hex_at-snoc (suc n) acc m p =
    hex_at-snoc n (acc * 16 + hex_digit (m p)) m (p + 1)
    ∙ ap (λ k. hex_at (acc * 16 + hex_digit (m p)) m (p + 1) n * 16 + hex_digit (m k)) (omega arith)

hex_at-hex_low : (n : ℕ) (m : Mem) (p : ℕ) → hex_at 0 m p n ≡ hex_low m (p + n - 1) n
unfolding hex_low
hex_at-hex_low zero m p = refl
hex_at-hex_low (suc n) m p =
    let e : p + suc n - 1 ≡ p + n = omega arith in
    rw (hex_at-snoc n 0 m p, hex_at-hex_low n m p, e) (omega arith)

-- `tostr_x` writes `0x`, then eight hexadecimal digits and the terminator: read back, the digits
-- give `h`, for an uint32_t, and nothing is written outside these eleven bytes.
pub tostr_x-IsHex :
    (m : Mem) (buffer h : ℕ)
    → h < 2 ^ 32
    → let m' = tostr_x m buffer h in
      (m' buffer ≡ b'0')
      × (m' (buffer + 1) ≡ b'x')
      × ((x : ℕ) → within (buffer + 2) 8 x ≡ true → IsHex (m' x))
      × (hex_at 0 m' (buffer + 2) 8 ≡ h)
      × (m' (buffer + 10) ≡ 0)
      × ((x : ℕ) → within buffer 11 x ≡ false → m' x ≡ m x)
unfolding tostr_x store
tostr_x-IsHex m buffer h b = (
  ground (arith, w.same buffer),
  ground (arith, w.same (buffer + 1)),
  w.digits,
  hex_at-hex_low 8 (tostr_x m buffer h) (buffer + 2)
      ∙ ap (λ k. hex_low (tostr_x m buffer h) k 8) (omega arith)
      ∙ w.value b,
  ground (arith, w.same (buffer + 10)),
  λ x o. ground (arith, w.same x),
)
  where
    w :
        HexWrote
          (store (store (store m buffer 48) (buffer + 1) 120) (buffer + 10) 0)
          (tostr_x m buffer h)
          buffer
          0
          h
          8
    w = hex_loop-HexWrote 8 _ buffer 0 h refl
