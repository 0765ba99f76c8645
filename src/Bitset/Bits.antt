-- ===== src/Bitset/Bits.antt =====
-- The bits of one byte, by checking all values.
use eedox.Base.{
  ℕ, zero, suc, ◌<◌, ◌≡◌, ◌⊎◌, refl, Bool, true, ◌&&◌, arith, ◌==◌, if◌then◌else◌, ==_iff,
}
use eedox.Bitset.{get_bit, or_bit}

-- Whether a test holds of each number under a bound.
passes : (ℕ → Bool) → ℕ → Bool
passes test zero = true
passes test (suc bound) = passes test bound && test bound

passes_lem : (test : ℕ → Bool) {bound k : ℕ} → k < bound → passes test bound ≡ true → test k ≡ true
unfolding passes
passes_lem test {bound = zero} l e = absurd (omega arith)
passes_lem test {bound = suc bound} {k = k} l e =
    let earlier : k < bound → test k ≡ true = λ b. passes_lem test b (ground arith) in
    ground (arith, earlier)

-- Setting the bit `k` sets it and leaves the other bits.
sets_one : ℕ → ℕ → ℕ → Bool
sets_one k j b = get_bit (or_bit b 1 k) j == (if k == j then 1 else get_bit b j)

set_table : passes (λ k. passes (λ j. passes (λ b. sets_one k j b) 256) 8) 8 ≡ true
unfolding passes sets_one get_bit or_bit
set_table = refl

pub get_bit-or_bit :
    (b k j : ℕ)
    → b < 256
    → k < 8
    → j < 8
    → get_bit (or_bit b 1 k) j ≡ (if k == j then 1 else get_bit b j)
unfolding sets_one
get_bit-or_bit b k j hb hk hj =
    let of_k = passes_lem (λ k. passes (λ j. passes (λ b. sets_one k j b) 256) 8) hk set_table in
    let of_j = passes_lem (λ j. passes (λ b. sets_one k j b) 256) hj of_k in
    (==_iff _ _).0 (passes_lem (λ b. sets_one k j b) hb of_j)

zero_table : passes (λ k. passes (λ b. or_bit b 0 k == b) 256) 8 ≡ true
unfolding passes or_bit
zero_table = refl

-- Setting a bit to 0 leaves the byte as it is.
pub or_bit-zero : (b k : ℕ) → b < 256 → k < 8 → or_bit b 0 k ≡ b
or_bit-zero b k hb hk =
    let of_k = passes_lem (λ k. passes (λ b. or_bit b 0 k == b) 256) hk zero_table in
    (==_iff _ _).0 (passes_lem (λ b. or_bit b 0 k == b) hb of_k)

ends_table : passes (λ k. (get_bit 0xff k == 1) && (get_bit 0 k == 0)) 8 ≡ true
unfolding passes get_bit
ends_table = refl

-- In the byte 0xff every bit is set, and in the byte 0 none.
pub get_bit_ends : (k : ℕ) → k < 8 → (get_bit 0xff k ≡ 1) × (get_bit 0 k ≡ 0)
get_bit_ends k hk =
    ground (arith, passes_lem (λ k. (get_bit 0xff k == 1) && (get_bit 0 k == 0)) hk ends_table)

pub get_bit_cases : (b k : ℕ) → (get_bit b k ≡ 0) ⊎ (get_bit b k ≡ 1)
unfolding get_bit
get_bit_cases b k = ground arith

pub or_bit-lt : (b v k : ℕ) → or_bit b v k < 256
unfolding or_bit
or_bit-lt b v k = omega arith
