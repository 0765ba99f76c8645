-- ===== src/Memory/Search.antt =====
-- bin_search of src/util.c, over the word at each index. The index `to` of the source, which is an int32_t and
-- may be -1, is given by the one behind it; the length is below 2^30, so that `from + to` does not
-- wrap. `cmp` returns an int8_t.
use eedox.Base.{
  ℕ, zero, suc, ◌+◌, ◌-◌, ◌/◌, ◌≤◌, ◌<◌, ◌≡◌, inl, inr, refl, Bool, true, false, Option, none, some,
  arith, leb, ◌==◌, if◌then◌else◌, Bool-cases,
}
use eedox.Base.Int.{ℤ, pos, negsuc}

abbrev pub is_zero : ℤ → Bool
is_zero (pos n) = n == 0
is_zero (negsuc _) = false

abbrev pub is_one : ℤ → Bool
is_one (pos n) = n == 1
is_one (negsuc _) = false

-- `_bin_search` from `from` to before `last`; the length of the range is fuel enough. The
-- sum of two indexes is that of integers: an array of words has less than 2^30 of them, so it is an int.
unfoldable pub search_range : ℕ → (ℕ → ℕ) → ℕ → ℕ → ℕ → (ℕ → ℕ → ℤ) → Option ℤ
search_range zero ptr from last value cmp = none
search_range (suc fuel) ptr from last value cmp =
    let mid = (from + (last - 1)) / 2 in
    let lower = search_range fuel ptr from mid value cmp in
    let upper = search_range fuel ptr (mid + 1) last value cmp in
    if leb last from
    then some (negsuc 0)
    else if is_zero (cmp (ptr mid) value)
    then some (pos mid)
    else if is_one (cmp (ptr mid) value)
    then lower
    else upper

unfoldable pub bin_search : (ℕ → ℕ) → ℕ → ℕ → (ℕ → ℕ → ℤ) → Option ℤ
bin_search ptr len value cmp =
    if len == 0 then some (negsuc 0) else search_range (len + 1) ptr 0 len value cmp

-- What the search of the range from `lo` to before `hi` returns.
abbrev pub Found : (ℕ → ℤ) → ℕ → ℕ → Option ℤ → Type 0
Found c lo hi none = ⊥
Found c lo hi (some (pos k)) = (lo ≤ k) × (k < hi) × (is_zero (c k) ≡ true)
Found c lo hi (some (negsuc n)) = (n ≡ 0) × ((k : ℕ) → lo ≤ k → k < hi → is_zero (c k) ≡ false)

-- The words stand in order about the value: behind a greater one are greater ones, and before one that
-- is neither greater nor the same there is none of either.
pub record IsSortedFor (c : ℕ → ℤ) (len : ℕ) : Type 0 where
  pub above : (i j : ℕ) → i < j → j < len → is_one (c i) ≡ true → is_zero (c j) ≡ false
  pub below :
      (i j : ℕ)
      → i < j
      → j < len
      → is_zero (c j) ≡ false
      → is_one (c j) ≡ false
      → is_zero (c i) ≡ false

Found-wider :
    (c : ℕ → ℤ) (lo hi lo' hi' : ℕ) (r : Option ℤ)
    → lo ≤ lo'
    → hi' ≤ hi
    → ((k : ℕ) → lo ≤ k → k < lo' → is_zero (c k) ≡ false)
    → ((k : ℕ) → hi' ≤ k → k < hi → is_zero (c k) ≡ false)
    → Found c lo' hi' r
    → Found c lo hi r
Found-wider c lo hi lo' hi' none a b p q f = f
Found-wider c lo hi lo' hi' (some (pos k)) a b p q f = (omega arith, omega arith, f.2)
Found-wider c lo hi lo' hi' (some (negsuc n)) a b p q f =
    (f.0, λ k h l. ground (arith, p k, q k, f.1 k))

search_range-Found :
    (fuel : ℕ) (ptr : ℕ → ℕ) (from last len value : ℕ) (cmp : ℕ → ℕ → ℤ)
    → IsSortedFor (λ i. cmp (ptr i) value) len
    → last ≤ len
    → from ≤ last
    → last < from + fuel
    → Found (λ i. cmp (ptr i) value) from last (search_range fuel ptr from last value cmp)
unfolding search_range
search_range-Found zero ptr from last len value cmp s b w f = absurd (omega arith)
search_range-Found (suc fuel) ptr from last len value cmp s b w f =
    let mid = (from + (last - 1)) / 2 in
    elim (Bool-cases (leb last from)) [
      | inl e ↦ rw e (refl, λ k h l. absurd (ground arith))
      | inr e ↦ elim (Bool-cases (is_zero (cmp (ptr mid) value))) [
        | inl z ↦ rw (e, z) (ground arith, ground arith, z)
        | inr z ↦ elim (Bool-cases (is_one (cmp (ptr mid) value))) [
          | inl o ↦
              rw (e, z, o)
                (Found-wider (λ i. cmp (ptr i) value) from last from mid _ (omega arith)
                  (ground arith) (λ k h l. absurd (omega arith))
                  (λ k h l. ground (arith, z, s.above mid k))
                  (search_range-Found fuel ptr from mid len value cmp s (ground arith)
                    (ground arith) (ground arith)))
          | inr o ↦
              rw (e, z, o)
                (Found-wider (λ i. cmp (ptr i) value) from last (mid + 1) last _ (ground arith)
                  (omega arith) (λ k h l. ground (arith, z, o, s.below k mid))
                  (λ k h l. absurd (omega arith))
                  (search_range-Found fuel ptr (mid + 1) last len value cmp s b (ground arith)
                    (ground arith)))
        ]
      ]
    ]

-- `bin_search` in words that stand in order about the value ends, and returns an index at which a word
-- compares as the same, or -1 where there is none.
pub bin_search-Found :
    (ptr : ℕ → ℕ) (len value : ℕ) (cmp : ℕ → ℕ → ℤ)
    → IsSortedFor (λ i. cmp (ptr i) value) len
    → Found (λ i. cmp (ptr i) value) 0 len (bin_search ptr len value cmp)
unfolding bin_search
bin_search-Found ptr len value cmp s = elim (Bool-cases (len == 0)) [
  | inl e ↦ rw e (refl, λ k h l. absurd (ground arith))
  | inr e ↦ rw e (
      search_range-Found (len + 1) ptr 0 len len value cmp s (omega arith) (omega arith)
        (omega arith))
]
