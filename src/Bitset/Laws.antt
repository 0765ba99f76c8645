-- ===== src/Bitset/Laws.antt =====
-- What the operations of src/bitset.c do to the bits.
use eedox.Base.{
  ℕ, zero, suc, ◌+◌, ◌*◌, ◌/◌, ◌%◌, ◌≤◌, ◌<◌, ◌≡◌, inl, inr, subst, false, ◌&&◌, Option, none, some,
  arith, ltb, leb, ◌==◌, if◌then◌else◌, Bool-cases,
}
use eedox.Base.Int.{ℤ, pos, negsuc}
use eedox.Memory.{Mem, store}
use eedox.Bitset.{
  Bitset, clear_bytes, bitset_init, bitset_get, bitset_set, scan_byte, scan, bitset_first_unset,
}
use eedox.Bitset.Bits.{get_bit-or_bit, or_bit-zero, get_bit_ends, get_bit_cases, or_bit-lt}

abbrev pub IsBytes : Mem → Type 0
IsBytes m = (x : ℕ) → m x < 256

-- In a memory of bytes, after `bitset_set` with the value 1 that bit is set and all other bits are
-- as before, and memory still holds bytes.
pub get-set :
    (m : Mem) (bs : Bitset) (i j : ℕ)
    → IsBytes m
    → (bitset_get (bitset_set m bs i 1) bs j ≡ (if i == j then 1 else bitset_get m bs j))
      × IsBytes (bitset_set m bs i 1)
unfolding bitset_get bitset_set store
get-set m bs i j h = (
  ground (arith, get_bit-or_bit (m (bs.start + i / 8)) (i % 8) (j % 8) (h (bs.start + i / 8))),
  λ x. ground (arith, or_bit-lt (m (bs.start + i / 8)) 1 (i % 8), h x),
)

-- In a memory of bytes `bitset_set` with the value 0 changes no byte: it never clears a bit.
pub set_zero-id : (m : Mem) (bs : Bitset) (i x : ℕ) → IsBytes m → bitset_set m bs i 0 x ≡ m x
unfolding bitset_set store
set_zero-id m bs i x h =
    ground (arith, or_bit-zero (m (bs.start + i / 8)) (i % 8) (h (bs.start + i / 8)))

clear_bytes_lem :
    (m : Mem) (start i n x : ℕ)
    → clear_bytes m start i n x ≡ (if leb (start + i) x && ltb x (start + i + n) then 0 else m x)
unfolding clear_bytes store
clear_bytes_lem m start i zero x = ground arith
clear_bytes_lem m start i (suc n) x =
    ground (arith, clear_bytes_lem (store m (start + i) 0) start (i + 1) n x)

-- After `bitset_init` no bit of the whole bytes is set, and no byte outside them is written.
pub get-init :
    (m : Mem) (start len : ℕ)
    → let (bs, m') = bitset_init m start len in
      ((j : ℕ) → j / 8 < len / 8 → bitset_get m' bs j ≡ 0)
      × ((x : ℕ) → (leb start x && ltb x (start + len / 8)) ≡ false → m' x ≡ m x)
unfolding bitset_init bitset_get
get-init m start len = (
  λ j h.
      rw (clear_bytes_lem m start 0 (len / 8) (start + j / 8))
        (ground (arith, get_bit_ends (j % 8))),
  λ x h. ground (arith, clear_bytes_lem m start 0 (len / 8) x),
)

-- What a scan for an unset bit from `lo` up to `hi` has found.
abbrev pub Found : Mem → Bitset → ℕ → ℕ → Option ℕ → Type 0
Found m bs lo hi none = (j : ℕ) → lo ≤ j → j < hi → bitset_get m bs j ≡ 1
Found m bs lo hi (some idx) =
    (lo ≤ idx)
    × (idx < hi)
    × (bitset_get m bs idx ≡ 0)
    × ((j : ℕ) → lo ≤ j → j < idx → bitset_get m bs j ≡ 1)

bit_one : (m : Mem) (bs : Bitset) (j : ℕ) → (bitset_get m bs j == 0) ≡ false → bitset_get m bs j ≡ 1
unfolding bitset_get
bit_one m bs j h = ground (arith, get_bit_cases (m (bs.start + j / 8)) (j % 8))

Found-none-step :
    (m : Mem) (bs : Bitset) (lo mid hi : ℕ) (r : Option ℕ)
    → ((j : ℕ) → lo ≤ j → j < mid → bitset_get m bs j ≡ 1)
    → lo ≤ mid
    → Found m bs mid hi r
    → Found m bs lo hi r
Found-none-step m bs lo mid hi none a l f = λ j h k. elim (Bool-cases (ltb j mid)) [
  | inl e ↦ a j h (ground arith)
  | inr e ↦ f j (ground arith) k
]
Found-none-step m bs lo mid hi (some idx) a l f = (
  omega arith,
  f.1,
  f.2,
  λ j h k. elim (Bool-cases (ltb j mid)) [
    | inl e ↦ a j h (ground arith)
    | inr e ↦ f.3 j (ground arith) k
  ],
)

scan_byte-Found :
    (m : Mem) (bs : Bitset) (i j n hi : ℕ)
    → hi ≡ i * 8 + j + n
    → Found m bs (i * 8 + j) hi (scan_byte m bs i j n)
unfolding scan_byte
scan_byte-Found m bs i j zero hi e = λ k h l. absurd (omega arith)
scan_byte-Found m bs i j (suc n) hi e = elim (Bool-cases (bitset_get m bs (i * 8 + j) == 0)) [
  | inl p ↦ rw p (omega arith, omega arith, ground arith, λ k h l. absurd (omega arith))
  | inr p ↦ rw p (
      Found-none-step m bs (i * 8 + j) (i * 8 + (j + 1)) hi _
        (λ k h l. subst (λ x. bitset_get m bs x ≡ 1) (omega arith) (bit_one m bs (i * 8 + j) p))
        (omega arith) (scan_byte-Found m bs i (j + 1) n hi (omega arith)))
]

-- The result of `bitset_first_unset` as an option: -1 is none.
abbrev pub as_index : ℤ → Option ℕ
as_index (pos idx) = some idx
as_index (negsuc _) = none

full_byte :
    (m : Mem) (bs : Bitset) (i : ℕ)
    → m (bs.start + i) ≡ 0xff
    → (j : ℕ) → i * 8 ≤ j
    → j < i * 8 + 8
    → bitset_get m bs j ≡ 1
unfolding bitset_get
full_byte m bs i e j h l =
    let a : j / 8 ≡ i = omega arith in rw (a, e) (get_bit_ends (j % 8) (omega arith)).0

byte_then_rest :
    (m : Mem) (bs : Bitset) (lo mid hi : ℕ) (rest : ℤ) (r : Option ℕ)
    → lo ≤ mid
    → mid ≤ hi
    → Found m bs lo mid r
    → Found m bs mid hi (as_index rest)
    → Found m bs lo hi (as_index (elim r [ none ↦ rest | some idx ↦ pos idx ]))
byte_then_rest m bs lo mid hi rest none a b f g =
    Found-none-step m bs lo mid hi (as_index rest) f a g
byte_then_rest m bs lo mid hi rest (some idx) a b f g = (f.0, omega arith, f.2, f.3)

scan-Found :
    (m : Mem) (bs : Bitset) (i n hi : ℕ)
    → hi ≡ (i + n) * 8
    → Found m bs (i * 8) hi (as_index (scan m bs i n))
unfolding scan
scan-Found m bs i zero hi e = λ k h l. absurd (omega arith)
scan-Found m bs i (suc n) hi e = elim (Bool-cases (m (bs.start + i) == 0xff)) [
  | inl p ↦ rw p (
      Found-none-step m bs (i * 8) ((i + 1) * 8) hi _
        (λ k h l. full_byte m bs i (ground arith) k h (omega arith)) (omega arith)
        (scan-Found m bs (i + 1) n hi (omega arith)))
  | inr p ↦ rw p (
      byte_then_rest m bs (i * 8) ((i + 1) * 8) hi (scan m bs (i + 1) n) (scan_byte m bs i 0 8)
        (omega arith) (omega arith)
        (subst (λ k. Found m bs k ((i + 1) * 8) (scan_byte m bs i 0 8)) (omega arith)
          (scan_byte-Found m bs i 0 8 ((i + 1) * 8) (omega arith)))
        (scan-Found m bs (i + 1) n hi (omega arith)))
]

-- `bitset_first_unset` returns the lowest index whose bit is not set, or a negative number when every
-- bit of the whole bytes is set.
pub first_unset-Found :
    (m : Mem) (bs : Bitset) → Found m bs 0 (bs.len / 8 * 8) (as_index (bitset_first_unset m bs))
unfolding bitset_first_unset
first_unset-Found m bs = scan-Found m bs 0 (bs.len / 8) (bs.len / 8 * 8) (omega arith)
