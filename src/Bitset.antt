-- ===== src/Bitset.antt =====
-- src/bitset.c and src/bitset.h: the map of page frames, a bit for each, the highest bit of a byte
-- first. The bytes stand in the memory of Memory.antt; every operation takes and returns it.
pub mod Bits
pub mod Laws
use eedox.Base.{
  ℕ, zero, suc, ◌+◌, ◌-◌, ◌*◌, ◌/◌, ◌%◌, ◌^◌, ◌≤◌, ◌<◌, min, max, ◌≡◌, ◌≢◌, ◌↔◌, ◌⊎◌, inl, inr,
  refl, sym, ap, ap₂, ◌∙◌, subst, fun_ext, Bool, true, false, ◌&&◌, ◌||◌, not, Option, none, some,
  List, [], ◌∷◌, ◌++◌, map, append-nil, append_assoc, arith, ltb, leb, ◌==◌, if◌then◌else◌, u32,
  sub32, ==_iff, Bool-cases, Option-cases, length, get_elem?, set, take, drop, length-append,
  length-set, get_elem?-set_self, get_elem?-set_ne, length-take, length-drop,
}
use eedox.Base.Int.{ℤ, pos, negsuc, pos_part, neg_part, sub_ℕ, ◌+ℤ◌, ◌-ℤ◌, ◌≤ℤ◌, leb_ℤ, ltb_ℤ}
use Prim.Native.Nat.{bit_and, bit_or}
use eedox.Memory.{Mem, store}

pub record Bitset : Type 0 where
  pub start : ℕ
  pub len : ℕ

-- The loop of `bitset_init`, from byte `i`, with `n` rounds left.
unfoldable pub clear_bytes : Mem → ℕ → ℕ → ℕ → Mem
clear_bytes m start i zero = m
clear_bytes m start i (suc n) = clear_bytes (store m (start + i) 0) start (i + 1) n

unfoldable pub bitset_init : Mem → ℕ → ℕ → Bitset × Mem
bitset_init m start len = (record { start = start; len = len }, clear_bytes m start 0 (len / 8))

-- The bit `k` of a byte, as the code tests it.
unfoldable pub get_bit : ℕ → ℕ → ℕ
get_bit byte k = if bit_and byte (0x80 / 2 ^ k) == 0 then 0 else 1

-- The byte after `|= (val * 0x80) >> k`; `val` is an uint8_t.
unfoldable pub or_bit : ℕ → ℕ → ℕ → ℕ
or_bit byte val k = bit_or byte (val * 0x80 / 2 ^ k) % 256

unfoldable pub bitset_get : Mem → Bitset → ℕ → ℕ
bitset_get m bs index = get_bit (m (bs.start + index / 8)) (index % 8)

unfoldable pub bitset_set : Mem → Bitset → ℕ → ℕ → Mem
bitset_set m bs index val =
    store m (bs.start + index / 8) (or_bit (m (bs.start + index / 8)) val (index % 8))

-- The inner loop of `bitset_first_unset` over the byte `i`, from bit `j`, with `n` rounds left.
unfoldable pub scan_byte : Mem → Bitset → ℕ → ℕ → ℕ → Option ℕ
scan_byte m bs i j zero = none
scan_byte m bs i j (suc n) =
    let rest = scan_byte m bs i (j + 1) n in
    if bitset_get m bs (i * 8 + j) == 0 then some (i * 8 + j) else rest

-- The outer loop, from byte `i`, with `n` rounds left.
unfoldable pub scan : Mem → Bitset → ℕ → ℕ → ℤ
scan m bs i zero = negsuc 0
scan m bs i (suc n) =
    let rest = scan m bs (i + 1) n in
    if m (bs.start + i) == 0xff
    then rest
    else elim (scan_byte m bs i 0 8) [ none ↦ rest | some idx ↦ pos idx ]

unfoldable pub bitset_first_unset : Mem → Bitset → ℤ
bitset_first_unset m bs = scan m bs 0 (bs.len / 8)
