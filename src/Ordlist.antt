-- ===== src/Ordlist.antt =====
-- src/ordlist.c and src/ordlist.h: an array of pointers that insertion keeps in order. The array is
-- given by the word at each index; the source checks no bound of it, so the model has none. An array of
-- pointers of 4 bytes has less than 2^30 of them, so `size` does not wrap when it grows.
pub mod Order
pub mod Held
use eedox.Base.{
  ℕ, zero, suc, ◌+◌, ◌-◌, ◌*◌, ◌/◌, ◌%◌, ◌^◌, ◌≤◌, ◌<◌, min, max, ◌≡◌, ◌≢◌, ◌↔◌, ◌⊎◌, inl, inr,
  refl, sym, ap, ap₂, ◌∙◌, subst, fun_ext, Bool, true, false, ◌&&◌, ◌||◌, not, Option, none, some,
  List, [], ◌∷◌, ◌++◌, map, append-nil, append_assoc, arith, ltb, leb, ◌==◌, if◌then◌else◌, u32,
  sub32, ==_iff, Bool-cases, Option-cases, length, get_elem?, set, take, drop, length-append,
  length-set, get_elem?-set_self, get_elem?-set_ne, length-take, length-drop,
}
use eedox.Base.Int.{ℤ, pos, negsuc, pos_part, neg_part, sub_ℕ, ◌+ℤ◌, ◌-ℤ◌, ◌≤ℤ◌, leb_ℤ, ltb_ℤ}
use eedox.Memory.{Mem, store}

pub data OrderKind : Type 0 where
  ascending descending : OrderKind

-- `cmp` returns an int8_t.
pub record Ordlist : Type 0 where
  pub size : ℕ
  pub max_size : ℕ
  pub array : ℕ → ℕ
  pub cmp : ℕ → ℕ → ℤ
  pub order : OrderKind

abbrev pub is_int : ℤ → ℤ → Bool
is_int (pos a) (pos b) = a == b
is_int (negsuc a) (negsuc b) = a == b
is_int _ _ = false

-- The two comparisons of the loop of `ordlist_insert`: `held` has to stand behind `elem`.
unfoldable pub is_behind : (ℕ → ℕ → ℤ) → OrderKind → ℕ → ℕ → Bool
is_behind cmp ascending held elem = is_int (cmp held elem) (pos 1)
is_behind cmp descending held elem = is_int (cmp held elem) (negsuc 0)

-- The loop: shifts what stands behind `elem` up by one, and returns the free index.
unfoldable pub shift_up : (ℕ → ℕ → ℤ) → OrderKind → ℕ → Mem → ℕ → ℕ × Mem
shift_up cmp order elem array zero = (0, array)
shift_up cmp order elem array (suc i) =
    let rest = shift_up cmp order elem (store array (suc i) (array i)) i in
    if is_behind cmp order (array i) elem then rest else (suc i, array)

unfoldable pub ordlist_insert : Ordlist → ℕ → ℕ × Ordlist
ordlist_insert l elem =
    let (idx, array) = shift_up l.cmp l.order elem l.array l.size in
    (idx, record l { array = store array idx elem; size = l.size + 1 })

-- The loop of `ordlist_remove`, from index `i`, with `n` rounds left.
unfoldable pub shift_down : Mem → ℕ → ℕ → Mem
shift_down array i zero = array
shift_down array i (suc n) = shift_down (store array i (array (i + 1))) (i + 1) n

unfoldable pub ordlist_remove : Ordlist → ℕ → ℕ × Ordlist
ordlist_remove l idx = (
  l.array idx,
  record l {
    array = shift_down l.array idx (l.size - idx);
    size = if l.size == 0 then 2 ^ 32 - 1 else l.size - 1;
  },
)

unfoldable pub ordlist_get : Ordlist → ℕ → ℕ
ordlist_get l idx = l.array idx

unfoldable pub ordlist_size : Ordlist → ℕ
ordlist_size l = l.size

unfoldable pub ordlist_place : Mem → ℕ → OrderKind → (ℕ → ℕ → ℤ) → Ordlist
ordlist_place arr max_size order cmp = record {
  size = 0;
  max_size = max_size;
  array = arr;
  cmp = cmp;
  order = order;
}

unfoldable pub ordlist_clear : Ordlist → Ordlist
ordlist_clear l = record l { size = 0 }
