-- ===== src/Vec.antt =====
-- src/vec.c and src/vec.h: a vector of words that grows. Its buffer is given by the word at each index;
-- `junk` is what a fresh buffer of `heap_alloc` holds, which is taken to return one. The moves of
-- whole words are those of memcpy and memshift, four bytes to a word. The heap of a vector is left
-- out: no operation looks at it but to allocate and to free.
pub mod Laws
use eedox.Base.{
  ℕ, zero, suc, ◌+◌, ◌-◌, ◌*◌, ◌/◌, ◌%◌, ◌^◌, ◌≤◌, ◌<◌, min, max, ◌≡◌, ◌≢◌, ◌↔◌, ◌⊎◌, inl, inr,
  refl, sym, ap, ap₂, ◌∙◌, subst, fun_ext, Bool, true, false, ◌&&◌, ◌||◌, not, Option, none, some,
  List, [], ◌∷◌, ◌++◌, map, append-nil, append_assoc, arith, ltb, leb, ◌==◌, if◌then◌else◌, u32,
  sub32, ==_iff, Bool-cases, Option-cases, length, get_elem?, set, take, drop, length-append,
  length-set, get_elem?-set_self, get_elem?-set_ne, length-take, length-drop,
}
use eedox.Base.Int.{ℤ, pos, negsuc, pos_part, neg_part, sub_ℕ, ◌+ℤ◌, ◌-ℤ◌, ◌≤ℤ◌, leb_ℤ, ltb_ℤ}
use eedox.Memory.{Mem, store, memshift}
use eedox.Text.{max_u}

pub record Vec : Type 0 where
  pub buffer : ℕ → ℕ
  pub size : ℕ
  pub cap : ℕ

-- VEC_INIT_CAP
abbrev pub vec_init_cap : ℕ
vec_init_cap = 4

-- `memcpy` of `n` words to the start of a fresh buffer, as Memory/Copy.antt proves it.
abbrev pub copy_words : (ℕ → ℕ) → (ℕ → ℕ) → ℕ → ℕ → ℕ
copy_words dest src n i = if ltb i n then src i else dest i

unfoldable pub vec_pop : Vec → ℕ × Vec
vec_pop vec = (vec.buffer (sub32 vec.size 1), record vec { size = sub32 vec.size 1 })

unfoldable pub vec_size : Vec → ℕ
vec_size vec = vec.size

unfoldable pub vec_cap : Vec → ℕ
vec_cap vec = vec.cap

unfoldable pub vec_clear : Vec → Vec
vec_clear vec = record vec { size = 0 }

-- The length of the move is an int32_t, below zero.
unfoldable pub vec_erase : Vec → ℕ → ℕ → Vec
vec_erase vec from len =
    if leb vec.size (u32 (from + len))
    then if ltb from vec.size then record vec { size = from } else vec
    else record vec {
      buffer =
          if len == 0
          then vec.buffer
          else memshift vec.buffer (from + len) (negsuc (len - 1)) (vec.size - from - len);
      size = vec.size - len;
    }

module _ (junk : ℕ → ℕ) where
  unfoldable pub vec_new_sh : ℕ → Vec
  vec_new_sh size = record { buffer = junk; size = 0; cap = max_u 1 size }

  unfoldable pub vec_new : Vec
  unfolding vec_new_sh
  vec_new = vec_new_sh vec_init_cap

  unfoldable pub vec_resize : Vec → ℕ → Vec
  vec_resize vec size =
      if leb vec.size size
      then record vec { buffer = copy_words junk vec.buffer vec.size; cap = size }
      else vec

  unfoldable pub vec_fit : Vec → Vec
  unfolding vec_resize
  vec_fit vec = vec_resize vec vec.size

  -- `if (vec->size == vec->cap) vec_resize(vec, vec->cap * 2)`
  unfoldable pub grow : Vec → Vec
  unfolding vec_resize
  grow vec = if vec.size == vec.cap then vec_resize vec (u32 (vec.cap * 2)) else vec

  unfoldable pub vec_push : Vec → ℕ → Vec
  unfolding grow
  vec_push vec val =
      let v = grow vec in record v { buffer = store v.buffer v.size val; size = u32 (v.size + 1) }

  unfoldable pub vec_insert : Vec → ℕ → ℕ → Vec
  unfolding grow vec_push
  vec_insert vec at val =
      let v = grow vec in
      if leb vec.size at then vec_push vec val else record v {
        buffer = store (memshift v.buffer at (pos 1) (v.size - at)) at val;
        size = u32 (v.size + 1);
      }

  unfoldable pub vec_copy : Vec → Vec
  vec_copy vec = record vec { buffer = copy_words junk vec.buffer vec.size }
