-- ===== src/Kstring.antt =====
-- src/kstring.c and src/kstring.h: a text that grows. Its buffer is given by the byte at each index;
-- `junk` is what a fresh buffer of `heap_alloc` holds, which is taken to return one. A text that is
-- passed in is given by its bytes and by its length, which is what `strlen` counts. The heap of a
-- text is left out: no operation looks at it but to allocate and to free.
pub mod Laws
use eedox.Base.{
  ℕ, zero, suc, ◌+◌, ◌-◌, ◌*◌, ◌/◌, ◌%◌, ◌^◌, ◌≤◌, ◌<◌, min, max, ◌≡◌, ◌≢◌, ◌↔◌, ◌⊎◌, inl, inr,
  refl, sym, ap, ap₂, ◌∙◌, subst, fun_ext, Bool, true, false, ◌&&◌, ◌||◌, not, Option, none, some,
  List, [], ◌∷◌, ◌++◌, map, append-nil, append_assoc, arith, ltb, leb, ◌==◌, if◌then◌else◌, u32,
  sub32, ==_iff, Bool-cases, Option-cases, length, get_elem?, set, take, drop, length-append,
  length-set, get_elem?-set_self, get_elem?-set_ne, length-take, length-drop,
}
use eedox.Base.Int.{ℤ, pos, negsuc, pos_part, neg_part, sub_ℕ, ◌+ℤ◌, ◌-ℤ◌, ◌≤ℤ◌, leb_ℤ, ltb_ℤ}
use eedox.Memory.{Mem, store, copied, memshift}

-- `kstring_t`
pub record Kstring : Type 0 where
  pub buffer : Mem
  pub cap : ℕ
  pub size : ℕ

abbrev pub kstring_init_cap : ℕ
kstring_init_cap = 4

-- `while (cap < size) cap *= 2`; `none` is a loop that ran out of fuel.
unfoldable pub double_to : ℕ → ℕ → ℕ → Option ℕ
double_to zero cap size = none
double_to (suc fuel) cap size =
    let rest = double_to fuel (u32 (cap * 2)) size in if ltb cap size then rest else some cap

-- The length of the text in the buffer, which ends at `size` at the latest: from index `i`, with `n`
-- bytes left.
unfoldable pub text_end : Mem → ℕ → ℕ → ℕ
text_end buffer i zero = i
text_end buffer i (suc n) =
    let rest = text_end buffer (i + 1) n in if buffer i == 0 then i else rest

unfoldable pub kstring_size : Kstring → ℕ
kstring_size kstr = kstr.size

unfoldable pub kstring_cap : Kstring → ℕ
kstring_cap kstr = kstr.cap

unfoldable pub kstring_str : Kstring → Mem
kstring_str kstr = kstr.buffer

unfoldable pub kstring_clear : Kstring → Kstring
kstring_clear kstr = record kstr { buffer = store kstr.buffer 0 0; size = 0 }

-- The length of the move is an int32_t, below zero.
unfoldable pub kstring_erase : Kstring → ℕ → ℕ → Kstring
kstring_erase kstr at len =
    if leb kstr.size (u32 (at + len))
    then (if ltb at kstr.size
        then record kstr { buffer = store kstr.buffer at 0; size = at }
        else kstr)
    else record kstr {
      buffer =
          store
            (if len == 0
              then kstr.buffer
              else memshift kstr.buffer (at + len) (negsuc (len - 1)) (kstr.size - at - len))
            (kstr.size - len) 0;
      size = kstr.size - len;
    }

abbrev pub option_map : {A B : Type 0} → (A → B) → Option A → Option B
option_map f none = none
option_map f (some a) = some (f a)

module _ (junk : Mem) where
  unfoldable pub kstring_new_sh : ℕ → Kstring
  kstring_new_sh size = record { buffer = store junk 0 0; cap = size; size = 0 }

  unfoldable pub kstring_new : Kstring
  unfolding kstring_new_sh
  kstring_new = kstring_new_sh kstring_init_cap

  -- `kstring_from_h` with the capacity that its loop has found.
  abbrev pub from_with_cap : Mem → ℕ → ℕ → Kstring
  from_with_cap str size cap = record {
    buffer = store (copied (kstring_new_sh cap).buffer 0 str size) size 0;
    cap = cap;
    size = size;
  }

  unfoldable pub kstring_from : ℕ → Mem → ℕ → Option Kstring
  kstring_from fuel str size =
      option_map (from_with_cap str size) (double_to fuel kstring_init_cap size)

  unfoldable pub kstring_resize : Kstring → ℕ → Kstring
  kstring_resize kstr size =
      if leb kstr.size size && not (size == 0)
      then record kstr {
        buffer = store (copied junk 0 kstr.buffer (text_end kstr.buffer 0 kstr.size)) kstr.size 0;
        cap = size;
      }
      else kstr

  unfoldable pub kstring_fit : Kstring → Kstring
  unfolding kstring_resize
  kstring_fit kstr = kstring_resize kstr kstr.size

  -- The growth of `kstring_push`.
  unfoldable pub room_for_one : Kstring → Kstring
  room_for_one kstr =
      if kstr.size == kstr.cap then kstring_resize kstr (u32 (kstr.cap * 2)) else kstr

  unfoldable pub kstring_push : Kstring → ℕ → Kstring
  kstring_push kstr c =
      let k = room_for_one kstr in
      record k {
        buffer = store (store k.buffer k.size c) (u32 (k.size + 1)) 0;
        size = u32 (k.size + 1);
      }

  -- The growth of `kstring_append` and `kstring_insert`, with the capacity that the loop has found.
  unfoldable pub room_for : ℕ → Kstring → ℕ → Option Kstring
  room_for fuel kstr new_size =
      if ltb kstr.cap new_size
      then option_map (kstring_resize kstr) (double_to fuel kstr.cap new_size)
      else some kstr

  -- The text behind the others, once there is room for it.
  abbrev pub appended : Mem → ℕ → Kstring → Kstring
  appended str str_size k = record k {
    buffer = store (copied k.buffer k.size str str_size) (u32 (k.size + str_size)) 0;
    size = u32 (k.size + str_size);
  }

  unfoldable pub kstring_append : ℕ → Kstring → Mem → ℕ → Option Kstring
  kstring_append fuel kstr str str_size =
      option_map (appended str str_size) (room_for fuel kstr (u32 (kstr.size + str_size)))

  abbrev pub inserted : ℕ → Mem → ℕ → Kstring → Kstring
  inserted at str str_size k = record k {
    buffer =
        store (copied (memshift k.buffer at (pos str_size) (k.size - at)) at str str_size)
          (u32 (k.size + str_size)) 0;
    size = u32 (k.size + str_size);
  }

  unfoldable pub kstring_insert : ℕ → Kstring → ℕ → Mem → ℕ → Option Kstring
  kstring_insert fuel kstr at str str_size =
      let rest =
        option_map (inserted at str str_size) (room_for fuel kstr (u32 (kstr.size + str_size))) in
      if leb kstr.size at then kstring_append fuel kstr str str_size else rest

  unfoldable pub kstring_assign : ℕ → Kstring → Mem → ℕ → Option Kstring
  kstring_assign fuel kstr str size = kstring_from fuel str size

  -- The bytes are not copied.
  unfoldable pub kstring_copy : Kstring → Kstring
  kstring_copy kstr = record kstr { buffer = junk }
