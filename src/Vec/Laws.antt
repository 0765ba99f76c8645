-- ===== src/Vec/Laws.antt =====
-- The vector of src/vec.c holds a sequence of words within its capacity.
use eedox.Base.{
  ℕ, ◌+◌, ◌-◌, ◌*◌, ◌^◌, ◌≤◌, ◌<◌, min, ◌≡◌, inl, inr, arith, ltb, leb, ◌==◌, if◌then◌else◌,
  Bool-cases,
}
use eedox.Base.Int.{pos, negsuc}
use eedox.Memory.{store}
use eedox.Memory.Copy.{memshift-moved}
use eedox.Vec.{Vec, vec_pop, vec_erase, vec_resize, grow, vec_push, vec_insert}

-- The vector has room for its words, and its next growth, in bytes, does not wrap.
pub record IsValid (v : Vec) : Type 0 where
  pub some_room : 0 < v.cap
  pub within : v.size ≤ v.cap
  pub small : v.cap * 8 < 2 ^ 32

-- The words, by index: `f` below `n`.
pub record Holds (v : Vec) (n : ℕ) (f : ℕ → ℕ) : Type 0 where
  pub size : v.size ≡ n
  pub word : (k : ℕ) → k < n → v.buffer k ≡ f k

module _ (junk : ℕ → ℕ) where
  grow_lem :
      (v : Vec)
      → IsValid v
      → let w = grow junk v in
        (w.size ≡ v.size)
        × (w.size < w.cap)
        × (w.cap ≤ v.cap * 2)
        × ((k : ℕ) → k < v.size → w.buffer k ≡ v.buffer k)
  unfolding grow vec_resize
  grow_lem v is = (
    ground arith,
    ground (arith, is.some_room, is.within, is.small),
    ground (arith, is.small),
    λ k h. ground arith,
  )

  -- `vec_push` of a vector with room in memory puts the word behind the others, and leaves it a
  -- capacity that holds them.
  pub push-Holds :
      (v : Vec) (val : ℕ)
      → IsValid v
      → let w = vec_push junk v val in
        Holds w (v.size + 1) (λ k. if k == v.size then val else v.buffer k)
        × (w.size ≤ w.cap)
        × (0 < w.cap)
  unfolding vec_push store
  push-Holds v val is =
      let g = grow_lem v is in
      (
        record {
          size = omega (arith, g.0, is.within, is.small);
          word = λ k h. ground (arith, g.0, g.3 k);
        },
        omega (arith, g.0, g.1, is.within, is.small),
        omega (arith, g.1),
      )

  -- `vec_insert` of a vector within its capacity, of which the double in bytes is an uint32_t,
  -- puts the word at the index, or behind all words where there are not as many, moves what stood
  -- there up by one, and leaves the vector a capacity that holds them.
  pub insert-Holds :
      (v : Vec) (at val : ℕ)
      → IsValid v
      → let w = vec_insert junk v at val in
        Holds w (v.size + 1) (λ k.
          if k == min at v.size then val else if ltb k at then v.buffer k else v.buffer (k - 1))
        × (w.size ≤ w.cap)
        × (0 < w.cap)
  unfolding vec_insert store
  insert-Holds v at val is =
      let g = grow_lem v is in
      let p = push-Holds v val is in
      elim (Bool-cases (leb v.size at)) [
        | inl e ↦
            rw e (record { size = p.0.size; word = λ k h. ground (arith, p.0.word k) }, p.1, p.2)
        | inr e ↦ rw e (
          record {
            size = omega (arith, g.0, is.within, is.small);
            word = λ k h. ground (
              arith,
              g.0,
              g.3 k,
              g.3 (k - 1),
              memshift-moved (grow junk v).buffer at (pos 1) ((grow junk v).size - at) k,
            );
          },
          omega (arith, g.0, g.1, is.within, is.small),
          omega (arith, g.1),
        )
      ]

  -- `vec_pop` after `vec_push`, on a vector with room in memory, gives back the word, and a vector
  -- with the words from before.
  pub pop-push :
      (v : Vec) (val : ℕ)
      → IsValid v
      → let (out, w) = vec_pop (vec_push junk v val) in (out ≡ val) × Holds w v.size v.buffer
  unfolding vec_pop
  pop-push v val is =
      let p = push-Holds v val is in
      (
        ground (arith, p.0.size, p.0.word v.size, is.within, is.small),
        record {
          size = omega (arith, p.0.size, is.within, is.small);
          word = λ k h. ground (arith, p.0.word k, p.0.size);
        },
      )

-- `vec_erase` of a vector within its capacity takes out the words from the index on, `len` of them
-- or what there is, keeps the order of the others, and leaves the vector within its capacity, for
-- a range of which the end is an uint32_t.
pub erase-Holds :
    (v : Vec) (from len : ℕ)
    → IsValid v
    → from + len < 2 ^ 32
    → let w = vec_erase v from len in
      Holds w
        (v.size - min len (v.size - from))
        (λ k. if ltb k from then v.buffer k else v.buffer (k + len))
      × IsValid w
unfolding vec_erase
erase-Holds v from len is h =
    let m = memshift-moved v.buffer (from + len) (negsuc (len - 1)) (v.size - from - len) in
    (
      record { size = ground arith; word = λ k l. ground (arith, m k) },
      record {
        some_room = ground (arith, is.some_room);
        within = ground (arith, is.within);
        small = ground (arith, is.small);
      },
    )
