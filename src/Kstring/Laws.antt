-- ===== src/Kstring/Laws.antt =====
-- A text of src/kstring.c holds a sequence of characters, with a NUL behind it and within its capacity.
use eedox.Base.{
  ℕ, zero, suc, ◌+◌, ◌-◌, ◌*◌, ◌^◌, ◌≤◌, ◌<◌, min, max, ◌≡◌, ◌≢◌, inl, inr, refl, sym, ap, ◌∙◌,
  some, arith, ltb, leb, ◌==◌, if◌then◌else◌, u32, Bool-cases,
}
use eedox.Base.Int.{pos, negsuc}
use eedox.Memory.{Mem, store}
use eedox.Memory.Copy.{memshift-moved}
use eedox.Kstring.{
  option_map, appended, inserted, Kstring, double_to, text_end, kstring_erase, kstring_resize,
  room_for_one, kstring_push, room_for, kstring_append, kstring_insert,
}

-- The text: `f` below `n`. The buffer has room for the NUL behind the capacity.
pub record IsKstring (k : Kstring) (n : ℕ) (f : Mem) : Type 0 where
  pub size : k.size ≡ n
  pub byte : (i : ℕ) → i < n → k.buffer i ≡ f i
  pub char : (i : ℕ) → i < n → f i ≢ 0
  pub terminator : k.buffer n ≡ 0
  pub room : n ≤ k.cap
  pub some_room : 0 < k.cap

-- The loop ends, at a capacity that is large enough and at most twice as large as it has to be.
double_to_lem :
    (fuel cap size : ℕ)
    → 0 < cap
    → size ≤ 2 ^ 31
    → size - cap < fuel
    → (c : ℕ) × (double_to fuel cap size ≡ some c)
      × (size ≤ c)
      × (cap ≤ c)
      × (c ≤ max cap (2 * size))
unfolding double_to
double_to_lem zero cap size p b f = absurd (omega arith)
double_to_lem (suc fuel) cap size p b f = elim (Bool-cases (ltb cap size)) [
  | inl e ↦
      let (c, run, a, b', d) =
        double_to_lem fuel (u32 (cap * 2)) size (ground arith) b (ground arith) in
      rw e (c, run, a, ground arith, ground arith)
  | inr e ↦ rw e (cap, refl, ground arith, omega arith, omega arith)
]

text_end_lem :
    (buffer : Mem) (i n : ℕ)
    → ((j : ℕ) → i ≤ j → j < i + n → buffer j ≢ 0)
    → text_end buffer i n ≡ i + n
unfolding text_end
text_end_lem buffer i zero h = omega arith
text_end_lem buffer i (suc n) h =
    ground (arith, h i, text_end_lem buffer (i + 1) n (λ j a b. h j (omega arith) (omega arith)))

module _ (junk : Mem) {k : Kstring} {n : ℕ} {f : Mem} (is : IsKstring k n f) where
  end-size : text_end k.buffer 0 k.size ≡ n
  end-size = rw is.size (
      text_end_lem k.buffer 0 n
        (λ j a b e. is.char j (omega arith) (sym (is.byte j (omega arith)) ∙ e))
      ∙ omega arith)

  resize-IsKstring :
      (cap : ℕ)
      → n ≤ cap
      → 0 < cap
      → IsKstring (kstring_resize junk k cap) n f × ((kstring_resize junk k cap).cap ≡ cap)
  unfolding kstring_resize store
  resize-IsKstring cap h p = (
    record {
      size = ground (arith, is.size);
      byte = λ i l. ground (arith, is.size, is.byte i, end-size);
      char = is.char;
      terminator = ground (arith, is.size, end-size);
      room = ground (arith, is.size);
      some_room = ground (arith, is.size);
    },
    ground (arith, is.size),
  )

  one-IsKstring :
      k.cap < 2 ^ 31 → IsKstring (room_for_one junk k) n f × (n < (room_for_one junk k).cap)
  unfolding room_for_one
  one-IsKstring b =
      let r =
        resize-IsKstring (u32 (k.cap * 2)) (omega (arith, is.room, is.some_room))
          (omega (arith, is.some_room)) in
      elim (Bool-cases (k.size == k.cap)) [
        | inl e ↦ rw e (r.0, omega (arith, r.1, is.room, is.some_room))
        | inr e ↦ rw e (is, ground (arith, is.room, is.size))
      ]

  -- `kstring_push` of a character to a text with a capacity below 2^31 puts it behind the others,
  -- with room for it, and a NUL behind it.
  pub push-IsKstring :
      (c : ℕ)
      → c ≢ 0
      → k.cap < 2 ^ 31
      → IsKstring (kstring_push junk k c) (n + 1) (λ i. if i == n then c else f i)
  unfolding kstring_push store
  push-IsKstring c ne b =
      let (r, room) = one-IsKstring b in
      record {
        size = omega (arith, r.size, is.room);
        byte = λ i l. ground (arith, r.size, r.byte i, is.room);
        char = λ i l. ground (arith, is.char i);
        terminator = ground (arith, r.size, is.room);
        room = omega (arith, r.size, room);
        some_room = omega (arith, room);
      }

  room_for-IsKstring :
      (fuel new_size : ℕ)
      → n ≤ new_size
      → new_size ≤ 2 ^ 31
      → new_size - k.cap < fuel
      → (k' : Kstring) × (room_for junk fuel k new_size ≡ some k')
        × IsKstring k' n f
        × (new_size ≤ k'.cap)
  unfolding room_for
  room_for-IsKstring fuel new_size h b l = elim (Bool-cases (ltb k.cap new_size)) [
    | inl e ↦
        let (c, run, a, d, m) = double_to_lem fuel k.cap new_size is.some_room b l in
        let r = resize-IsKstring c (omega arith) (omega (arith, is.some_room)) in
        (kstring_resize junk k c, rw (e, run), r.0, omega (arith, r.1))
    | inr e ↦ (k, rw e, is, ground arith)
  ]

  -- `kstring_append` of a text without NUL, with up to 2^31 characters in all, ends with more
  -- fuel than there are, and puts the characters of the text behind the others, with room for
  -- them and a NUL behind them.
  pub append-IsKstring :
      (fuel : ℕ) (str : Mem) (len : ℕ)
      → ((i : ℕ) → i < len → str i ≢ 0)
      → n + len ≤ 2 ^ 31
      → n + len < fuel
      → (k' : Kstring) × (kstring_append junk fuel k str len ≡ some k')
        × IsKstring k' (n + len) (λ i. if ltb i n then f i else str (i - n))
  unfolding kstring_append store
  append-IsKstring fuel str len chars b l =
      let e : u32 (k.size + len) ≡ n + len = omega (arith, is.size) in
      let (k', run, r, room) = room_for-IsKstring fuel (n + len) (omega arith) b (omega arith) in
      (
        appended junk str len k',
        ap (option_map (appended junk str len)) (ap (room_for junk fuel k) e ∙ run),
        record {
          size = omega (arith, r.size);
          byte = λ i h. ground (arith, r.size, r.byte i);
          char = λ i h. ground (arith, is.char i, chars (i - n));
          terminator = ground (arith, r.size);
          room = room;
          some_room = r.some_room;
        },
      )

  -- `kstring_insert` of a text without NUL, with up to 2^31 characters in all, ends with more
  -- fuel than there are, and puts the characters of the text at the index, or behind all
  -- characters where there are not as many, and moves up what stood from there on; the text has
  -- room and a NUL behind it.
  pub insert-IsKstring :
      (fuel at : ℕ) (str : Mem) (len : ℕ)
      → ((i : ℕ) → i < len → str i ≢ 0)
      → n + len ≤ 2 ^ 31
      → n + len < fuel
      → (k' : Kstring) × (kstring_insert junk fuel k at str len ≡ some k')
        × IsKstring k' (n + len) (λ i.
          if ltb i (min at n)
          then f i
          else if ltb i (min at n + len)
          then str (i - min at n)
          else f (i - len))
  unfolding kstring_insert store
  insert-IsKstring fuel at str len chars b l = elim (Bool-cases (leb k.size at)) [
    | inl e ↦
        let (k', run, r) = append-IsKstring fuel str len chars b l in
        (
          k',
          rw (e, run) refl,
          record {
            size = r.size;
            byte = λ i h. ground (arith, r.byte i, is.size);
            char = λ i h. ground (arith, r.char i, is.size);
            terminator = r.terminator;
            room = r.room;
            some_room = r.some_room;
          },
        )
    | inr e ↦
        let e' : u32 (k.size + len) ≡ n + len = omega (arith, is.size) in
        let (k', run, r, room) = room_for-IsKstring fuel (n + len) (omega arith) b (omega arith) in
        let below : at < n = ground (arith, is.size) in
        (
          inserted junk at str len k',
          rw e (ap (option_map (inserted junk at str len)) (ap (room_for junk fuel k) e' ∙ run)),
          record {
            size = omega (arith, r.size);
            byte = λ i h. ground (
              arith,
              r.size,
              r.byte i,
              r.byte (i - len),
              memshift-moved k'.buffer at (pos len) (k'.size - at) i,
            );
            char = λ i h. ground (arith, is.char i, is.char (i - len), chars (i - at));
            terminator = ground (arith, r.size);
            room = room;
            some_room = r.some_room;
          },
        )
  ]

  -- `kstring_erase` takes out the characters from the index on, `len` of them or what there is, for a
  -- range of which the end is an uint32_t, and keeps the order of the others.
  pub erase-IsKstring :
      (at len : ℕ)
      → at + len < 2 ^ 32
      → IsKstring
          (kstring_erase k at len)
          (n - min len (n - at))
          (λ i. if ltb i at then f i else f (i + len))
  unfolding kstring_erase store
  erase-IsKstring at len b = record {
    size = ground (arith, is.size);
    byte = λ i h. ground (
      arith,
      is.size,
      is.byte i,
      is.byte (i + len),
      memshift-moved k.buffer (at + len) (negsuc (len - 1)) (k.size - at - len) i,
    );
    char = λ i h. ground (arith, is.char i, is.char (i + len));
    terminator = ground (arith, is.size, is.terminator);
    room = ground (arith, is.room);
    some_room = ground (arith, is.some_room);
  }
