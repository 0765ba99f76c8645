-- ===== src/Pathbuf/Valid.antt =====
-- What each operation of src/pathbuf.c makes is a path again.
use eedox.Base.{
  ℕ, zero, suc, ◌≡◌, ◌≢◌, inl, inr, refl, ap, Bool, true, false, List, [], ◌∷◌, ◌++◌, arith, ◌==◌,
  Bool-cases, length,
}
use eedox.Mq.{same_text}
use eedox.Pathbuf.{
  Name, Pathbuf, dot, dot_dot, drop_last, Place, up, ParseState, end_field, pathbuf_root,
  parse_char, parse_loop, starts_with_slash, pathbuf_parse, join_back, pathbuf_join,
}
use eedox.Pathbuf.Parse.{
  HasNoSlash, none_left, one_more, IsField, AllFields, no_field, one_field, IsPath, at_field,
}

-- The state of the loop, between any two characters.
record IsState (a : Bool) (s : ParseState) : Type 0 where
  fields : AllFields s.place.fields
  back : a ≡ true → s.place.back ≡ 0
  no_slash : HasNoSlash s.buffer

HasNoSlash-append : {f : Name} → HasNoSlash f → {c : ℕ} → c ≢ b'/' → HasNoSlash (f ++ (c ∷ []))
HasNoSlash-append none_left n = one_more n none_left
HasNoSlash-append (one_more m h) n = one_more m (HasNoSlash-append h n)

AllFields-append :
    {fs : List Name} → AllFields fs → {gs : List Name} → AllFields gs → AllFields (fs ++ gs)
AllFields-append no_field h = h
AllFields-append (one_field is h) k = one_field is (AllFields-append h k)

AllFields-drop_last : {fs : List Name} → AllFields fs → AllFields (drop_last fs)
unfolding drop_last
AllFields-drop_last no_field = no_field
AllFields-drop_last (one_field is no_field) = no_field
AllFields-drop_last (one_field is (one_field is' h)) =
    one_field is (AllFields-drop_last (one_field is' h))

-- A place of a path.
record IsPlace (a : Bool) (p : Place) : Type 0 where
  fields : AllFields p.fields
  back : a ≡ true → p.back ≡ 0

up-IsPlace :
    (a : Bool) {fs : List Name} {b : ℕ} → AllFields fs → (a ≡ true → b ≡ 0) → IsPlace a (up a fs b)
up-IsPlace true no_field z = record { fields = no_field; back = z }
up-IsPlace false no_field z = record { fields = no_field; back = λ e. cc }
up-IsPlace a (one_field is h) z = record { fields = AllFields-drop_last (one_field is h); back = z }

buffer-IsField :
    {f : Name}
    → HasNoSlash f
    → same_text f dot_dot ≡ false
    → same_text f dot ≡ false
    → (length f == 0) ≡ false
    → IsField f
buffer-IsField h d d' z = record {
  some_char = λ e. ground (arith, ap length e);
  no_slash = h;
  no_dot = d';
  no_dot_dot = d;
}

end_field-IsState : (a e : Bool) {s : ParseState} → IsState a s → IsState a (end_field a e s)
unfolding end_field
end_field-IsState a e {s} is = elim (Bool-cases (same_text s.buffer dot_dot)) [
  | inl d ↦
      let r = up-IsPlace a is.fields is.back in
      rw d (record { fields = r.fields; back = r.back; no_slash = none_left })
  | inr d ↦ rw d (elim (Bool-cases (same_text s.buffer dot)) [
    | inl d' ↦ rw d' (record { fields = is.fields; back = is.back; no_slash = none_left })
    | inr d' ↦ rw d' (elim (Bool-cases (length s.buffer == 0)) [
      | inl z ↦ rw z is
      | inr z ↦ rw z (record {
        fields =
            AllFields-append is.fields (one_field (buffer-IsField is.no_slash d d' z) no_field);
        back = is.back;
        no_slash = none_left;
      })
    ])
  ])
]

parse_char-IsState :
    (a : Bool) (c : ℕ) {s : ParseState} → IsState a s → IsState a (parse_char a c s)
unfolding parse_char
parse_char-IsState a c is = elim (Bool-cases (c == b'/')) [
  | inl e ↦ rw e (end_field-IsState a false is)
  | inr e ↦ rw e (record {
    fields = is.fields;
    back = is.back;
    no_slash = HasNoSlash-append is.no_slash (λ q. ground arith);
  })
]

parse_loop-IsState :
    (a : Bool) (t : Name) {s : ParseState} → IsState a s → IsState a (parse_loop a t s)
unfolding parse_loop
parse_loop-IsState a [] is = end_field-IsState a true is
parse_loop-IsState a (c ∷ t) is = parse_loop-IsState a t (parse_char-IsState a c is)

-- Any text parses to a path of which no field is empty, `.`, `..` or has a `/`, and which goes up
-- only if it is relative.
pub parse-IsPath : (unset : Bool) (t : Name) → IsPath (pathbuf_parse unset t)
unfolding pathbuf_parse
parse-IsPath unset t =
    let a = starts_with_slash t in
    let r : IsState a (parse_loop a t (at_field [] 0 unset)) =
      parse_loop-IsState a t
        (record { fields = no_field; back = λ e. refl; no_slash = none_left }) in
    record { fields = r.fields; back = r.back }

join_back-IsPlace : (a : Bool) (n : ℕ) {p : Place} → IsPlace a p → IsPlace a (join_back a n p)
unfolding join_back
join_back-IsPlace a zero is = is
join_back-IsPlace a (suc n) is = join_back-IsPlace a n (up-IsPlace a is.fields is.back)

-- The join of two paths is a path.
pub join-IsPath : {p q : Pathbuf} → IsPath p → IsPath q → IsPath (pathbuf_join p q)
unfolding pathbuf_join pathbuf_root
join-IsPath {p} {q} ip iq = elim (Bool-cases q.is_absolute) [
  | inl e ↦ rw e (record { fields = no_field; back = λ x. refl })
  | inr e ↦
      let at : IsPlace p.is_absolute (record { fields = p.fields; back = p.back }) = record {
        fields = ip.fields;
        back = ip.back;
      } in
      let r = join_back-IsPlace p.is_absolute q.back at in
      rw e (record { fields = AllFields-append r.fields iq.fields; back = r.back })
]
