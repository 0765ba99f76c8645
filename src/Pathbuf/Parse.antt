-- ===== src/Pathbuf/Parse.antt =====
-- `pathbuf_parse` of src/pathbuf.c, character by character.
use eedox.Base.{
  ℕ, zero, suc, ◌+◌, ◌≡◌, ◌≢◌, inl, inr, refl, sym, ap, ap₂, ◌∙◌, Bool, true, false, List, [], ◌∷◌,
  ◌++◌, append-nil, append_assoc, arith, ◌==◌, if◌then◌else◌, Bool-cases, length,
}
use eedox.Mq.{same_text}
use eedox.Pathbuf.{
  Name, Pathbuf, dot, dot_dot, drop_last, Place, up, go_up, ParseState, end_field, parse_char,
  parse_loop, join_back, print_back, print_fields,
}

-- No character of the text is a `/`.
pub data HasNoSlash : Name → Type 0 where
  none_left : HasNoSlash []
  one_more : {c : ℕ} {cs : Name} → c ≢ b'/' → HasNoSlash cs → HasNoSlash (c ∷ cs)

-- A name that a field can have.
pub record IsField (f : Name) : Type 0 where
  pub some_char : f ≢ []
  pub no_slash : HasNoSlash f
  pub no_dot : same_text f dot ≡ false
  pub no_dot_dot : same_text f dot_dot ≡ false

pub data AllFields : List Name → Type 0 where
  no_field : AllFields []
  one_field : {f : Name} {fs : List Name} → IsField f → AllFields fs → AllFields (f ∷ fs)

-- What `pathbuf_parse` makes: no field is special, and an absolute path goes up from nowhere.
pub record IsPath (p : Pathbuf) : Type 0 where
  pub fields : AllFields p.fields
  pub back : p.is_absolute ≡ true → p.back ≡ 0

-- The place after one path and then another from there.
abbrev pub from_place : Bool → Place → Place → Place
from_place is_absolute p q = record {
  fields = (join_back is_absolute q.back p).fields ++ q.fields;
  back = (join_back is_absolute q.back p).back;
}

pub join_back-go_up :
    (a : Bool) (n : ℕ) (p : Place) → join_back a n (go_up a p) ≡ go_up a (join_back a n p)
unfolding join_back
join_back-go_up a zero p = refl
join_back-go_up a (suc n) p = join_back-go_up a n (go_up a p)

pub drop_last-append :
    (xs : List Name) (f : Name) (fs : List Name)
    → drop_last (xs ++ (f ∷ fs)) ≡ xs ++ drop_last (f ∷ fs)
unfolding drop_last
drop_last-append [] f fs = refl
drop_last-append (x ∷ []) f fs = refl
drop_last-append (x ∷ y ∷ xs) f fs = ap (λ l. x ∷ l) (drop_last-append (y ∷ xs) f fs)

pub up-append :
    (a : Bool) (xs : List Name) (b : ℕ) (f : Name) (fs : List Name)
    → up a (xs ++ (f ∷ fs)) b ≡ record { fields = xs ++ drop_last (f ∷ fs); back = b }
up-append a [] b f fs = refl
up-append a (x ∷ xs) b f fs =
    ap (λ l. record { fields = l; back = b }) (drop_last-append (x ∷ xs) f fs)

pub up-from_place :
    (a : Bool) (p : Place) (fs : List Name) (b : ℕ)
    → go_up a (from_place a p (record { fields = fs; back = b })) ≡ from_place a p (up false fs b)
unfolding join_back
up-from_place a p [] b =
    let q = join_back a b p in
    ap (λ l. up a l q.back) (append-nil q.fields)
    ∙ sym (join_back-go_up a b p)
    ∙ ap (λ l. record { fields = l; back = (join_back a b (go_up a p)).back })
        (sym (append-nil ((join_back a b (go_up a p)).fields)))
up-from_place a p (f ∷ fs) b = up-append a ((join_back a b p).fields) ((join_back a b p).back) f fs

-- A state of the loop, moved to the place.
abbrev pub moved : Bool → Place → ParseState → ParseState
moved a p s = record s { place = from_place a p s.place }

pub end_field-moved :
    (a e : Bool) (p : Place) (s : ParseState)
    → end_field a e (moved a p s) ≡ moved a p (end_field false e s)
unfolding end_field
end_field-moved a e p s = elim (Bool-cases (same_text s.buffer dot_dot)) [
  | inl d ↦ rw d (
      ap (λ q. record { place = q; buffer = []; is_expldir = true })
        (up-from_place a p s.place.fields s.place.back))
  | inr d ↦ rw d (elim (Bool-cases (same_text s.buffer dot)) [
    | inl d' ↦ rw d' refl
    | inr d' ↦ rw d' (elim (Bool-cases (length s.buffer == 0)) [
      | inl z ↦ rw z refl
      | inr z ↦ rw z (
          ap
            (λ l. record {
              place = record { fields = l; back = (join_back a s.place.back p).back };
              buffer = [];
              is_expldir = if e then false else s.is_expldir;
            })
            (append_assoc (join_back a s.place.back p).fields s.place.fields (s.buffer ∷ [])))
    ])
  ])
]

parse_char-moved :
    (a : Bool) (p : Place) (c : ℕ) (s : ParseState)
    → parse_char a c (moved a p s) ≡ moved a p (parse_char false c s)
unfolding parse_char
parse_char-moved a p c s = elim (Bool-cases (c == b'/')) [
  | inl e ↦ rw e (end_field-moved a false p s)
  | inr e ↦ rw e refl
]

pub parse_loop-moved :
    (a : Bool) (p : Place) (t : Name) (s : ParseState)
    → parse_loop a t (moved a p s) ≡ moved a p (parse_loop false t s)
unfolding parse_loop
parse_loop-moved a p [] s = end_field-moved a true p s
parse_loop-moved a p (c ∷ t) s =
    ap (parse_loop a t) (parse_char-moved a p c s) ∙ parse_loop-moved a p t (parse_char false c s)

parse_char_other :
    (a : Bool) (c : ℕ) (s : ParseState)
    → c ≢ b'/'
    → parse_char a c s ≡ record s { buffer = s.buffer ++ (c ∷ []) }
unfolding parse_char
parse_char_other a c s n = elim (Bool-cases (c == b'/')) [
  | inl e ↦ absurd (n (ground arith))
  | inr e ↦ rw e refl
]

-- The characters of a name go to the buffer.
pub parse_loop-append :
    (a : Bool) {f : Name}
    → HasNoSlash f
    → (t : Name) (s : ParseState)
    → parse_loop a (f ++ t) s ≡ parse_loop a t (record s { buffer = s.buffer ++ f })
unfolding parse_loop
parse_loop-append a none_left t s =
    ap (λ l. parse_loop a t (record s { buffer = l })) (sym (append-nil s.buffer))
parse_loop-append a {f = c ∷ cs} (one_more n h) t s =
    ap (parse_loop a (cs ++ t)) (parse_char_other a c s n)
    ∙ parse_loop-append a h t (record s { buffer = s.buffer ++ (c ∷ []) })
    ∙ ap (λ l. parse_loop a t (record s { buffer = l })) (append_assoc s.buffer (c ∷ []) cs)

-- The state between fields.
abbrev pub at_field : List Name → ℕ → Bool → ParseState
at_field fields back is_expldir = record {
  place = record { fields = fields; back = back };
  buffer = [];
  is_expldir = is_expldir;
}

pub end_field-IsField :
    (a : Bool) (fs : List Name) (b : ℕ) (d : Bool) {f : Name} (is : IsField f)
    → end_field a false (record (at_field fs b d) { buffer = f }) ≡ at_field (fs ++ (f ∷ [])) b d
unfolding end_field
end_field-IsField a fs b d {f = []} is = absurd (is.some_char refl)
end_field-IsField a fs b d {f = c ∷ cs} is = rw (is.no_dot, is.no_dot_dot) (ground arith)

pub parse_loop-print_fields :
    (a : Bool) {gs : List Name}
    → AllFields gs
    → (fs : List Name) (b : ℕ) (d : Bool) (t : Name)
    → parse_loop a (print_fields gs ++ t) (at_field fs b d)
      ≡ parse_loop a t (at_field (fs ++ gs) b d)
unfolding parse_loop parse_char print_fields
parse_loop-print_fields a no_field fs b d t =
    ap (λ l. parse_loop a t (at_field l b d)) (sym (append-nil fs))
parse_loop-print_fields a {gs = g ∷ gs} (one_field is h) fs b d t =
    ap (λ l. parse_loop a l (at_field fs b d)) (append_assoc g (b'/' ∷ print_fields gs) t)
    ∙ parse_loop-append a is.no_slash (b'/' ∷ (print_fields gs ++ t)) (at_field fs b d)
    ∙ ap (parse_loop a (print_fields gs ++ t)) (end_field-IsField a fs b d is)
    ∙ parse_loop-print_fields a h (fs ++ (g ∷ [])) b d t
    ∙ ap (λ l. parse_loop a t (at_field l b d)) (append_assoc fs (g ∷ []) gs)

-- What the `../` at the front leave in `is_expldir`.
abbrev pub after_back : ℕ → Bool → Bool
after_back zero unset = unset
after_back (suc n) unset = true

pub after_back-true : (n : ℕ) → after_back n true ≡ true
after_back-true zero = refl
after_back-true (suc n) = refl

pub parse_loop-print_back :
    (n b : ℕ) (d : Bool) (t : Name)
    → parse_loop false (print_back n ++ t) (at_field [] b d)
      ≡ parse_loop false t (at_field [] (b + n) (after_back n d))
unfolding parse_loop parse_char print_back end_field same_text
parse_loop-print_back zero b d t = ap (λ k. parse_loop false t (at_field [] k d)) (omega arith)
parse_loop-print_back (suc n) b d t =
    parse_loop-print_back n (suc b) true t
    ∙ ap₂ (λ k e. parse_loop false t (at_field [] k e)) (omega arith) (after_back-true n)
