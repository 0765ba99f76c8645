-- ===== src/Pathbuf.antt =====
-- src/pathbuf.c and src/pathbuf.h: paths. A text is the list of its characters and the vector of the
-- fields a list of texts, as Kstring/Laws.antt and Vec/Laws.antt justify; `strdup` gives the same
-- text. `unset` is what `is_expldir` holds before it is written. `back` counts fields of a text, of
-- which there are fewer than an uint32_t holds.
pub mod Laws
pub mod Parse
pub mod Print
pub mod Valid
use eedox.Base.{
  ℕ, zero, suc, ◌+◌, ◌-◌, ◌*◌, ◌/◌, ◌%◌, ◌^◌, ◌≤◌, ◌<◌, min, max, ◌≡◌, ◌≢◌, ◌↔◌, ◌⊎◌, inl, inr,
  refl, sym, ap, ap₂, ◌∙◌, subst, fun_ext, Bool, true, false, ◌&&◌, ◌||◌, not, Option, none, some,
  List, [], ◌∷◌, ◌++◌, map, append-nil, append_assoc, arith, ltb, leb, ◌==◌, if◌then◌else◌, u32,
  sub32, ==_iff, Bool-cases, Option-cases, length, get_elem?, set, take, drop, length-append,
  length-set, get_elem?-set_self, get_elem?-set_ne, length-take, length-drop,
}
use eedox.Base.Int.{ℤ, pos, negsuc, pos_part, neg_part, sub_ℕ, ◌+ℤ◌, ◌-ℤ◌, ◌≤ℤ◌, leb_ℤ, ltb_ℤ}
use eedox.Mq.{same_text}

abbrev pub Name : Type 0
Name = List ℕ

pub record Pathbuf : Type 0 where
  pub fields : List Name
  pub is_absolute : Bool
  pub is_expldir : Bool
  pub back : ℕ

abbrev pub dot : Name
dot = b'.' ∷ []

abbrev pub dot_dot : Name
dot_dot = b'.' ∷ b'.' ∷ []

-- `vec_pop`, without the field that it returns.
unfoldable pub drop_last : List Name → List Name
drop_last [] = []
drop_last (x ∷ []) = []
drop_last (x ∷ y ∷ xs) = x ∷ drop_last (y ∷ xs)

unfoldable pub pathbuf_root : Pathbuf
pathbuf_root = record { fields = []; is_absolute = true; is_expldir = true; back = 0 }

-- The fields and the `back` of a path after one `..`.
pub record Place : Type 0 where
  pub fields : List Name
  pub back : ℕ

abbrev pub up : Bool → List Name → ℕ → Place
up is_absolute [] back = record { fields = []; back = if is_absolute then back else suc back }
up is_absolute (f ∷ fs) back = record { fields = drop_last (f ∷ fs); back = back }

abbrev pub go_up : Bool → Place → Place
go_up is_absolute p = up is_absolute p.fields p.back

-- The locals of `pathbuf_parse`.
pub record ParseState : Type 0 where
  pub place : Place
  pub buffer : Name
  pub is_expldir : Bool

-- What is done at a `/`, and at the end of the text.
unfoldable pub end_field : Bool → Bool → ParseState → ParseState
end_field is_absolute at_end s =
    if same_text s.buffer dot_dot
    then record { place = go_up is_absolute s.place; buffer = []; is_expldir = true }
    else if same_text s.buffer dot
    then record s { buffer = []; is_expldir = true }
    else if length s.buffer == 0
    then s
    else record {
      place = record s.place { fields = s.place.fields ++ (s.buffer ∷ []) };
      buffer = [];
      is_expldir = if at_end then false else s.is_expldir;
    }

-- One character, which is not NUL.
unfoldable pub parse_char : Bool → ℕ → ParseState → ParseState
parse_char is_absolute c s =
    if c == b'/' then end_field is_absolute false s else record s { buffer = s.buffer ++ (c ∷ []) }

-- The loop over the characters.
unfoldable pub parse_loop : Bool → Name → ParseState → ParseState
parse_loop is_absolute [] s = end_field is_absolute true s
parse_loop is_absolute (c ∷ cs) s = parse_loop is_absolute cs (parse_char is_absolute c s)

unfoldable pub starts_with_slash : Name → Bool
starts_with_slash [] = false
starts_with_slash (c ∷ cs) = c == b'/'

unfoldable pub pathbuf_parse : Bool → Name → Pathbuf
pathbuf_parse unset address =
    let is_absolute = starts_with_slash address in
    let s =
      parse_loop is_absolute address
        (record { place = record { fields = []; back = 0 }; buffer = []; is_expldir = unset }) in
    record {
      fields = s.place.fields;
      is_absolute = is_absolute;
      is_expldir = s.is_expldir;
      back = s.place.back;
    }

unfoldable pub pathbuf_copy : Pathbuf → Pathbuf
pathbuf_copy buf = record {
  fields = buf.fields;
  is_absolute = buf.is_absolute;
  is_expldir = buf.is_expldir;
  back = buf.back;
}

-- The first loop of `pathbuf_join`, with `n` rounds left.
unfoldable pub join_back : Bool → ℕ → Place → Place
join_back is_absolute zero p = p
join_back is_absolute (suc n) p = join_back is_absolute n (go_up is_absolute p)

unfoldable pub pathbuf_join : Pathbuf → Pathbuf → Pathbuf
pathbuf_join buf1 buf2 =
    let p =
      join_back buf1.is_absolute buf2.back (record { fields = buf1.fields; back = buf1.back }) in
    if buf2.is_absolute then pathbuf_root else record {
      fields = p.fields ++ buf2.fields;
      is_absolute = buf1.is_absolute;
      is_expldir = buf2.is_expldir;
      back = p.back;
    }

unfoldable pub pathbuf_field : Pathbuf → ℕ → Option Name
pathbuf_field buf index = get_elem? buf.fields index

unfoldable pub pathbuf_len : Pathbuf → ℕ
pathbuf_len buf = length buf.fields

-- The loop of `pathbuf_cmp`, over fields of which there are as many in both paths.
unfoldable pub same_fields : List Name → List Name → Bool
same_fields [] gs = true
same_fields (f ∷ fs) [] = true
same_fields (f ∷ fs) (g ∷ gs) = same_text f g && same_fields fs gs

abbrev same_flag : Bool → Bool → Bool
same_flag true b = b
same_flag false b = not b

unfoldable pub pathbuf_cmp : Pathbuf → Pathbuf → Bool
unfolding pathbuf_len
pathbuf_cmp buf1 buf2 =
    if (not (pathbuf_len buf1 == pathbuf_len buf2)
        || not (same_flag buf1.is_absolute buf2.is_absolute))
      || not (buf1.back == buf2.back)
    then false
    else same_fields buf1.fields buf2.fields

-- NULL where there is no field.
unfoldable pub pathbuf_name : Pathbuf → Option Name
pathbuf_name buf =
    if length buf.fields == 0 then none else get_elem? buf.fields (length buf.fields - 1)

-- Without a field the loop runs over the end of the vector, since `size - 1` wraps.
unfoldable pub pathbuf_parent : Pathbuf → Option Pathbuf
pathbuf_parent buf =
    if pathbuf_len buf == 0
    then none
    else some (record buf { fields = drop_last buf.fields; is_expldir = true })

unfoldable pub pathbuf_child : Pathbuf → Name → Bool → Pathbuf
pathbuf_child buf name expldir = record buf {
  fields = buf.fields ++ (name ∷ []);
  is_expldir = expldir;
}

-- The loops of `pathbuf_stringify`.
unfoldable pub print_back : ℕ → Name
print_back zero = []
print_back (suc n) = b'.' ∷ b'.' ∷ b'/' ∷ print_back n

unfoldable pub print_fields : List Name → Name
print_fields [] = []
print_fields (f ∷ fs) = f ++ (b'/' ∷ print_fields fs)

unfoldable pub pathbuf_stringify : Pathbuf → Name
unfolding print_back print_fields
pathbuf_stringify buf =
    (if buf.is_absolute then b'/' ∷ [] else []) ++ (print_back buf.back ++ print_fields buf.fields)
