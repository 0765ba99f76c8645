-- ===== src/Pathbuf/Print.antt =====
-- `pathbuf_parse` of src/pathbuf.c, against `pathbuf_stringify` and `pathbuf_join`.
use eedox.Base.{
  ℕ, zero, suc, ◌+◌, ◌≡◌, refl, sym, ap, ◌∙◌, Bool, true, false, List, [], ◌∷◌, ◌++◌, append-nil,
  append_assoc, arith, ◌==◌, if◌then◌else◌,
}
use eedox.Mq.{same_text}
use eedox.Pathbuf.{
  Name, Pathbuf, Place, ParseState, end_field, parse_char, parse_loop, starts_with_slash,
  pathbuf_parse, join_back, pathbuf_join, print_back, print_fields, pathbuf_stringify,
}
use eedox.Pathbuf.Parse.{
  HasNoSlash, one_more, AllFields, no_field, one_field, IsPath, moved, at_field, after_back,
  parse_loop-moved, parse_loop-print_back, parse_loop-print_fields,
}

parse_loop_printed :
    (a : Bool) (b : ℕ) {fs : List Name}
    → AllFields fs
    → (a ≡ true → b ≡ 0)
    → (d : Bool) (t : Name)
    → parse_loop a
        (((if a then b'/' ∷ [] else []) ++ (print_back b ++ print_fields fs)) ++ t)
        (at_field [] 0 d)
      ≡ parse_loop a t (at_field fs b (after_back b d))
unfolding parse_loop parse_char end_field same_text print_back
parse_loop_printed true zero h z d t = parse_loop-print_fields true h [] 0 d t
parse_loop_printed true (suc b) h z d t = absurd (omega (arith, z refl))
parse_loop_printed false b {fs} h z d t =
    ap (λ l. parse_loop false l (at_field [] 0 d)) (append_assoc (print_back b) (print_fields fs) t)
    ∙ parse_loop-print_back b 0 d (print_fields fs ++ t)
    ∙ parse_loop-print_fields false h [] (0 + b) (after_back b d) t
    ∙ ap (λ k. parse_loop false t (at_field fs k (after_back b d))) (omega arith)

parse_loop-stringify :
    {p : Pathbuf}
    → IsPath p
    → (d : Bool) (t : Name)
    → parse_loop p.is_absolute (pathbuf_stringify p ++ t) (at_field [] 0 d)
      ≡ parse_loop p.is_absolute t (at_field p.fields p.back (after_back p.back d))
unfolding pathbuf_stringify
parse_loop-stringify {p} is d t = parse_loop_printed p.is_absolute p.back is.fields is.back d t

starts_with_slash-fields :
    {fs : List Name}
    → AllFields fs
    → (t : Name) → starts_with_slash t ≡ false
    → starts_with_slash (print_fields fs ++ t) ≡ false
unfolding starts_with_slash print_fields
starts_with_slash-fields no_field t r = r
starts_with_slash-fields (one_field {f = []} is h) t r = absurd (is.some_char refl)
starts_with_slash-fields (one_field {f = c ∷ cs} is h) t r = first is.no_slash
  where
    first : HasNoSlash (c ∷ cs) → (c == b'/') ≡ false
    first (one_more n m) = ground arith

starts_with_slash_printed :
    (a : Bool) (b : ℕ) {fs : List Name}
    → AllFields fs
    → (t : Name) → starts_with_slash t ≡ false
    → starts_with_slash (((if a then b'/' ∷ [] else []) ++ (print_back b ++ print_fields fs)) ++ t)
      ≡ a
unfolding starts_with_slash print_back
starts_with_slash_printed true b h t r = refl
starts_with_slash_printed false zero h t r = starts_with_slash-fields h t r
starts_with_slash_printed false (suc b) h t r = refl

-- What `pathbuf_parse` returns after the loop.
abbrev pub finished : Bool → ParseState → Pathbuf
finished is_absolute s = record {
  fields = s.place.fields;
  is_absolute = is_absolute;
  is_expldir = s.is_expldir;
  back = s.place.back;
}

parse_after :
    {p : Pathbuf}
    → IsPath p
    → (unset : Bool) (t : Name) → starts_with_slash t ≡ false
    → pathbuf_parse unset (pathbuf_stringify p ++ t)
      ≡ finished p.is_absolute
          (parse_loop p.is_absolute t (at_field p.fields p.back (after_back p.back unset)))
unfolding pathbuf_parse pathbuf_stringify
parse_after {p} is unset t r =
    ap (λ a. finished a (parse_loop a (pathbuf_stringify p ++ t) (at_field [] 0 unset)))
      (starts_with_slash_printed p.is_absolute p.back is.fields t r)
    ∙ ap (finished p.is_absolute) (parse_loop-stringify is unset t)

-- A path of which no field is empty, `.`, `..` or has a `/`, and which goes up only if it is
-- relative, is the same when it is printed and parsed again, but for `is_expldir`, which then
-- holds what it held before, or true if the path goes up.
pub parse-stringify :
    {p : Pathbuf}
    → IsPath p
    → (unset : Bool)
    → pathbuf_parse unset (pathbuf_stringify p) ≡ record p { is_expldir = after_back p.back unset }
unfolding parse_loop end_field same_text starts_with_slash
parse-stringify {p} is unset =
    ap (pathbuf_parse unset) (sym (append-nil (pathbuf_stringify p))) ∙ parse_after is unset [] refl

parse_relative :
    (p : Pathbuf) (d : Bool) (t : Name)
    → starts_with_slash t ≡ false
    → finished p.is_absolute (
        moved p.is_absolute
          (record { fields = p.fields; back = p.back })
          (parse_loop false t (at_field [] 0 d)))
      ≡ pathbuf_join p (pathbuf_parse d t)
unfolding pathbuf_join pathbuf_parse
parse_relative p d t r =
    sym (ap (λ a. pathbuf_join p (finished a (parse_loop a t (at_field [] 0 d)))) r)

-- A path of which no field is empty, `.`, `..` or has a `/`, and which goes up only if it is relative,
-- printed, with a text behind it that does not start with a `/`, parses as the join of the path and of
-- what the text parses to, where `is_expldir` is before the text what the path leaves in it.
pub parse-join :
    {p : Pathbuf}
    → IsPath p
    → (unset : Bool) (t : Name) → starts_with_slash t ≡ false
    → pathbuf_parse unset (pathbuf_stringify p ++ t)
      ≡ pathbuf_join p (pathbuf_parse (after_back p.back unset) t)
unfolding join_back
parse-join {p} is unset t r =
    let d = after_back p.back unset in
    let at : Place = record { fields = p.fields; back = p.back } in
    parse_after is unset t r
    ∙ ap (λ l. finished p.is_absolute (parse_loop p.is_absolute t (at_field l p.back d)))
        (sym (append-nil p.fields))
    ∙ ap (finished p.is_absolute) (parse_loop-moved p.is_absolute at t (at_field [] 0 d))
    ∙ parse_relative p d t r
