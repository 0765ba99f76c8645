-- ===== src/Tests/OnPathbuf.antt =====
-- Runs of the paths of src/pathbuf.c.
use eedox.Base.{◌≡◌, refl, true, false, [], ◌∷◌, ◌++◌, arith}
use eedox.Pathbuf.{
  Name, Pathbuf, pathbuf_parse, pathbuf_stringify, pathbuf_join, parse_loop, parse_char, end_field,
  starts_with_slash, join_back, drop_last,
}
use eedox.Mq.{same_text}
use eedox.Pathbuf.Parse.{none_left, one_more, IsField, no_field, one_field, IsPath}
use eedox.Pathbuf.Print.{parse-stringify, parse-join}

abbrev bin : Name
bin = b'b' ∷ b'i' ∷ []

abbrev sh : Name
sh = b's' ∷ []

-- `/bi/s`
abbrev program : Pathbuf
program = record { fields = bin ∷ sh ∷ []; is_absolute = true; is_expldir = false; back = 0 }

-- `../bi`
abbrev neighbour : Pathbuf
neighbour = record { fields = bin ∷ []; is_absolute = false; is_expldir = false; back = 1 }

bin-IsField : IsField bin
unfolding same_text
bin-IsField = record {
  some_char = λ e. cc;
  no_slash = one_more (omega arith) (one_more (omega arith) none_left);
  no_dot = refl;
  no_dot_dot = refl;
}

sh-IsField : IsField sh
unfolding same_text
sh-IsField = record {
  some_char = λ e. cc;
  no_slash = one_more (omega arith) none_left;
  no_dot = refl;
  no_dot_dot = refl;
}

program-IsPath : IsPath program
program-IsPath = record {
  fields = one_field bin-IsField (one_field sh-IsField no_field);
  back = λ e. refl;
}

neighbour-IsPath : IsPath neighbour
neighbour-IsPath = record { fields = one_field bin-IsField no_field; back = λ e. absurd cc }

-- `../../a` from `/bi/s` is `/a`, and from `../bi` it is `../../a`.
abbrev up_two : Name
up_two = b'.' ∷ b'.' ∷ b'/' ∷ b'.' ∷ b'.' ∷ b'/' ∷ b'a' ∷ []

up_from_program :
    pathbuf_join program (pathbuf_parse true up_two)
    ≡ record { fields = (b'a' ∷ []) ∷ []; is_absolute = true; is_expldir = false; back = 0 }
unfolding pathbuf_join pathbuf_parse parse_loop parse_char end_field starts_with_slash same_text
    join_back drop_last
up_from_program = refl

up_from_neighbour :
    pathbuf_join neighbour (pathbuf_parse true up_two)
    ≡ record { fields = (b'a' ∷ []) ∷ []; is_absolute = false; is_expldir = false; back = 2 }
unfolding pathbuf_join pathbuf_parse parse_loop parse_char end_field starts_with_slash same_text
    join_back drop_last
up_from_neighbour = refl

parse-stringify_example :
    pathbuf_parse false (pathbuf_stringify neighbour)
    ≡ record { fields = bin ∷ []; is_absolute = false; is_expldir = true; back = 1 }
parse-stringify_example = parse-stringify neighbour-IsPath false

parse-join_example :
    pathbuf_parse false (pathbuf_stringify neighbour ++ up_two)
    ≡ pathbuf_join neighbour (pathbuf_parse true up_two)
unfolding starts_with_slash
parse-join_example = parse-join neighbour-IsPath false up_two refl
