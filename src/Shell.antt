-- ===== src/Shell.antt =====
-- user/sh.c: the parser of a command line. The line is given by the byte at each index, and a pointer
-- into it is an index. The loop has fuel.
pub mod Words
use eedox.Base.{
  ℕ, zero, suc, ◌+◌, ◌-◌, ◌*◌, ◌/◌, ◌%◌, ◌^◌, ◌≤◌, ◌<◌, min, max, ◌≡◌, ◌≢◌, ◌↔◌, ◌⊎◌, inl, inr,
  refl, sym, ap, ap₂, ◌∙◌, subst, fun_ext, Bool, true, false, ◌&&◌, ◌||◌, not, Option, none, some,
  List, [], ◌∷◌, ◌++◌, map, append-nil, append_assoc, arith, ltb, leb, ◌==◌, if◌then◌else◌, u32,
  sub32, ==_iff, Bool-cases, Option-cases, length, get_elem?, set, take, drop, length-append,
  length-set, get_elem?-set_self, get_elem?-set_ne, length-take, length-drop,
}
use eedox.Base.Int.{ℤ, pos, negsuc, pos_part, neg_part, sub_ℕ, ◌+ℤ◌, ◌-ℤ◌, ◌≤ℤ◌, leb_ℤ, ltb_ℤ}
use eedox.Memory.{Mem, store}

unfoldable pub ends_token : ℕ → Bool
ends_token c = (c == b' ') || ((c == b'\n') || (c == 0))

-- The byte at the end of a token is set to 0, and the token goes to the list (`llist_bpush`).
unfoldable pub closed : Mem → ℕ → Option ℕ → Mem
closed line i none = line
closed line i (some arg_ptr) = store line i 0

unfoldable pub pushed : Option ℕ → List ℕ → List ℕ
pushed none tokens = tokens
pushed (some arg_ptr) tokens = arg_ptr ∷ tokens

unfoldable pub begun : ℕ → Option ℕ → Option ℕ
begun i none = some i
begun i (some arg_ptr) = some arg_ptr

unfoldable pub push_first : Option ℕ → Option (List ℕ × Mem) → Option (List ℕ × Mem)
push_first arg_ptr none = none
push_first arg_ptr (some (tokens, line)) = some (pushed arg_ptr tokens, line)

-- The loop of `parse_input`, from index `i`: the tokens from there on, from the head of the list, and
-- the line that is left.
unfoldable pub parse_from : ℕ → Mem → ℕ → Option ℕ → Option (List ℕ × Mem)
parse_from zero line i arg_ptr = none
parse_from (suc n) line i arg_ptr =
    let ends = ends_token (line i) in
    let rest =
      parse_from n (if ends then closed line i arg_ptr else line) (i + 1)
        (if ends then none else begun i arg_ptr) in
    if ends
    then (if line i == 0
        then some (pushed arg_ptr [], closed line i arg_ptr)
        else push_first arg_ptr rest)
    else rest

unfoldable pub parse_input : ℕ → Mem → Option (List ℕ × Mem)
parse_input fuel line = parse_from fuel line 0 none
