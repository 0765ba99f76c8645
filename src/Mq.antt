-- ===== src/Mq.antt =====
-- src/mq.c and src/mq.h: message queues by name. `names` and `pipes` are pushed together, so the list
-- of them is one list of pairs; a name is a text, a pipe an address in the store of pipes. `fresh` is
-- the address that `kmalloc` returns.
pub mod Open
use eedox.Base.{
  ℕ, zero, suc, ◌+◌, ◌-◌, ◌*◌, ◌/◌, ◌%◌, ◌^◌, ◌≤◌, ◌<◌, min, max, ◌≡◌, ◌≢◌, ◌↔◌, ◌⊎◌, inl, inr,
  refl, sym, ap, ap₂, ◌∙◌, subst, fun_ext, Bool, true, false, ◌&&◌, ◌||◌, not, Option, none, some,
  List, [], ◌∷◌, ◌++◌, map, append-nil, append_assoc, arith, ltb, leb, ◌==◌, if◌then◌else◌, u32,
  sub32, ==_iff, Bool-cases, Option-cases, length, get_elem?, set, take, drop, length-append,
  length-set, get_elem?-set_self, get_elem?-set_ne, length-take, length-drop,
}
use eedox.Base.Int.{ℤ, pos, negsuc, pos_part, neg_part, sub_ℕ, ◌+ℤ◌, ◌-ℤ◌, ◌≤ℤ◌, leb_ℤ, ltb_ℤ}
use eedox.Pipe.{Pipe, pipe_new}

abbrev pub Pipes : Type 0
Pipes = ℕ → Pipe

pub record Mqlist : Type 0 where
  pub entries : List (List ℕ × ℕ)
  pub store : Pipes

unfoldable pub mqlist_new : Pipes → Mqlist
mqlist_new store = record { entries = []; store = store }

-- `strcmp(a, b) == 0`
unfoldable pub same_text : List ℕ → List ℕ → Bool
same_text [] [] = true
same_text [] (d ∷ t) = false
same_text (c ∷ s) [] = false
same_text (c ∷ s) (d ∷ t) = (c == d) && same_text s t

unfoldable pub write_pipe : Pipes → ℕ → Pipe → Pipes
write_pipe store ptr pipe x = if x == ptr then pipe else store x

-- The loop: the pipe of the entry with the name, or the index of the first dead entry.
pub data Scan : Type 0 where
  found : ℕ → Scan
  missing : Option ℕ → Scan

unfoldable pub first_free : Option ℕ → Bool → ℕ → Option ℕ
first_free none true i = some i
first_free free_index _ i = free_index

unfoldable pub scan : Pipes → List ℕ → List (List ℕ × ℕ) → ℕ → Option ℕ → Scan
scan store name [] i free_index = missing free_index
scan store name ((ent_name, ent_pipe) ∷ es) i free_index =
    let rest = scan store name es (i + 1) (first_free free_index (store ent_pipe).dead i) in
    if same_text ent_name name then found ent_pipe else rest

-- What is done to the pipe of an entry with the name.
unfoldable pub reopen : Pipe → Pipe
reopen pipe = if pipe.dead then pipe_new else record pipe {
  reader_count = u32 (pipe.reader_count + 1);
  writer_count = u32 (pipe.writer_count + 1);
}

unfoldable pub opened : Mqlist → List ℕ → ℕ → Scan → ℕ × Mqlist
opened list name fresh (found ptr) =
    (ptr, record list { store = write_pipe list.store ptr (reopen (list.store ptr)) })
opened list name fresh (missing none) = (
  fresh,
  record {
    entries = list.entries ++ ((name, fresh) ∷ []);
    store = write_pipe list.store fresh pipe_new;
  },
)
opened list name fresh (missing (some i)) = (
  fresh,
  record {
    entries = set list.entries i (name, fresh);
    store = write_pipe list.store fresh pipe_new;
  },
)

unfoldable pub mqlist_open : Mqlist → List ℕ → ℕ → ℕ × Mqlist
mqlist_open list name fresh = opened list name fresh (scan list.store name list.entries 0 none)
