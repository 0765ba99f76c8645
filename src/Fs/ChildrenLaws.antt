-- ===== src/Fs/ChildrenLaws.antt =====
-- The table of the children of a directory holds a list of names with their indices.
use eedox.Base.{
  Bool-cases, inl, inr, append_assoc, append-nil, ℕ, ◌+◌, ◌^◌, ◌≤◌, ◌<◌, ◌≡◌, refl, sym, ap, ◌∙◌,
  Option, none, some, List, [], ◌∷◌, ◌++◌, arith, if◌then◌else◌, length, take, drop, length-append,
}
use eedox.Mq.{same_text}
use eedox.Mq.Open.{same_text-eq}
use eedox.Fs.Children.{
  childtable_find, childtable_add, childtable_remove, childtable_edit_index, childtable_get,
  ChildTable, remove_record, edit_record, get_record, word_bytes, shifted,
}
use eedox.Fs.Records.{
  Children, entry, encode, AreChildren, index_of, without, offset_of, take-append, drop-append,
  length-entry, drop-entry, take-entry, find_record-offset_of,
}

-- The children with a new index for the first one of that name.
unfoldable pub with_index : Children → List ℕ → ℕ → Children
with_index [] name new = []
with_index ((n, index) ∷ cs) name new =
    if same_text n name then (n, new) ∷ cs else (n, index) ∷ with_index cs name new

encode-append : (cs ds : Children) → encode (cs ++ ds) ≡ encode cs ++ encode ds
unfolding encode
encode-append [] ds = refl
encode-append ((n, index) ∷ cs) ds =
    ap (λ l. entry n index ++ l) (encode-append cs ds)
    ∙ sym (append_assoc (entry n index) (encode cs) (encode ds))

length-encode : (cs : Children) → length cs ≤ length (encode cs)
unfolding encode
length-encode [] = omega arith
length-encode ((n, index) ∷ cs) =
    omega (arith, length-append (entry n index) (encode cs), length-entry n index, length-encode cs)

abbrev pub table : List ℕ → ℕ → ChildTable
table bytes sectors = record { bytes = bytes; sectors = sectors }

module _ (name : List ℕ) (sectors : ℕ) where
  -- A record behind the first one.
  remove_shifted :
      (n : List ℕ) (index : ℕ) (rest : List ℕ) (o : Option ℕ)
      → (remove_record
          (table (entry n index ++ rest) sectors)
          name
          (shifted (length n + 5) o)).bytes
        ≡ entry n index ++ (remove_record (table rest sectors) name o).bytes
  remove_shifted n index rest none = refl
  remove_shifted n index rest (some k) =
      let e : length n + 5 + k + (length name + 5) ≡ length n + 5 + (k + (length name + 5)) =
        omega arith in
      rw (e, take-entry n index k rest, drop-entry n index (k + (length name + 5)) rest)
        (append_assoc (entry n index) (take k rest) (drop (k + (length name + 5)) rest))

  edit_shifted :
      (n : List ℕ) (index new : ℕ) (rest : List ℕ) (o : Option ℕ)
      → (edit_record
          (table (entry n index ++ rest) sectors)
          name
          new
          (shifted (length n + 5) o)).bytes
        ≡ entry n index ++ (edit_record (table rest sectors) name new o).bytes
  edit_shifted n index new rest none = refl
  edit_shifted n index new rest (some k) =
      let e : length n + 5 + k + (length name + 5) ≡ length n + 5 + (k + (length name + 5)) =
        omega arith in
      let f : length n + 5 + k + (length name + 1) ≡ length n + 5 + (k + (length name + 1)) =
        omega arith in
      rw
        (
          e,
          f,
          take-entry n index (k + (length name + 1)) rest,
          drop-entry n index (k + (length name + 5)) rest,
        )
        (append_assoc (entry n index) (take (k + (length name + 1)) rest)
          (word_bytes new ++ drop (k + (length name + 5)) rest))

  get_shifted :
      (n : List ℕ) (index : ℕ) (rest : List ℕ) (o : Option ℕ)
      → get_record (table (entry n index ++ rest) sectors) name (shifted (length n + 5) o)
        ≡ get_record (table rest sectors) name o
  get_shifted n index rest none = refl
  get_shifted n index rest (some k) =
      let f : length n + 5 + k + (length name + 1) ≡ length n + 5 + (k + (length name + 1)) =
        omega arith in
      rw (f, drop-entry n index (k + (length name + 1)) rest) refl

  -- The record in front.
  remove_first :
      (index : ℕ) (rest : List ℕ)
      → (remove_record (table (entry name index ++ rest) sectors) name (some 0)).bytes ≡ rest
  remove_first index rest =
      let e : 0 + (length name + 5) ≡ length name + 5 + 0 = omega arith in
      rw (e, drop-entry name index 0 rest) refl

  get_first :
      (index : ℕ) (rest : List ℕ)
      → index < 2 ^ 32
      → get_record (table (entry name index ++ rest) sectors) name (some 0) ≡ index
  get_first index rest h =
      let e : 0 + (length name + 1) ≡ length name + 1 = omega arith in
      rw (e, append_assoc, drop-append name (0 ∷ word_bytes index ++ rest) 1) (omega arith)

  edit_first :
      (index new : ℕ) (rest : List ℕ)
      → (edit_record (table (entry name index ++ rest) sectors) name new (some 0)).bytes
        ≡ entry name new ++ rest
  edit_first index new rest =
      let e : 0 + (length name + 1) ≡ length name + 1 = omega arith in
      let f : 0 + (length name + 5) ≡ length name + 5 + 0 = omega arith in
      rw (e, f, drop-entry name index 0 rest)
        (ap (λ l. take (length name + 1) l ++ (word_bytes new ++ rest))
            (append_assoc name (0 ∷ word_bytes index) rest)
          ∙ ap (λ l. l ++ (word_bytes new ++ rest))
              (take-append name (0 ∷ word_bytes index ++ rest) 1)
          ∙ (append_assoc name (0 ∷ []) (word_bytes new ++ rest)
              ∙ sym (append_assoc name (0 ∷ word_bytes new) rest)))

  remove-offset_of :
      (cs : Children)
      → (remove_record (table (encode cs) sectors) name (offset_of cs name)).bytes
        ≡ encode (without cs name)
  unfolding encode offset_of without
  remove-offset_of [] = refl
  remove-offset_of ((n, index) ∷ cs) = elim (Bool-cases (same_text n name)) [
    | inl e ↦ rw (e, same_text-eq n name e) (remove_first index (encode cs))
    | inr e ↦ rw e (
        remove_shifted n index (encode cs) (offset_of cs name)
        ∙ ap (λ l. entry n index ++ l) (remove-offset_of cs))
  ]

  edit-offset_of :
      (cs : Children) (new : ℕ)
      → (edit_record (table (encode cs) sectors) name new (offset_of cs name)).bytes
        ≡ encode (with_index cs name new)
  unfolding encode offset_of with_index
  edit-offset_of [] new = refl
  edit-offset_of ((n, index) ∷ cs) new = elim (Bool-cases (same_text n name)) [
    | inl e ↦ rw (e, same_text-eq n name e) (edit_first index new (encode cs))
    | inr e ↦ rw e (
        edit_shifted n index new (encode cs) (offset_of cs name)
        ∙ ap (λ l. entry n index ++ l) (edit-offset_of cs new))
  ]

  get-offset_of :
      (cs : Children)
      → AreChildren cs
      → get_record (table (encode cs) sectors) name (offset_of cs name) ≡ index_of cs name
  unfolding encode offset_of index_of
  get-offset_of [] a = refl
  get-offset_of ((n, index) ∷ cs) a = elim (Bool-cases (same_text n name)) [
    | inl e ↦ rw (e, same_text-eq n name e) (get_first index (encode cs) a.1)
    | inr e ↦ rw e (get_shifted n index (encode cs) (offset_of cs name) ∙ get-offset_of cs a.2)
  ]

encode_add :
    (cs : Children) (name : List ℕ) (index : ℕ)
    → encode cs ++ (name ++ (0 ∷ word_bytes index)) ≡ encode (cs ++ ((name, index) ∷ []))
unfolding encode
encode_add cs name index = sym (
    encode-append cs ((name, index) ∷ [])
    ∙ ap (λ l. encode cs ++ l) (append-nil (entry name index)))

-- On the bytes of a list of children the operations of the table are those of the list:
-- `childtable_get` gives the index of the first child of the name, 0 if there is none,
-- `childtable_add` appends a child, `childtable_remove` takes out the first one of the name, and
-- `childtable_edit_index` gives it another index; names are texts and indices words of 32 bits.
pub children_lem :
    (cs : Children) (sectors : ℕ) (name : List ℕ) (index : ℕ)
    → AreChildren cs
    → let t = table (encode cs) sectors in
      (childtable_get t name ≡ index_of cs name)
      × ((childtable_add t name index).bytes ≡ encode (cs ++ ((name, index) ∷ [])))
      × ((childtable_remove t name).bytes ≡ encode (without cs name))
      × ((childtable_edit_index t name index).bytes ≡ encode (with_index cs name index))
unfolding childtable_get childtable_add childtable_remove childtable_edit_index childtable_find
    encode
children_lem cs sectors name index a =
    let f = find_record-offset_of cs (length (encode cs)) name a (length-encode cs) in
    rw f (
      get-offset_of name sectors cs a,
      encode_add cs name index,
      remove-offset_of name sectors cs,
      edit-offset_of name sectors cs index,
    )
