-- ===== src/Tests/OnChildren.antt =====
-- Runs of the table of children of src/fs.c.
use eedox.Base.{ℕ, ◌≡◌, List, [], ◌∷◌, ◌++◌, arith}
use eedox.Fs.Children.{childtable_get, childtable_add, childtable_remove, childtable_edit_index}
use eedox.Fs.Records.{Children, AreChildren, encode, index_of, without}
use eedox.Fs.ChildrenLaws.{table, with_index, children_lem}

abbrev name_bin : List ℕ
name_bin = 98 ∷ 105 ∷ 110 ∷ []

-- `a` at 5 and `bin` at 300.
abbrev two_children : Children
two_children = (97 ∷ [], 5) ∷ (name_bin, 300) ∷ []

two_children-AreChildren : AreChildren two_children
two_children-AreChildren = (
  (omega arith, omega arith, tt),
  omega arith,
  (
    (omega arith, omega arith, (omega arith, omega arith, (omega arith, omega arith, tt))),
    omega arith,
    tt,
  ),
)

children_lem_example :
    let t = table (encode two_children) 1 in
    (childtable_get t name_bin ≡ index_of two_children name_bin)
    × ((childtable_add t name_bin 7).bytes ≡ encode (two_children ++ ((name_bin, 7) ∷ [])))
    × ((childtable_remove t name_bin).bytes ≡ encode (without two_children name_bin))
    × ((childtable_edit_index t name_bin 7).bytes ≡ encode (with_index two_children name_bin 7))
children_lem_example = children_lem two_children 1 name_bin 7 two_children-AreChildren
