-- ===== src/Tests/OnOrdlist.antt =====
-- Runs of the ordered list of src/ordlist.c.
use eedox.Base.{ℕ, ◌+◌, ◌-◌, ◌≤◌, ◌<◌, ◌≡◌, arith, ltb, leb, ◌==◌, if◌then◌else◌}
use eedox.Base.Int.{ℤ, pos, negsuc}
use eedox.Ordlist.{Ordlist, ascending, ordlist_insert, ordlist_remove}
use eedox.Ordlist.Order.{
  MayPrecede, IsOrdered, IsComparison, ordlist_insert-IsOrdered, ordlist_remove-IsOrdered,
}

abbrev compare : ℕ → ℕ → ℤ
compare a b = if ltb b a then pos 1 else if ltb a b then negsuc 0 else pos 0

-- 3, 5
abbrev two_numbers : Ordlist
two_numbers = record {
  size = 2;
  max_size = 8;
  array = λ i. if i == 0 then 3 else 5;
  cmp = compare;
  order = ascending;
}

two_numbers-IsOrdered : IsOrdered two_numbers
unfolding IsOrdered MayPrecede
two_numbers-IsOrdered i j h l = λ g. ground arith

compare-IsComparison : IsComparison compare
compare-IsComparison = record {
  greater = λ a b h. ground arith;
  smaller = λ a b h. ground arith;
  trans = λ a b c h k g. ground arith;
}

ordlist_insert-IsOrdered_example :
    let (idx, l') = ordlist_insert two_numbers 4 in
    (idx ≤ 2)
    × (l'.size ≡ 3)
    × ((k : ℕ)
        → l'.array k ≡ (
            if ltb k idx
            then two_numbers.array k
            else if k == idx
            then 4
            else if leb k 2
            then two_numbers.array (k - 1)
            else two_numbers.array k))
    × ((k : ℕ) → idx ≤ k → k < 2 → ¬ MayPrecede compare ascending (two_numbers.array k) 4)
    × IsOrdered l'
ordlist_insert-IsOrdered_example =
    ordlist_insert-IsOrdered two_numbers 4 compare-IsComparison two_numbers-IsOrdered

ordlist_remove-IsOrdered_example :
    let (elem, l') = ordlist_remove two_numbers 0 in
    (elem ≡ 3)
    × (l'.size + 1 ≡ 2)
    × ((k : ℕ)
        → k < l'.size
        → l'.array k ≡ (if ltb k 0 then two_numbers.array k else two_numbers.array (k + 1)))
    × IsOrdered l'
ordlist_remove-IsOrdered_example =
    ordlist_remove-IsOrdered two_numbers 0 (omega arith) two_numbers-IsOrdered
