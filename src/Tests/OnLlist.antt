-- ===== src/Tests/OnLlist.antt =====
-- The list of a program at concrete values.
use eedox.Base.{ℕ, ◌<◌, ◌≡◌, refl, false, some, [], ◌∷◌, ◌++◌, arith, ◌==◌, if◌then◌else◌}
use eedox.Llist.{
  Llist, Eles, llist_size, llist_fpush, llist_fpop, llist_bpush, llist_bpop, llist_clear,
  llist_fpeek, llist_bpeek,
}
use eedox.Llist.Cells.{Cells, first, last, is_in, distinct, Seg, IsLlist}
use eedox.Llist.Deque.{llist-IsLlist}

-- 7 at the address 10, then 8 at 20.
abbrev eles : Eles
eles a =
    if a == 10
    then record { value = 7; next = 0; prev = 20 }
    else record { value = 8; next = 10; prev = 0 }

abbrev two_eles : Llist
two_eles = record { head = 10; tail = 20; size = 2 }

abbrev cells : Cells
cells = (10, 7) ∷ (20, 8) ∷ []

two_eles-IsLlist : IsLlist eles two_eles cells
unfolding Seg first last distinct is_in
two_eles-IsLlist = record {
  head = refl;
  tail = refl;
  size = refl;
  seg = (omega arith, refl, (omega arith, refl, _));
  once = refl;
}

llist-IsLlist_example :
    (llist_size two_eles ≡ 2)
    × ((ele value : ℕ)
        → 0 < ele
        → is_in ele cells ≡ false
        → (let (l', h') = llist_fpush eles two_eles ele value in
            IsLlist h' l' ((ele, value) ∷ cells))
          × (let (l', h') = llist_bpush eles two_eles ele value in
              IsLlist h' l' (cells ++ ((ele, value) ∷ []))))
    × ((c : ℕ × ℕ) (ds : Cells)
        → cells ≡ c ∷ ds
        → let (value, l', h') = llist_fpop eles two_eles in
          (value ≡ c.1) × (llist_fpeek eles two_eles ≡ c.1) × IsLlist h' l' ds)
    × ((c : ℕ × ℕ) (ds : Cells)
        → cells ≡ ds ++ (c ∷ [])
        → let (value, l', h') = llist_bpop eles two_eles in
          (value ≡ c.1) × (llist_bpeek eles two_eles ≡ c.1) × IsLlist h' l' ds)
    × ((l' : Llist) × (h' : Eles) × (llist_clear eles two_eles ≡ some (l', h')) × IsLlist h' l' [])
llist-IsLlist_example = llist-IsLlist eles two_eles cells two_eles-IsLlist (omega arith)
