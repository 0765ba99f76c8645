-- ===== src/Ordlist/Held.antt =====
-- What the ordered list of src/ordlist.c holds, whatever its order: how often each word stands in it.
use eedox.Base.{
  ℕ, zero, suc, ◌+◌, ◌-◌, ◌≤◌, ◌<◌, ◌≡◌, inl, inr, refl, Bool, arith, ltb, ◌==◌, if◌then◌else◌,
  Bool-cases,
}
use eedox.Memory.{Mem}
use eedox.Ordlist.{Ordlist, ordlist_insert, ordlist_remove, shift_down}
use eedox.Ordlist.Order.{shift_up-Shifted, cells, shift_down_lem}

abbrev pub one_if : Bool → ℕ
one_if b = if b then 1 else 0

-- How often `x` stands in the first `n` words of the array.
unfoldable pub count : Mem → ℕ → ℕ → ℕ
count a zero x = 0
count a (suc n) x = one_if (a n == x) + count a n x

count-same : (a b : Mem) (n x : ℕ) → ((k : ℕ) → k < n → b k ≡ a k) → count b n x ≡ count a n x
unfolding count
count-same a b zero x h = refl
count-same a b (suc n) x h = ground (arith, h n, count-same a b n x (λ k l. h k (omega arith)))

count-put_in :
    (a b : Mem) (n i elem x : ℕ)
    → i ≤ n
    → ((k : ℕ) → k ≤ n → b k ≡ (if ltb k i then a k else if k == i then elem else a (k - 1)))
    → count b (n + 1) x ≡ one_if (elem == x) + count a n x
unfolding count
count-put_in a b zero i elem x le h = ground (arith, h 0)
count-put_in a b (suc n) i elem x le h = elim (Bool-cases (i == suc n)) [
  | inl e ↦ ground (arith, h (suc n), count-same a b (suc n) x (λ k l. ground (arith, h k)))
  | inr e ↦
      ground
        (arith, h (suc n), count-put_in a b n i elem x (ground arith) (λ k l. h k (omega arith)))
]

count-take_out :
    (a b : Mem) (n i x : ℕ)
    → i ≤ n
    → ((k : ℕ) → k < n → b k ≡ (if ltb k i then a k else a (k + 1)))
    → one_if (a i == x) + count b n x ≡ count a (n + 1) x
unfolding count
count-take_out a b zero i x le h = ground (arith)
count-take_out a b (suc n) i x le h = elim (Bool-cases (i == suc n)) [
  | inl e ↦ ground (arith, count-same a b (suc n) x (λ k l. ground (arith, h k)))
  | inr e ↦ ground (arith, h n, count-take_out a b n i x (ground arith) (λ k l. h k (omega arith)))
]

-- How often a word stands in the list.
unfoldable pub held : Ordlist → ℕ → ℕ
held l x = count l.array l.size x

-- `ordlist_insert` adds one word to those that the list holds.
pub held-insert :
    (l : Ordlist) (elem x : ℕ) → held (ordlist_insert l elem).1 x ≡ one_if (elem == x) + held l x
unfolding held ordlist_insert
held-insert l elem x =
    let s = shift_up-Shifted l.cmp l.order elem l.array l.size in
    let c = cells l.cmp l.order elem l.array l.size _ _ s in
    count-put_in l.array _ l.size _ elem x s.le (λ k h. ground (arith, c k))

-- `ordlist_remove` takes away one word, the one at the index.
pub held-remove :
    (l : Ordlist) (idx x : ℕ)
    → idx < l.size
    → one_if (l.array idx == x) + held (ordlist_remove l idx).1 x ≡ held l x
unfolding held ordlist_remove
held-remove l idx x h = ground (
  arith,
  count-take_out l.array (shift_down l.array idx (l.size - idx)) (l.size - 1) idx x (omega arith)
      (λ k b. ground (arith, shift_down_lem l.array idx (l.size - idx) k)),
)

pub held-at : (l : Ordlist) (k : ℕ) → k < l.size → 0 < held l (l.array k)
unfolding held count
held-at l k h = from l.size k h
  where
    from : (n k : ℕ) → k < n → 0 < count l.array n (l.array k)
    from zero k h = absurd (omega arith)
    from (suc n) k h = elim (Bool-cases (k == n)) [
      | inl e ↦ ground arith
      | inr e ↦ ground (arith, from n k)
    ]

pub held-index : (l : Ordlist) (x : ℕ) → 0 < held l x → (k : ℕ) × ((k < l.size) × (l.array k ≡ x))
unfolding held count
held-index l x h = from l.size h
  where
    from : (n : ℕ) → 0 < count l.array n x → (k : ℕ) × ((k < n) × (l.array k ≡ x))
    from zero h = absurd (omega arith)
    from (suc n) h = elim (Bool-cases (l.array n == x)) [
      | inl e ↦ (n, (omega arith, ground arith))
      | inr e ↦ let r = from n (ground arith) in (r.0, (omega (arith, r.1.0), r.1.1))
    ]
