-- ===== src/Kqueue.antt =====
-- src/kqueue.c and src/kqueue.h: a singly linked queue of words, on a heap that gives the element at
-- an address. `heap_alloc` enters by the address that it returns, 0 when it fails. A read or a write
-- through NULL or through an address that holds no element is a fault, and so is a second free, which
-- src/heapwatch.c answers with a panic.
pub mod Fifo
use eedox.Base.{
  ℕ, zero, suc, ◌+◌, ◌-◌, ◌*◌, ◌/◌, ◌%◌, ◌^◌, ◌≤◌, ◌<◌, min, max, ◌≡◌, ◌≢◌, ◌↔◌, ◌⊎◌, inl, inr,
  refl, sym, ap, ap₂, ◌∙◌, subst, fun_ext, Bool, true, false, ◌&&◌, ◌||◌, not, Option, none, some,
  List, [], ◌∷◌, ◌++◌, map, append-nil, append_assoc, arith, ltb, leb, ◌==◌, if◌then◌else◌, u32,
  sub32, ==_iff, Bool-cases, Option-cases, length, get_elem?, set, take, drop, length-append,
  length-set, get_elem?-set_self, get_elem?-set_ne, length-take, length-drop,
}
use eedox.Base.Int.{ℤ, pos, negsuc, pos_part, neg_part, sub_ℕ, ◌+ℤ◌, ◌-ℤ◌, ◌≤ℤ◌, leb_ℤ, ltb_ℤ}

-- `kqueue_ele`
pub record Element : Type 0 where
  pub next : ℕ
  pub value : ℕ

abbrev pub Heap : Type 0
Heap = ℕ → Option Element

-- `kqueue_t`, without the pointer to its heap.
pub record Kqueue : Type 0 where
  pub head : ℕ
  pub tail : ℕ
  pub size : ℕ

pub data Outcome {ℓ} (A : Type ℓ) : Type ℓ where
  done : A → Heap → Outcome A
  fault : Outcome A
  out_of_fuel : Outcome A

module _ {ℓ κ} {A : Type ℓ} {B : Type κ} where
  abbrev pub and_then : Outcome A → (A → Heap → Outcome B) → Outcome B
  and_then (done a h) f = f a h
  and_then fault f = fault
  and_then out_of_fuel f = out_of_fuel

  infixl 5 ◌>>=◌
  abbrev pub ◌>>=◌ : (Heap → Outcome A) → (A → Heap → Outcome B) → Heap → Outcome B
  m >>= f = λ h. and_then (m h) f

unfoldable pub put : Heap → ℕ → Option Element → Heap
put h p c x = if x == p then c else h x

unfoldable pub load : ℕ → Heap → Outcome Element
load p h = if p == 0 then fault else elim (h p) [ none ↦ fault | some e ↦ done e h ]

-- A write to all fields of a fresh element.
unfoldable pub store_new : ℕ → Element → Heap → Outcome (Unit {0})
store_new p e h = if p == 0 then fault else done tt (put h p (some e))

unfoldable pub set_next : ℕ → ℕ → Heap → Outcome (Unit {0})
set_next p q = do e ← load p; λ h. done tt (put h p (some (record e { next = q })))

unfoldable pub free : ℕ → Heap → Outcome (Unit {0})
free p = do e ← load p; λ h. done tt (put h p none)

unfoldable pub kqueue_new : Kqueue
kqueue_new = record { head = 0; tail = 0; size = 0 }

-- `fresh` is what `heap_alloc` returns.
unfoldable pub kqueue_push : ℕ → Kqueue → ℕ → Heap → Outcome Kqueue
kqueue_push fresh q value = do
  u ← store_new fresh (record { next = 0; value = value })
  if q.size == 0
      then done (record { head = fresh; tail = fresh; size = u32 (q.size + 1) })
      else do v ← set_next q.tail fresh; done (record q { tail = fresh; size = u32 (q.size + 1) })

unfoldable pub kqueue_pop : Kqueue → Heap → Outcome (ℕ × Kqueue)
kqueue_pop q = do
  ele ← load q.head
  u ← free q.head
  done (
    ele.value,
    record { head = ele.next; tail = if ele.next == 0 then 0 else q.tail; size = sub32 q.size 1 },
  )

unfoldable pub kqueue_peek : Kqueue → Heap → Outcome ℕ
kqueue_peek q = do ele ← load q.head; done ele.value

-- The loop of `kqueue_clear`: `next` is set to `ele`, not to its successor.
unfoldable pub clear_loop : ℕ → ℕ → Heap → Outcome (Unit {0})
clear_loop zero ele = λ h. out_of_fuel
clear_loop (suc fuel) ele =
    let rest = free ele >>= (λ u. clear_loop fuel ele) in if ele == 0 then done tt else rest

unfoldable pub kqueue_clear : ℕ → Kqueue → Heap → Outcome Kqueue
kqueue_clear fuel q = do u ← clear_loop fuel q.head; done (record { head = 0; tail = 0; size = 0 })
