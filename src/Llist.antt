-- ===== src/Llist.antt =====
-- user/llist.c and user/llist.h: a list that grows and shrinks at both ends, over the element at each
-- address. The address of a new element, what malloc returns, is an argument; a freed element keeps
-- its contents here. A value and the size are ints, by their words.
pub mod Cells
pub mod Front
pub mod Deque
use eedox.Base.{ℕ, zero, suc, ◌+◌, Option, none, some, ◌==◌, if◌then◌else◌, u32, sub32}

pub record Ele : Type 0 where
  pub value : ℕ
  pub next : ℕ
  pub prev : ℕ

-- `prev` leads from the head to the tail, `next` back.
pub record Llist : Type 0 where
  pub head : ℕ
  pub tail : ℕ
  pub size : ℕ

-- The elements, by their addresses.
abbrev pub Eles : Type 0
Eles = ℕ → Ele

unfoldable pub put_ele : Eles → ℕ → Ele → Eles
put_ele h a e x = if x == a then e else h x

unfoldable pub set_next : Eles → ℕ → ℕ → Eles
set_next h a n = put_ele h a (record (h a) { next = n })

unfoldable pub set_prev : Eles → ℕ → ℕ → Eles
set_prev h a p = put_ele h a (record (h a) { prev = p })

unfoldable pub llist_create : Llist
llist_create = record { head = 0; tail = 0; size = 0 }

unfoldable pub llist_size : Llist → ℕ
llist_size l = l.size

unfoldable pub llist_fpop : Eles → Llist → ℕ × Llist × Eles
llist_fpop h l =
    let head = h l.head in
    let h' = if head.prev == 0 then h else set_next h head.prev 0 in
    (
      head.value,
      record {
        head = head.prev;
        tail = if head.prev == 0 then 0 else l.tail;
        size = sub32 l.size 1;
      },
      h',
    )

unfoldable pub llist_bpop : Eles → Llist → ℕ × Llist × Eles
llist_bpop h l =
    let tail = h l.tail in
    let h' = if tail.next == 0 then h else set_prev h tail.next 0 in
    (
      tail.value,
      record {
        head = if tail.next == 0 then 0 else l.head;
        tail = tail.next;
        size = sub32 l.size 1;
      },
      h',
    )

unfoldable pub llist_fpush : Eles → Llist → ℕ → ℕ → Llist × Eles
llist_fpush h l ele value =
    let h' = put_ele h ele (record { value = value; next = 0; prev = l.head }) in
    (
      record { head = ele; tail = if l.head == 0 then ele else l.tail; size = u32 (l.size + 1) },
      if l.head == 0 then h' else set_next h' l.head ele,
    )

unfoldable pub llist_bpush : Eles → Llist → ℕ → ℕ → Llist × Eles
llist_bpush h l ele value =
    let h' = put_ele h ele (record { value = value; next = l.tail; prev = 0 }) in
    (
      record { head = if l.tail == 0 then ele else l.head; tail = ele; size = u32 (l.size + 1) },
      if l.tail == 0 then h' else set_prev h' l.tail ele,
    )

-- The loop of `llist_clear`, on `n` rounds; the size says when it ends.
unfoldable pub clear_loop : Eles → Llist → ℕ → Option (Llist × Eles)
clear_loop h l zero = if l.size == 0 then some (l, h) else none
clear_loop h l (suc n) =
    let (value, l', h') = llist_fpop h l in
    let rest = clear_loop h' l' n in if l.size == 0 then some (l, h) else rest

unfoldable pub llist_clear : Eles → Llist → Option (Llist × Eles)
llist_clear h l = clear_loop h l l.size

unfoldable pub llist_fpeek : Eles → Llist → ℕ
llist_fpeek h l = (h l.head).value

unfoldable pub llist_bpeek : Eles → Llist → ℕ
llist_bpeek h l = (h l.tail).value
