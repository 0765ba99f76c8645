-- ===== src/Semaphore.antt =====
-- src/lock.c: the counting semaphore. A kqueue is here the list of its words, oldest first, as
-- Kqueue/Fifo.antt justifies. `ksemaphore_wait` tells whether the caller goes to sleep, and
-- `ksemaphore_signal` which task it puts back on the run queue.
pub mod System
use eedox.Base.{
  ℕ, zero, suc, ◌+◌, ◌-◌, ◌*◌, ◌/◌, ◌%◌, ◌^◌, ◌≤◌, ◌<◌, min, max, ◌≡◌, ◌≢◌, ◌↔◌, ◌⊎◌, inl, inr,
  refl, sym, ap, ap₂, ◌∙◌, subst, fun_ext, Bool, true, false, ◌&&◌, ◌||◌, not, Option, none, some,
  List, [], ◌∷◌, ◌++◌, map, append-nil, append_assoc, arith, ltb, leb, ◌==◌, if◌then◌else◌, u32,
  sub32, ==_iff, Bool-cases, Option-cases, length, get_elem?, set, take, drop, length-append,
  length-set, get_elem?-set_self, get_elem?-set_ne, length-take, length-drop,
}
use eedox.Base.Int.{
  ℤ, pos, negsuc, pos_part, neg_part, sub_ℕ, ◌+ℤ◌, ◌-ℤ◌, ◌≤ℤ◌, leb_ℤ, ltb_ℤ, int32,
}

-- `ksemaphore_t`; `value` is an int32_t.
pub record Semaphore : Type 0 where
  pub value : ℤ
  pub sq : List ℕ

unfoldable pub ksemaphore_init : ℕ → Semaphore
unfolding int32
ksemaphore_init initial = record { value = int32 (pos initial); sq = [] }

unfoldable pub ksemaphore_wait : ℕ → Semaphore → Bool × Semaphore
unfolding ◌-ℤ◌ int32
ksemaphore_wait curtask sem =
    if leb_ℤ sem.value (pos 0)
    then (true, record { value = int32 (sem.value -ℤ pos 1); sq = sem.sq ++ (curtask ∷ []) })
    else (false, record { value = int32 (sem.value -ℤ pos 1); sq = sem.sq })

unfoldable pub ksemaphore_signal : Semaphore → Option ℕ × Semaphore
unfolding ◌+ℤ◌ int32
ksemaphore_signal sem = elim (sem.sq) [
  | [] ↦ (none, record { value = int32 (sem.value +ℤ pos 1); sq = [] })
  | ◌∷◌ task rest ↦ (some task, record { value = int32 (sem.value +ℤ pos 1); sq = rest })
]
