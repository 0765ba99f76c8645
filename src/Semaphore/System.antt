-- ===== src/Semaphore/System.antt =====
-- Tasks that share one semaphore of src/lock.c, in any order of their calls.
use eedox.Base.{
  ap, sym, ◌<◌, ◌^◌, ℕ, ◌+◌, min, ◌≡◌, refl, Bool, true, false, Option, none, some, List, [], ◌∷◌,
  ◌++◌, append_assoc, arith, length, length-append,
}
use eedox.Base.Int.{ℤ, pos, negsuc, pos_part, neg_part, ◌+ℤ◌, ◌-ℤ◌, int32, int32_in_range}
use eedox.Semaphore.{Semaphore, ksemaphore_init, ksemaphore_wait, ksemaphore_signal}

-- The sleepers are as many as the value is below zero, and there is none at a value of at least 0.
pub record IsBalanced (sem : Semaphore) : Type 0 where
  pub sleepers : length sem.sq ≡ neg_part sem.value

-- A run of the semaphore: how often each operation has been called, how many callers of
-- `ksemaphore_wait` have passed, and who has slept and who has been woken, in order. A task that
-- sleeps has passed once it is put back on the run queue.
pub record State : Type 0 where
  pub sem : Semaphore
  pub waits : ℕ
  pub signals : ℕ
  pub passed : ℕ
  pub slept : List ℕ
  pub woken : List ℕ

pub data Call : Type 0 where
  wait : ℕ → Call
  signal : Call

abbrev waited : State → ℕ → Bool × Semaphore → State
waited s t (true, sem) = record s { sem = sem; waits = s.waits + 1; slept = s.slept ++ (t ∷ []) }
waited s t (false, sem) = record s { sem = sem; waits = s.waits + 1; passed = s.passed + 1 }

abbrev signalled : State → Option ℕ × Semaphore → State
signalled s (none, sem) = record s { sem = sem; signals = s.signals + 1 }
signalled s (some t, sem) = record s {
  sem = sem;
  signals = s.signals + 1;
  passed = s.passed + 1;
  woken = s.woken ++ (t ∷ []);
}

unfoldable pub call : State → Call → State
call s (wait t) = waited s t (ksemaphore_wait t s.sem)
call s signal = signalled s (ksemaphore_signal s.sem)

unfoldable pub calls : State → List Call → State
calls s [] = s
calls s (c ∷ cs) = calls (call s c) cs

unfoldable pub start : ℕ → State
start n = record {
  sem = ksemaphore_init n;
  waits = 0;
  signals = 0;
  passed = 0;
  slept = [];
  woken = [];
}

record Inv (n : ℕ) (s : State) : Type 0 where
  balanced : IsBalanced s.sem
  account : pos_part s.sem.value + s.waits ≡ n + s.signals + neg_part s.sem.value
  passing : s.passed + length s.sem.sq ≡ s.waits
  fifo : s.slept ≡ s.woken ++ s.sem.sq

-- The value stays in the range of an int32_t while there have been less than 2^31 calls.
module _ (n : ℕ) (s : State) (few : n + s.waits + s.signals + 1 < 2 ^ 31) where
  signal-Inv :
      (value : ℤ) (sq : List ℕ)
      → Inv n (record s { sem = record { value = value; sq = sq } })
      → Inv n (signalled s (ksemaphore_signal (record { value = value; sq = sq })))
  unfolding ksemaphore_signal ◌+ℤ◌ int32
  signal-Inv value [] v =
      let e : int32 (value +ℤ pos 1) ≡ value +ℤ pos 1 =
        int32_in_range _ (ground (arith, v.account, v.passing, v.balanced.sleepers))
          (ground (arith, v.account, v.passing, v.balanced.sleepers)) in
      rw e (ground (arith, v.balanced.sleepers, v.account, v.passing, v.fifo))
  signal-Inv value (t ∷ sq) v =
      let e : int32 (value +ℤ pos 1) ≡ value +ℤ pos 1 =
        int32_in_range _ (ground (arith, v.account, v.passing, v.balanced.sleepers))
          (ground (arith, v.account, v.passing, v.balanced.sleepers)) in
      rw e (
        ground (
          arith,
          v.balanced.sleepers,
          v.account,
          v.passing,
          v.fifo,
          append_assoc s.woken (t ∷ []) sq,
        ))

  call-Inv : (c : Call) → Inv n s → Inv n (call s c)
  unfolding call ksemaphore_wait ◌-ℤ◌
  call-Inv (wait t) v =
      let e : int32 (s.sem.value -ℤ pos 1) ≡ s.sem.value -ℤ pos 1 =
        int32_in_range _ (ground (arith, v.account, v.passing, v.balanced.sleepers))
          (ground (arith, v.account, v.passing, v.balanced.sleepers)) in
      rw e (
        ground (
          arith,
          length-append s.sem.sq (t ∷ []),
          append_assoc s.woken s.sem.sq (t ∷ []),
          v.balanced.sleepers,
          v.account,
          v.passing,
          v.fifo,
        ))
  call-Inv signal v = signal-Inv s.sem.value s.sem.sq v

call-more : (s : State) (c : Call) → (call s c).waits + (call s c).signals ≡ s.waits + s.signals + 1
unfolding call ksemaphore_wait ksemaphore_signal
call-more s (wait t) = ground arith
call-more s signal = ground arith

calls-Inv :
    (n : ℕ) (s : State) (cs : List Call)
    → n + s.waits + s.signals + length cs < 2 ^ 31
    → Inv n s
    → Inv n (calls s cs)
unfolding calls
calls-Inv n s [] few v = v
calls-Inv n s (c ∷ cs) few v =
    calls-Inv n (call s c) cs (omega (arith, call-more s c)) (call-Inv n s (omega arith) c v)

passed_lem :
    (v : ℤ) (n waits signals passed : ℕ)
    → pos_part v + waits ≡ n + signals + neg_part v
    → passed + neg_part v ≡ waits
    → passed ≡ min waits (n + signals)
passed_lem (pos k) n waits signals passed a b = omega arith
passed_lem (negsuc k) n waits signals passed a b = omega arith

-- While the initial value and the calls together are less than 2^31, however the calls are ordered, the number of tasks that have passed is the smaller of the number
-- of waits and of the initial value with the signals, so that none passes too many and none sleeps
-- while a pass is left; and the tasks that slept are woken in the order in which they went to sleep.
pub passed-min :
    (n : ℕ) (cs : List Call)
    → n + length cs < 2 ^ 31
    → let s = calls (start n) cs in
      (s.passed ≡ min s.waits (n + s.signals)) × (s.slept ≡ s.woken ++ s.sem.sq)
unfolding start ksemaphore_init
passed-min n cs few =
    let e : int32 (pos n) ≡ pos n = int32_in_range (pos n) (omega arith) (omega arith) in
    let v = calls-Inv n (start n) cs (omega arith) (record {
      balanced = record { sleepers = ap (λ z. neg_part z) (sym e) };
      account = ground (arith, e);
      passing = refl;
      fifo = refl;
    }) in
    (
      passed_lem (calls (start n) cs).sem.value n _ _ _ v.account
          (omega (arith, v.passing, v.balanced.sleepers)),
      v.fifo,
    )
