-- ===== src/Ipc/Futex.antt =====
-- kernel/src/ipc/futex.rs: waiting on a word of user memory. A call of `sched::wake_thread` shows
-- as the thread's number in the list that the operation returns.
pub mod Laws
mod Tests
use theory_os.Base.{
  ℕ, zero, suc, ◌+◌, ◌-◌, Bool, true, false, not, Option, none, some, List, [], ◌∷◌, ◌==◌,
  if◌then◌else◌, set, replicate, length,
}
use Prim.Native.Nat.{bit_and}
use theory_os.Base.Bits.{complement}
use theory_os.Base.Slots.{entry, position, holds, is_free}
use theory_os.Ipc.Wait.{WaitQueue, pop, block_on}
use theory_os.Ipc.Wait
use theory_os.Syscall.Uaccess.{Memory, copy_to_user}

pub record FutexEntry : Type 0 where
  pub addr : ℕ
  pub waiters : WaitQueue

abbrev pub max_futex : ℕ
max_futex = 128

-- `FUTEXES`: the entries, and whether some thread has the spin lock.
pub record Futexes : Type 0 where
  pub slots : List (Option FutexEntry)
  pub locked : Bool

abbrev pub initial : Futexes
initial = record { slots = replicate max_futex none; locked = false }

abbrev pub futex_wait_op : ℕ
futex_wait_op = 0

abbrev pub futex_wake_op : ℕ
futex_wake_op = 1

abbrev pub futex_private_flag : ℕ
futex_private_flag = 128

-- What `futex` does for an operation, a word of 32 bits.
pub data Operation : Type 0 where
  wait : Operation
  wake : Operation
  unknown : Operation

unfoldable pub operation : ℕ → Operation
operation op =
    if bit_and op (complement 32 futex_private_flag) == futex_wait_op
    then wait
    else if bit_and op (complement 32 futex_private_flag) == futex_wake_op
    then wake
    else unknown

pub data FutexError : Type 0 where
  inval : FutexError
  again : FutexError
  fault : FutexError

pub data Result (A : Type 0) : Type 0 where
  ok : A → Result A
  err : FutexError → Result A

abbrev pub is_at : ℕ → FutexEntry → Bool
is_at addr e = e.addr == addr

abbrev pub new_entry : ℕ → FutexEntry
new_entry addr = record { addr = addr; waiters = Wait.new }

-- How a call ends, with what it leaves: `spinning` waits without end for the lock, which some
-- sleeping thread has, and `panicked` is an `unwrap` of nothing.
pub data Ended (A : Type 0) : Type 0 where
  done : A → Ended A
  spinning : Ended A
  panicked : Ended A

infixl 5 ◌>>=◌
abbrev pub ◌>>=◌ : {A B : Type 0} → Ended A → (A → Ended B) → Ended B
done a >>= f = f a
spinning >>= f = spinning
panicked >>= f = panicked

abbrev pub lock : Futexes → Ended Futexes
lock t = if t.locked then spinning else done (record t { locked = true })

abbrev pub unlock : Futexes → Futexes
unlock t = record t { locked = false }

-- The entry for an address. With none and no free slot the answer is slot 0.
unfoldable pub slot_for : ℕ → List (Option FutexEntry) → ℕ × List (Option FutexEntry)
unfolding position Wait.new
slot_for addr slots = elim (position (holds (is_at addr)) slots) [
  | some i ↦ (i, slots)
  | none ↦ elim (position is_free slots) [
    | some i ↦ (i, set slots i (some (new_entry addr)))
    | none ↦ (0, slots)
  ]
]

unfoldable pub find_or_create : ℕ → Futexes → Ended (ℕ × Futexes)
unfolding slot_for
find_or_create addr t = lock t >>= λ held.
    done
      ((slot_for addr held.slots).0, unlock (record held { slots = (slot_for addr held.slots).1 }))

-- Thread `tid` queued in an entry, or none for the panic.
unfoldable pub queued : ℕ → ℕ → Futexes → Ended Futexes
unfolding block_on
queued tid i t = elim (entry t.slots i) [
  | none ↦ panicked
  | some e ↦
      done
        (record t { slots = set t.slots i (some (record e { waiters = block_on e.waiters tid })) })
]

-- `FUTEXES.lock()[idx].as_mut().unwrap().waiters.block_on()` up to the switch to another thread:
-- the lock is held until the statement ends, and so while the thread sleeps.
unfoldable pub block : ℕ → ℕ → Futexes → Ended Futexes
unfolding queued
block tid i t = lock t >>= queued tid i

-- The answer of `read_user_u32`.
abbrev pub Word : Type 0
Word = Option ℕ

pub data Waited : Type 0 where
  asleep : Waited
  returned : Result ℕ → Waited

-- What the thread does once it is on: the lock is given back and the word read again.
abbrev pub woken :
    (Futexes → Ended (Waited × Futexes)) → ℕ → Word → Futexes → Ended (Waited × Futexes)
woken once_more expected none t = done (returned (err fault), unlock t)
woken once_more expected (some after) t =
    if after == expected then once_more (unlock t) else done (returned (ok 0), unlock t)

-- The loop of `futex_wait`. The list has, for each sleep, the word that is found after it and the
-- one that the next round reads; at the end of the list the thread is asleep. While it sleeps no
-- other thread can change the table.
unfoldable pub wait_loop :
    ℕ → ℕ → ℕ → List (Word × Word) → Word → Futexes → Ended (Waited × Futexes)
unfolding block
wait_loop tid i expected words none t = done (returned (err fault), t)
wait_loop tid i expected [] (some current) t =
    if current == expected
    then (block tid i t >>= λ t'. done (asleep, t'))
    else done (returned (err again), t)
wait_loop tid i expected ((after, next) ∷ words) (some current) t =
    if current == expected
    then (block tid i t >>= λ t'.
        woken (λ t''. wait_loop tid i expected words next t'') expected after t')
    else done (returned (err again), t)

-- The word is read before the entry is looked up, and again in the first round.
unfoldable pub futex_wait :
    ℕ → ℕ → ℕ → List (Word × Word) → Word → Word → Futexes → Ended (Waited × Futexes)
unfolding find_or_create wait_loop
futex_wait tid uaddr expected words none first t = done (returned (err fault), t)
futex_wait tid uaddr expected words (some current) first t =
    if current == expected
    then (find_or_create uaddr t >>= λ (found : ℕ × Futexes).
        wait_loop tid found.0 expected words first found.1)
    else done (returned (err again), t)

-- The `for` loop of `futex_wake`: the threads woken.
unfoldable pub wake_loop : ℕ → WaitQueue → List ℕ × WaitQueue
unfolding pop
wake_loop zero q = ([], q)
wake_loop (suc count) q =
    let (tid, q') = pop q in
    elim tid [
      | none ↦ ([], q')
      | some t ↦ let (woken, last) = wake_loop count q' in (t ∷ woken, last)
    ]

unfoldable pub wake_at : ℕ → ℕ → List (Option FutexEntry) → List ℕ × List (Option FutexEntry)
unfolding wake_loop position
wake_at uaddr count slots = elim (position (holds (is_at uaddr)) slots) [
  | none ↦ ([], slots)
  | some i ↦ elim (entry slots i) [
    | none ↦ ([], slots)
    | some e ↦
        let (woken, q) = wake_loop count e.waiters in
        (woken, set slots i (some (record e { waiters = q })))
  ]
]

-- The answer of the code is the number of threads woken.
unfoldable pub futex_wake : ℕ → ℕ → Futexes → Ended (List ℕ × Futexes)
unfolding wake_at
futex_wake uaddr count t = lock t >>= λ held. done (
  (wake_at uaddr count held.slots).0,
  unlock (record held { slots = (wake_at uaddr count held.slots).1 }),
)

-- `futex`: the threads woken, and the table.
unfoldable pub futex :
    ℕ → ℕ → ℕ → ℕ → List (Word × Word) → Word → Word → Futexes → Ended (Waited × List ℕ × Futexes)
unfolding operation futex_wait futex_wake
futex tid uaddr op val words word first t = elim (operation op) [
  | wait ↦
      futex_wait tid uaddr val words word first t >>= λ (r : Waited × Futexes). done (r.0, [], r.1)
  | wake ↦ futex_wake uaddr val t >>= λ (r : List ℕ × Futexes).
      done (returned (ok (length r.0)), r.0, r.1)
  | unknown ↦ done (returned (err inval), [], t)
]

-- The word is cleared, if it can be.
unfoldable pub wake_user : ℕ → ℕ → Memory → Futexes → Memory × Ended (List ℕ × Futexes)
unfolding copy_to_user futex_wake
wake_user uaddr count mem t =
    ((copy_to_user uaddr (0 ∷ 0 ∷ 0 ∷ 0 ∷ []) mem).1, futex_wake uaddr count t)
