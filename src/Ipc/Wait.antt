-- ===== src/Ipc/Wait.antt =====
-- kernel/src/ipc/wait.rs: the wait queues of the blocking primitives. A call of
-- `sched::wake_thread` shows as the thread's number in the list that the operation returns, in the
-- order of the calls.
pub mod Stack
mod Tests
use theory_os.Base.{
  ℕ, zero, suc, ◌+◌, ◌-◌, Bool, true, false, Option, none, some, List, [], ◌∷◌, leb, ◌==◌,
  if◌then◌else◌, get_or, set, replicate,
}

-- `[Tid; 32]` and the number of entries in use.
pub record WaitQueue : Type 0 where
  pub threads : List ℕ
  pub len : ℕ

abbrev pub capacity : ℕ
capacity = 32

-- `Tid::INVALID`.
abbrev pub invalid_tid : ℕ
invalid_tid = 0xffff_ffff

unfoldable pub new : WaitQueue
new = record { threads = replicate capacity invalid_tid; len = 0 }

unfoldable pub push : WaitQueue → ℕ → Bool × WaitQueue
push q tid =
    if leb capacity q.len
    then (false, q)
    else (true, record { threads = set q.threads q.len tid; len = q.len + 1 })

unfoldable pub pop : WaitQueue → Option ℕ × WaitQueue
pop q =
    if q.len == 0
    then (none, q)
    else (some (get_or q.threads (q.len - 1) invalid_tid), record q { len = q.len - 1 })

unfoldable pub wake_one : WaitQueue → List ℕ × WaitQueue
unfolding pop
wake_one q = let (tid, q') = pop q in elim tid [ none ↦ ([], q') | some t ↦ (t ∷ [], q') ]

-- The `while let` of `wake_all`, on fuel.
unfoldable pub wake_loop : ℕ → WaitQueue → List ℕ × WaitQueue
unfolding pop
wake_loop zero q = ([], q)
wake_loop (suc fuel) q =
    let (tid, q') = pop q in
    elim tid [
      | none ↦ ([], q')
      | some t ↦ let (woken, last) = wake_loop fuel q' in (t ∷ woken, last)
    ]

-- Every round takes one entry, so a round more than there are entries is enough.
unfoldable pub wake_all : WaitQueue → List ℕ × WaitQueue
unfolding wake_loop
wake_all q = wake_loop (q.len + 1) q

-- `block_on` by thread `tid`; the result of `push` is dropped. The switch to another thread is
-- what the caller's environment does next.
unfoldable pub block_on : WaitQueue → ℕ → WaitQueue
unfolding push
block_on q tid = (push q tid).1
