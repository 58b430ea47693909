-- ===== src/Ipc/Wait/Stack.antt =====
-- A wait queue is a bounded stack of the sleeping threads, newest first.
use theory_os.Base.{
  ℕ, zero, suc, ◌+◌, ◌-◌, ◌≤◌, ◌<◌, ◌≡◌, refl, none, some, List, [], ◌∷◌, ◌≢◌, arith, if◌then◌else◌,
  ltb, get_or, set, length, length-set, get_or-set_self, get_or-set_ne,
}
use theory_os.Ipc.Wait.{WaitQueue, invalid_tid, push, pop, wake_loop, wake_all, block_on}

pub record IsValid (q : WaitQueue) : Type 0 where
  pub storage : length q.threads ≡ 32
  pub bounded : q.len ≤ 32

abbrev pub newest : List ℕ → ℕ → List ℕ
newest threads zero = []
newest threads (suc n) = get_or threads n invalid_tid ∷ newest threads n

-- The threads asleep on the queue, in the order in which `pop` gives them.
abbrev pub sleepers : WaitQueue → List ℕ
sleepers q = newest q.threads q.len

newest-set : (threads : List ℕ) (n i t : ℕ) → n ≤ i → newest (set threads i t) n ≡ newest threads n
newest-set threads zero i t h = refl
newest-set threads (suc n) i t h =
    let ne : i ≢ n = omega arith in
    let rest : newest (set threads i t) n ≡ newest threads n =
      newest-set threads n i t (omega arith) in
    ground (arith, get_or-set_ne threads i n t invalid_tid ne, rest)

newest-suc :
    (threads : List ℕ) (n : ℕ)
    → n ≢ 0
    → newest threads n ≡ get_or threads (n - 1) invalid_tid ∷ newest threads (n - 1)
newest-suc threads zero h = absurd (h refl)
newest-suc threads (suc n) h = let e : suc n - 1 ≡ n = omega arith in rw e

newest_step :
    (threads : List ℕ) (n : ℕ)
    → newest threads (n + 1) ≡ get_or threads n invalid_tid ∷ newest threads n
newest_step threads n = let e : n + 1 ≡ suc n = omega arith in rw e

-- A push that is accepted puts the thread on top; one at 32 sleepers is refused and changes
-- nothing.
pub push_lem :
    (q : WaitQueue) (t : ℕ)
    → IsValid q
    → ((push q t).0 ≡ ltb q.len 32)
      × (sleepers (push q t).1 ≡ (if ltb q.len 32 then t ∷ sleepers q else sleepers q))
      × IsValid (push q t).1
unfolding push
push_lem q t v = ground (
  arith,
  length-set q.threads q.len t,
  newest_step (set q.threads q.len t) q.len,
  newest-set q.threads q.len q.len t,
  get_or-set_self q.threads q.len t invalid_tid,
)

-- `pop` gives the thread that fell asleep last and keeps the others, or none from an empty queue.
pub pop_lem :
    (q : WaitQueue)
    → IsValid q
    → (sleepers q ≡ elim (pop q).0 [ none ↦ [] | some t ↦ t ∷ sleepers (pop q).1 ])
      × ((pop q).0 ≡ none → q.len ≡ 0)
      × IsValid (pop q).1
unfolding pop
pop_lem q v = ground (arith, newest-suc q.threads q.len)

wake_loop_lem :
    (fuel : ℕ) (q : WaitQueue)
    → IsValid q
    → q.len < fuel
    → ((wake_loop fuel q).0 ≡ sleepers q)
      × (sleepers (wake_loop fuel q).1 ≡ [])
      × IsValid (wake_loop fuel q).1
unfolding wake_loop
wake_loop_lem zero q v h = absurd (omega arith)
wake_loop_lem (suc fuel) q v h =
    ground (arith, newest-suc q.threads q.len, wake_loop_lem fuel (pop q).1)

-- `wake_all` wakes every sleeper once, newest first, and leaves the queue empty.
pub wake_all_lem :
    (q : WaitQueue)
    → IsValid q
    → ((wake_all q).0 ≡ sleepers q) × (sleepers (wake_all q).1 ≡ []) × IsValid (wake_all q).1
unfolding wake_all
wake_all_lem q v = wake_loop_lem (q.len + 1) q v (omega arith)

-- A thread that blocks on a full queue sleeps without being recorded: no later `wake_all` wakes
-- it.
pub block_on-full :
    (q : WaitQueue) (t : ℕ) → IsValid q → q.len ≡ 32 → (wake_all (block_on q t)).0 ≡ sleepers q
unfolding block_on push
block_on-full q t v full =
    let unchanged : block_on q t ≡ q = ground arith in rw unchanged (wake_all_lem q v).0
