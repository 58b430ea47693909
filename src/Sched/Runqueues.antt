-- ===== src/Sched/Runqueues.antt =====
-- The array RUNQUEUES behind its spin lock, in kernel/src/sched/runqueue.rs. A thread that locks it
-- while it is locked spins without end, which is `looping`.
pub mod Stealing
pub mod Tests
use theory_os.Base.{
  ℕ, zero, suc, ◌+◌, Bool, true, false, List, Option, none, some, get_elem?, set, leb, ltb, ◌==◌,
  if◌then◌else◌,
}
use theory_os.Sched.Rbtree.Store as Store
use theory_os.Sched.Rbtree.Store.{invalid_tid}
use theory_os.Sched.Runqueue.{
  Threads, CfsRunQueue, Ended, ok, panicked, looping, ◌>>=◌, enqueue, pick_next, steal_from,
  update_current_runtime,
}

pub record Machine : Type 0 where
  pub queues : List CfsRunQueue
  pub threads : Threads
  pub locked : Bool

-- `CfsRunQueue::new` and `init`.
unfoldable pub new_queue : ℕ → CfsRunQueue
new_queue cpu = record {
  cpu = cpu;
  tree = Store.new;
  nr_running = 0;
  min_vruntime = 0;
  curr = invalid_tid;
  idle = invalid_tid;
}

unfoldable pub init_queue : CfsRunQueue → CfsRunQueue
init_queue rq = record rq { tree = Store.init rq.tree }

abbrev pub lock : Machine → Ended Machine
lock m = if m.locked then looping else ok (record m { locked = true })

abbrev pub unlock : Machine → Machine
unlock m = record m { locked = false }

abbrev pub at : Machine → ℕ → Ended CfsRunQueue
at m cpu = elim (get_elem? m.queues cpu) [ none ↦ panicked | some rq ↦ ok rq ]

abbrev pub put_back : Machine → ℕ → CfsRunQueue → Machine
put_back m cpu rq = record m { queues = set m.queues cpu rq }

-- `with_runqueue`: the closure runs under the lock, on the queue and on the rest of the machine.
unfoldable pub with_runqueue :
    {R : Type 0} → Machine → ℕ → (Machine → CfsRunQueue → Ended (R × Machine)) → Ended (R × Machine)
with_runqueue {R} m cpu f = do
  held ← lock m
  rq ← at held cpu
  f held rq >>= λ (r : R × Machine). ok (r.0, unlock r.1)

unfoldable pub init_cpu : Machine → ℕ → ℕ → Ended Machine
unfolding new_queue init_queue
init_cpu m cpu idle_tid = do
  held ← lock m
  old ← at held cpu
  ok (unlock (put_back held cpu (record (init_queue (new_queue cpu)) { idle = idle_tid })))

unfoldable pub enqueue_thread : Machine → ℕ → ℕ → Ended (Unit {0} × Machine)
unfolding with_runqueue
enqueue_thread m tid cpu = with_runqueue m cpu (λ held rq.
    enqueue held.threads rq tid >>= λ (r : Threads × CfsRunQueue).
    ok (tt, record (put_back held cpu r.1) { threads = r.0 }))

-- The loop of `try_steal`, over the `n` CPUs from `other` on.
unfoldable pub steal_loop : ℕ → ℕ → Machine → ℕ → Ended (Option ℕ × Machine)
unfolding steal_from
steal_loop zero other m cpu = ok (none, m)
steal_loop (suc n) other m cpu = elim (other == cpu) [
  | true ↦ steal_loop n (suc other) m cpu
  | false ↦ do
    held ← lock m
    victim ← at held other
    elim (leb victim.nr_running 1) [
      | true ↦ steal_loop n (suc other) (unlock held) cpu
      | false ↦ do
        rq ← at held cpu
        (stolen, threads, rq', victim') ← steal_from held.threads rq victim
        let m' : Machine =
              unlock
                (record (put_back (put_back held cpu rq') other victim') { threads = threads }) in
            elim stolen [ none ↦ steal_loop n (suc other) m' cpu | some tid ↦ ok (some tid, m') ]
    ]
]

-- `cpu_count` is what `smp::cpu_count` returns.
unfoldable pub try_steal : ℕ → Machine → ℕ → Ended (Option ℕ × Machine)
unfolding steal_loop
try_steal cpu_count m cpu = steal_loop cpu_count 0 m cpu

-- `rq.pick_next()` at the end of the closure, on the queue as it is then.
unfoldable pub pick_held : Machine → ℕ → Ended (ℕ × Machine)
unfolding pick_next
pick_held held cpu = do
  rq ← at held cpu
  (tid, threads, rq') ← pick_next held.threads rq
  ok (tid, record (put_back held cpu rq') { threads = threads })

unfoldable pub pick_next_thread : ℕ → Machine → ℕ → Ended (ℕ × Machine)
unfolding with_runqueue try_steal pick_held
pick_next_thread cpu_count m cpu = with_runqueue m cpu (λ held rq. elim (rq.nr_running == 0) [
  | true ↦ try_steal cpu_count held cpu >>= λ (r : Option ℕ × Machine). elim r.0 [
    | some tid ↦ ok (tid, r.1)
    | none ↦ pick_held r.1 cpu
  ]
  | false ↦ pick_held held cpu
])

unfoldable pub set_current : Machine → ℕ → ℕ → Ended Machine
set_current m cpu tid = do
  held ← lock m
  rq ← at held cpu
  ok (unlock (put_back held cpu (record rq { curr = tid })))

unfoldable pub current_on_cpu : Machine → ℕ → Ended (ℕ × Machine)
current_on_cpu m cpu = do held ← lock m; rq ← at held cpu; ok (rq.curr, unlock held)

unfoldable pub runnable_count : Machine → ℕ → Ended (ℕ × Machine)
runnable_count m cpu = do held ← lock m; rq ← at held cpu; ok (rq.nr_running, unlock held)

-- `update_current_runtime` of a CPU.
unfoldable pub charge_current : Machine → ℕ → ℕ → Ended Machine
unfolding update_current_runtime
charge_current m cpu delta_ns = do
  held ← lock m
  rq ← at held cpu
  ok (unlock (record held { threads = update_current_runtime held.threads rq delta_ns }))
