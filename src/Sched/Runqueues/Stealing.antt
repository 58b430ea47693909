-- ===== src/Sched/Runqueues/Stealing.antt =====
-- `pick_next_thread` of kernel/src/sched/runqueue.rs steals under the lock that it holds.
use theory_os.Base.{
  ℕ, zero, suc, ◌≤◌, ◌<◌, true, false, some, get_elem?, ◌==◌, if◌then◌else◌, Bool-cases, ◌≡◌, refl,
  ◌∙◌, inl, inr, arith,
}
use theory_os.Sched.Runqueue.{CfsRunQueue, Ended, ok, looping, ◌>>=◌}
use theory_os.Sched.Runqueues.{
  Machine, unlock, at, with_runqueue, steal_loop, try_steal, pick_held, pick_next_thread,
}

-- With the lock held, the first CPU that is not this one is where the loop stays.
steal_loop-locked :
    (n other cpu : ℕ) (m : Machine)
    → m.locked ≡ true
    → (other ≡ cpu → 1 < n)
    → 0 < n
    → steal_loop n other m cpu ≡ looping
unfolding steal_loop
steal_loop-locked zero other cpu m held more some_cpu = absurd (omega arith)
steal_loop-locked (suc n) other cpu m held more some_cpu = elim (Bool-cases (other == cpu)) [
  | inl own ↦
      let e : other ≡ cpu = ground arith in
      let left : 1 < suc n = more e in
      rw (own, steal_loop)
        (steal_loop-locked n (suc other) cpu m held (λ same. absurd (omega arith)) (omega arith))
  | inr foreign ↦ rw (foreign, steal_loop) (rw held refl)
]

try_steal-locked :
    (cpu_count cpu : ℕ) (m : Machine)
    → m.locked ≡ true
    → 2 ≤ cpu_count
    → try_steal cpu_count m cpu ≡ looping
unfolding try_steal
try_steal-locked cpu_count cpu m held two =
    steal_loop-locked cpu_count 0 cpu m held (λ _. omega arith) (omega arith)

with_runqueue_lem :
    {R : Type 0} (m : Machine) (cpu : ℕ) (rq : CfsRunQueue)
    (f : Machine → CfsRunQueue → Ended (R × Machine))
    → m.locked ≡ false
    → get_elem? m.queues cpu ≡ some rq
    → with_runqueue m cpu f
      ≡ (f (record m { locked = true }) rq >>= λ (r : R × Machine). ok (r.0, unlock r.1))
unfolding with_runqueue
with_runqueue_lem m cpu rq f unheld present = rw unheld (rw (present, at) refl)

-- On a machine with two CPUs or more, `pick_next_thread` on a CPU whose queue is empty never
-- returns, whatever the other queues hold; on a CPU with a thread in its queue, with the lock free,
-- it ends as `pick_next` of that queue under the lock ends.
pub pick_next_thread_lem :
    (cpu_count cpu : ℕ) (m : Machine) (rq : CfsRunQueue)
    → 2 ≤ cpu_count
    → m.locked ≡ false
    → get_elem? m.queues cpu ≡ some rq
    → pick_next_thread cpu_count m cpu ≡ (
        if rq.nr_running == 0
        then looping
        else (pick_held (record m { locked = true }) cpu >>= λ (r : ℕ × Machine).
            ok (r.0, unlock r.1)))
unfolding pick_next_thread
pick_next_thread_lem cpu_count cpu m rq two unheld present =
    with_runqueue_lem m cpu rq _ unheld present ∙ elim (Bool-cases (rq.nr_running == 0)) [
      | inl empty ↦
          let stuck = try_steal-locked cpu_count cpu (record m { locked = true }) refl two in
          rw empty (rw stuck refl)
      | inr busy ↦ rw busy refl
    ]
