-- ===== src/Sched/Runqueues/Tests.antt =====
-- Runs of the queues behind their lock, in kernel/src/sched/runqueue.rs.
use theory_os.Base.{ℕ, true, false, [], ◌∷◌, ◌==◌, if◌then◌else◌, ◌≡◌, refl, arith}
use theory_os.Sched.Rbtree.Store as Store
use theory_os.Sched.Runqueue.{CfsRunQueue, Ended, ok, panicked, looping, ◌>>=◌}
use theory_os.Sched.Runqueues.{Machine, new_queue, init_queue, unlock, pick_held, pick_next_thread}
use theory_os.Sched.Runqueues.Stealing.{pick_next_thread_lem}

abbrev idle_queue : CfsRunQueue
idle_queue = record (init_queue (new_queue 0)) { idle = 9 }

-- Two CPUs with nothing to run.
abbrev idle_machine : Machine
idle_machine = record {
  queues = idle_queue ∷ record idle_queue { cpu = 1 } ∷ [];
  threads = [];
  locked = false;
}

pick_next_thread_lem_example : pick_next_thread 2 idle_machine 0 ≡ (
    if idle_queue.nr_running == 0
    then looping
    else (pick_held (record idle_machine { locked = true }) 0 >>= λ (r : ℕ × Machine).
        ok (r.0, unlock r.1)))
unfolding init_queue new_queue
pick_next_thread_lem_example =
    pick_next_thread_lem 2 0 idle_machine idle_queue (omega arith) refl refl

abbrev picked : Ended (ℕ × Machine) → ℕ
picked (ok (tid, m)) = tid
picked panicked = 0
picked looping = 1

-- With one CPU the idle thread is picked.
alone : picked (pick_next_thread 1 idle_machine 0) ≡ 9
unfolding pick_next_thread init_queue new_queue Store.init
alone = refl
