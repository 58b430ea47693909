-- ===== src/Sched/Runqueue/Tests.antt =====
-- Runs of kernel/src/sched/runqueue.rs.
use theory_os.Base.{ℕ, true, false, Option, none, some, [], ◌∷◌, ◌==◌, if◌then◌else◌, ◌≡◌, refl}
use theory_os.Sched.Rbtree.Store.{RedBlackTree, red, empty_node, invalid, invalid_tid, new, init}
use theory_os.Sched.Runqueue.{
  Thread, Threads, CfsRunQueue, runnable, Ended, ok, panicked, looping, dequeue, steal_from,
}

abbrev thread : ℕ → Thread
thread node = record {
  state = runnable;
  cpu = 0;
  weight = 1024;
  vruntime = 7;
  sum_exec_runtime = 0;
  pi_boost = 0;
  rb_node = node;
  on_rq = true;
}

abbrev two_threads : Threads
two_threads = some (thread 4) ∷ some (thread 9) ∷ []

-- Thread 0 at the root and thread 1 below it.
abbrev two_nodes : RedBlackTree
two_nodes = record {
  nodes = λ i.
      if i == 4
      then record empty_node { key = 7; tid = 0; left = 9; in_use = true }
      else (if i == 9
          then record empty_node { key = 3; tid = 1; color = red; parent = 4; in_use = true }
          else empty_node);
  root = 4;
  free_head = invalid;
}

abbrev queue : CfsRunQueue
queue = record {
  cpu = 0;
  tree = two_nodes;
  nr_running = 2;
  min_vruntime = 3;
  curr = invalid_tid;
  idle = 5;
}

abbrev left_over : Ended (Threads × CfsRunQueue) → CfsRunQueue
left_over (ok (threads, rq)) = rq
left_over panicked = queue
left_over looping = queue

abbrev after_one : CfsRunQueue
after_one = left_over (dequeue two_threads queue 1)

abbrev off_threads : Threads
off_threads = some (thread 4) ∷ some (record (thread invalid) { on_rq = false }) ∷ []

counted : after_one.nr_running ≡ 1
unfolding dequeue
counted = refl

runs : dequeue two_threads queue 1 ≡ ok (off_threads, after_one)
unfolding dequeue
runs = refl

-- The queue of an idle CPU takes the thread that is furthest behind, and the number that its node
-- has in the new tree.
abbrev idle_queue : CfsRunQueue
idle_queue = record queue { cpu = 1; tree = init new; nr_running = 0; min_vruntime = 0 }

abbrev stolen : Ended (Option ℕ × Threads × CfsRunQueue × CfsRunQueue) → Option ℕ × ℕ × ℕ
stolen (ok (tid, threads, rq, victim)) = (tid, rq.nr_running, victim.nr_running)
stolen panicked = (none, 0, 0)
stolen looping = (none, 0, 0)

steals : stolen (steal_from two_threads idle_queue queue) ≡ (some 1, 1, 1)
unfolding steal_from init new
steals = refl
