-- ===== src/Sched/Runqueue.antt =====
-- kernel/src/sched/runqueue.rs: a CPU's queue of runnable threads, over the tree of
-- kernel/src/sched/rbtree.rs and the thread table of kernel/src/proc/table.rs. The state holds one
-- queue and the table; an operation ends with it, panics, or runs out of the tree's fuel.
pub mod Laws
pub mod Tests
use theory_os.Base.{
  ℕ, zero, suc, ◌+◌, ◌-◌, ◌%◌, ◌^◌, Bool, true, false, not, ◌&&◌, List, Option, none, some, set,
  ltb, ◌==◌, if◌then◌else◌,
}
use theory_os.Base.Slots.{entry}
use theory_os.Sched.Cfs.{place_entity, update_vruntime, saturating_add}
use theory_os.Sched.Rbtree.Store.{
  RedBlackTree, invalid, is_valid, invalid_tid, Outcome, done, panic, diverged, M, is_empty,
}
use theory_os.Sched.Rbtree.Insert.{insert, min, peek_min_key}
use theory_os.Sched.Rbtree.Delete.{remove}

pub data ThreadState : Type 0 where
  created runnable running sleeping blocked zombie dead : ThreadState

-- The scheduling fields of `Thread`.
pub record Thread : Type 0 where
  pub state : ThreadState
  pub cpu : ℕ
  pub weight : ℕ
  pub vruntime : ℕ
  pub sum_exec_runtime : ℕ
  pub pi_boost : ℕ
  pub rb_node : ℕ
  pub on_rq : Bool

abbrev pub effective_vruntime : Thread → ℕ
effective_vruntime t = t.vruntime - t.pi_boost

pub record CfsRunQueue : Type 0 where
  pub cpu : ℕ
  pub tree : RedBlackTree
  pub nr_running : ℕ
  pub min_vruntime : ℕ
  pub curr : ℕ
  pub idle : ℕ

-- `THREADS`, by tid.
abbrev pub Threads : Type 0
Threads = List (Option Thread)

pub data Ended (A : Type 0) : Type 0 where
  ok : A → Ended A
  panicked : Ended A
  looping : Ended A

infixl 5 ◌>>=◌
abbrev pub ◌>>=◌ : {A B : Type 0} → Ended A → (A → Ended B) → Ended B
ok a >>= f = f a
panicked >>= f = panicked
looping >>= f = looping

-- A call on the tree: its result, and the tree it leaves.
abbrev pub on_tree : {A : Type 0} → M A → RedBlackTree → Ended (A × RedBlackTree)
on_tree m t = elim (m t) [ done a t' ↦ ok (a, t') | panic ↦ panicked | diverged ↦ looping ]

abbrev pub or_invalid : Option ℕ → ℕ
or_invalid none = invalid
or_invalid (some id) = id

-- `table::with_thread(tid, |t| t.rb_node).unwrap_or(RbNodeId::INVALID)`.
abbrev pub node_of : Threads → ℕ → ℕ
node_of threads tid = elim (entry threads tid) [ none ↦ invalid | some t ↦ t.rb_node ]

-- `table::with_thread_mut` for a closure that only assigns to the thread.
abbrev pub update_thread : Threads → ℕ → (Thread → Thread) → Threads
update_thread threads tid f = elim (entry threads tid) [
  | none ↦ threads
  | some t ↦ set threads tid (some (f t))
]

unfoldable pub enqueue : Threads → CfsRunQueue → ℕ → Ended (Threads × CfsRunQueue)
unfolding place_entity insert peek_min_key
enqueue threads rq tid = elim (entry threads tid) [
  | none ↦ ok (threads, rq)
  | some t ↦
      let placed = record t { vruntime = place_entity rq.min_vruntime (effective_vruntime t) } in
      let key = effective_vruntime placed in
      do
        (node, tree) ← on_tree (insert key tid) rq.tree
        let queued = record placed {
          rb_node = or_invalid node;
          on_rq = true;
          state = runnable;
          cpu = rq.cpu;
        }
        (least, tree') ← on_tree peek_min_key tree
        ok (
          set threads tid (some queued),
          record rq {
            tree = tree';
            nr_running = (rq.nr_running + 1) % 2 ^ 32;
            min_vruntime = elim least [ none ↦ rq.min_vruntime | some k ↦ k ];
          },
        )
]

-- The closure of `dequeue`.
unfoldable pub unlink : Threads → CfsRunQueue → ℕ → Thread → Ended (Threads × CfsRunQueue)
unfolding remove
unlink threads rq tid t =
    if t.on_rq && is_valid t.rb_node
    then (do
      (removed, tree) ← on_tree (remove t.rb_node) rq.tree
      ok (
        set threads tid (some (record t { rb_node = invalid; on_rq = false })),
        record rq { tree = tree; nr_running = rq.nr_running - 1 },
      ))
    else ok (threads, rq)

unfoldable pub dequeue : Threads → CfsRunQueue → ℕ → Ended (Threads × CfsRunQueue)
unfolding unlink
dequeue threads rq tid = elim (entry threads tid) [
  | none ↦ ok (threads, rq)
  | some t ↦ unlink threads rq tid t
]

unfoldable pub pick_next : Threads → CfsRunQueue → Ended (ℕ × Threads × CfsRunQueue)
unfolding min remove
pick_next threads rq = do
  (least, tree) ← on_tree min rq.tree
  elim least [
    | none ↦ ok (rq.idle, threads, record rq { tree = tree })
    | some (id, tid, key) ↦ do
      (removed, tree') ← on_tree (remove (node_of threads tid)) tree
      ok (
        tid,
        update_thread threads tid
            (λ t. record t { on_rq = false; rb_node = invalid; state = running }),
        record rq { tree = tree'; nr_running = rq.nr_running - 1; min_vruntime = key },
      )
  ]

-- The second half of `steal_from`: the thread, taken off its queue, enters this one.
unfoldable pub adopt : Threads → CfsRunQueue → ℕ → Ended (Threads × RedBlackTree)
unfolding insert place_entity
adopt threads rq tid = elim (entry threads tid) [
  | none ↦ ok (threads, rq.tree)
  | some t ↦
      let placed = record t { vruntime = place_entity rq.min_vruntime (effective_vruntime t) } in
      do
        (node, tree) ← on_tree (insert (effective_vruntime placed) tid) rq.tree
        ok (
          set threads tid
              (some (record placed { on_rq = true; rb_node = or_invalid node; cpu = rq.cpu })),
          tree,
        )
]

-- `steal_from`: the stolen thread, the table, this queue and the victim's.
unfoldable pub steal_from :
    Threads → CfsRunQueue → CfsRunQueue → Ended (Option ℕ × Threads × CfsRunQueue × CfsRunQueue)
unfolding min remove peek_min_key adopt is_empty
steal_from threads rq victim =
    if (victim.cpu == rq.cpu)
    then ok (none, threads, rq, victim)
    else if is_empty victim.tree
    then ok (none, threads, rq, victim)
    else do
      (least, vtree) ← on_tree min victim.tree
      elim least [
        | none ↦ ok (none, threads, rq, record victim { tree = vtree })
        | some (id, tid, key) ↦ do
          (removed, vtree') ← on_tree (remove (node_of threads tid)) vtree
          (threads', tree) ← adopt threads rq tid
          (first, tree') ← on_tree peek_min_key tree
          ok (
            some tid,
            threads',
            record rq {
              tree = tree';
              nr_running = (rq.nr_running + 1) % 2 ^ 32;
              min_vruntime = elim first [ none ↦ key | some k ↦ k ];
            },
            record victim { tree = vtree'; nr_running = victim.nr_running - 1 },
          )
      ]

-- `update_current_runtime`, on the queue of its CPU.
unfoldable pub update_current_runtime : Threads → CfsRunQueue → ℕ → Threads
unfolding update_vruntime
update_current_runtime threads rq delta_ns =
    if rq.curr == invalid_tid
    then threads
    else update_thread threads rq.curr (λ t. record t {
      sum_exec_runtime = saturating_add t.sum_exec_runtime delta_ns;
      vruntime = update_vruntime t.vruntime delta_ns t.weight;
    })
