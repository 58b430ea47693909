-- ===== src/Sched/Runqueue/Laws.antt =====
-- What `dequeue` and `pick_next` of kernel/src/sched/runqueue.rs leave behind.
use theory_os.Base.{
  ℕ, ◌-◌, ◌≤◌, false, ◌&&◌, Option, none, some, set, Bool-cases, Option-cases, ◌≡◌, refl, sym, ap,
  ◌∙◌, ◌⊎◌, inl, inr,
}
use theory_os.Base.Slots.{entry, entry-set_self, entry_beyond}
use theory_os.Sched.Rbtree.Store.{RedBlackTree, invalid, is_valid}
use theory_os.Sched.Rbtree.Delete.{remove}
use theory_os.Sched.Rbtree.Minimum.{
  Shape, branch, Represents, IsOrdered, Everywhere, left_depth, least, min-IsOrdered,
}
use theory_os.Sched.Runqueue.{
  Thread, Threads, CfsRunQueue, running, Ended, ok, panicked, looping, ◌>>=◌, on_tree, node_of,
  update_thread, unlink, dequeue, pick_next,
}

-- A thread that is off the queue is not unlinked.
unlink_off :
    (threads : Threads) (rq : CfsRunQueue) (tid : ℕ) (t : Thread)
    → (t.on_rq && is_valid t.rb_node) ≡ false
    → unlink threads rq tid t ≡ ok (threads, rq)
unfolding unlink
unlink_off threads rq tid t h = rw h refl

finish :
    (threads : Threads) (rq : CfsRunQueue) (o : Ended (Option ℕ × RedBlackTree))
    (threads' : Threads) (rq' : CfsRunQueue)
    → ◌>>=◌ {B = Threads × CfsRunQueue} o
        (λ p. ok (threads, record rq { tree = p.1; nr_running = rq.nr_running - 1 }))
      ≡ ok (threads', rq')
    → threads' ≡ threads
finish threads rq (ok p) threads' rq' h = cc
finish threads rq panicked threads' rq' h = absurd cc
finish threads rq looping threads' rq' h = absurd cc

abbrev off : Thread → Thread
off t = record t { rb_node = invalid; on_rq = false }

unlink_result :
    (threads : Threads) (rq : CfsRunQueue) (tid : ℕ) (t : Thread) (threads' : Threads)
    (rq' : CfsRunQueue)
    → unlink threads rq tid t ≡ ok (threads', rq')
    → ((threads' ≡ threads) × ((t.on_rq && is_valid t.rb_node) ≡ false))
      ⊎ (threads' ≡ set threads tid (some (off t)))
unfolding unlink
unlink_result threads rq tid t threads' rq' h = elim (Bool-cases (t.on_rq && is_valid t.rb_node)) [
  | inl on ↦ inr (
      finish (set threads tid (some (off t))) rq (on_tree (remove t.rb_node) rq.tree) threads' rq'
        (rw⁻¹ h (rw on refl)))
  | inr out ↦
      let same : Path (Ended (Threads × CfsRunQueue)) (ok (threads, rq)) (ok (threads', rq')) =
        rw⁻¹ h (rw out refl) in
      inl (cc, out)
]

dequeue_at :
    (threads : Threads) (rq : CfsRunQueue) (tid : ℕ) (t : Thread)
    → entry threads tid ≡ some t
    → dequeue threads rq tid ≡ unlink threads rq tid t
unfolding dequeue
dequeue_at threads rq tid t h = rw (h, dequeue) refl

-- A second `dequeue` of the same thread finds nothing to do.
pub dequeue-dequeue :
    (threads : Threads) (rq : CfsRunQueue) (tid : ℕ) (threads' : Threads) (rq' : CfsRunQueue)
    → dequeue threads rq tid ≡ ok (threads', rq')
    → dequeue threads' rq' tid ≡ ok (threads', rq')
unfolding dequeue
dequeue-dequeue threads rq tid threads' rq' h = elim (Option-cases (entry threads tid)) [
  | inl absent ↦
      let same : Path (Ended (Threads × CfsRunQueue)) (ok (threads, rq)) (ok (threads', rq')) =
        rw⁻¹ h (rw (absent, dequeue) refl) in
      let e : entry threads' tid ≡ none = rw⁻¹ absent (ap (λ (x : Threads). entry x tid) cc) in
      rw (e, dequeue) refl
  | inr (t, present) ↦
      let done_once = sym (dequeue_at threads rq tid t present) ∙ h in
      elim (unlink_result threads rq tid t threads' rq' done_once) [
        | inl (same, out) ↦
            let e : entry threads' tid ≡ some t =
              ap (λ (x : Threads). entry x tid) same ∙ present in
            dequeue_at threads' rq' tid t e ∙ unlink_off threads' rq' tid t out
        | inr new ↦
            let e : entry threads' tid ≡ some (off t) =
              ap (λ (x : Threads). entry x tid) new
              ∙ entry-set_self threads tid (some (off t)) (entry_beyond threads tid present) in
            dequeue_at threads' rq' tid (off t) e ∙ unlink_off threads' rq' tid (off t) refl
      ]
]

-- On a queue whose tree stands for an ordered shape with a root and at most 1025 nodes down its left
-- edge, `pick_next` gives the thread of a node of the least key, ends as the removal of that
-- thread's node ends, and then leaves the thread running and off the queue, one thread less in the
-- count, and that key as the queue's minimum.
pub pick_next_lem :
    (threads : Threads) (rq : CfsRunQueue) (l : Shape) (i : ℕ) (r : Shape)
    → Represents rq.tree.nodes rq.tree.root (branch l i r)
    → IsOrdered rq.tree.nodes (branch l i r)
    → left_depth (branch l i r) ≤ 1025
    → (pick_next threads rq ≡ (
        on_tree (remove (node_of threads (rq.tree.nodes (least l i)).tid)) rq.tree >>= λ p. ok (
          (rq.tree.nodes (least l i)).tid,
          update_thread threads
              (rq.tree.nodes (least l i)).tid
              (λ t. record t { on_rq = false; rb_node = invalid; state = running }),
          record rq {
            tree = p.1;
            nr_running = rq.nr_running - 1;
            min_vruntime = (rq.tree.nodes (least l i)).key;
          },
        )))
      × Everywhere (λ j. (rq.tree.nodes (least l i)).key ≤ (rq.tree.nodes j).key) (branch l i r)
unfolding pick_next
pick_next_lem threads rq l i r rep ord depth =
    let (found, bound) = min-IsOrdered rq.tree l i r rep ord depth in
    (rw (found, on_tree) refl, bound)
