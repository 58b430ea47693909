-- ===== src/Ipc/Mq/Table.antt =====
-- The table of message queues: what `msgget` finds, and the invariant of every call.
use theory_os.Base.{
  ℕ, ◌+◌, ◌-◌, ◌^◌, ◌≤◌, ◌<◌, ◌≡◌, ◌≢◌, sym, ◌∙◌, Bool, none, some, List, arith, length, set,
  length-set, Option-cases, inl, inr,
}
use mathlib.Core.Path.{subst}
use theory_os.Base.Slots.{entry, position, is_free, entry-set_cases}
use theory_os.Ipc.Mq.{
  MsgQueue, Queues, Result, ok, err, exist, inval, new_queue, find_key, find_queue_mut,
  create_queue, msgget, on_queue, send, receive, msgsnd, msgrcv, msgctl,
}
use theory_os.Ipc.Mq.Queue.{IsValid, new_queue-IsValid, send-IsValid, receive-IsValid}

-- 32 slots; every queue's counters are right, its number has been given out, and no other queue
-- has that number.
pub record IsWellFormed (t : Queues) : Type 0 where
  pub size : length t.slots ≡ 32
  pub valid : (i : ℕ) (q : MsgQueue) → entry t.slots i ≡ some q → IsValid q
  pub given : (i : ℕ) (q : MsgQueue) → entry t.slots i ≡ some q → q.id < t.next_qid
  pub unique :
      (i j : ℕ) (q r : MsgQueue)
      → entry t.slots i ≡ some q
      → entry t.slots j ≡ some r
      → q.id ≡ r.id
      → i ≡ j

-- `msgget` on a key in use returns that queue's number and changes nothing, whatever the flags,
-- IPC_EXCL among them; and it never reports EEXIST.
pub msgget_existing :
    (key flags owner : ℕ) (t : Queues)
    → ((i : ℕ) (q : MsgQueue)
        → find_key t key ≡ some i
        → entry t.slots i ≡ some q
        → msgget key flags owner t ≡ (ok q.id, t))
      × ((msgget key flags owner t).0 ≢ err exist)
unfolding msgget create_queue
msgget_existing key flags owner t = (
  λ i q found held. ground (arith, found, held),
  λ e. elim (Option-cases (find_key t key)) [
    | inl absent ↦ elim (Option-cases (position is_free t.slots)) [
      | inl full ↦ ground (arith, absent, full, e)
      | inr (i, free) ↦ ground (arith, absent, free, e)
    ]
    | inr (i, found) ↦ elim (Option-cases (entry t.slots i)) [
      | inl gone ↦ ground (arith, found, gone, e)
      | inr (q, held) ↦ ground (arith, found, held, e)
    ]
  ],
)

-- Another queue in a slot, with the number of the one that was there or one never given out.
put-IsWellFormed :
    (t : Queues) (i next : ℕ) (q : MsgQueue)
    → IsWellFormed t
    → IsValid q
    → q.id < next
    → t.next_qid ≤ next
    → ((j : ℕ) (r : MsgQueue) → i ≢ j → entry t.slots j ≡ some r → r.id ≢ q.id)
    → IsWellFormed (record { slots = set t.slots i (some q); next_qid = next })
put-IsWellFormed t i next q w valid given later fresh = record {
  size = length-set t.slots i (some q) ∙ w.size;
  valid = λ j r e. elim (entry-set_cases t.slots i j (some q) r e) [
    | inl (same, new) ↦ subst IsValid (cc) valid
    | inr (other, old) ↦ w.valid j r old
  ];
  given = λ j r e. elim (entry-set_cases t.slots i j (some q) r e) [
    | inl (same, new) ↦ ground (arith, new)
    | inr (other, old) ↦ omega (arith, w.given j r old)
  ];
  unique = λ j k r s e f id. elim (entry-set_cases t.slots i j (some q) r e) [
    | inl (same, new) ↦ elim (entry-set_cases t.slots i k (some q) s f) [
      | inl (same', new') ↦ omega arith
      | inr (other', old') ↦ absurd (fresh k s other' old' (ground (arith, new, id)))
    ]
    | inr (other, old) ↦ elim (entry-set_cases t.slots i k (some q) s f) [
      | inl (same', new') ↦ absurd (fresh j r other old (ground (arith, new', id)))
      | inr (other', old') ↦ w.unique j k r s old old' id
    ]
  ];
}

-- An emptied slot.
drop-IsWellFormed :
    (t : Queues) (i : ℕ) → IsWellFormed t → IsWellFormed (record t { slots = set t.slots i none })
drop-IsWellFormed t i w = record {
  size = length-set t.slots i none ∙ w.size;
  valid = λ j r e. w.valid j r (kept j r e);
  given = λ j r e. w.given j r (kept j r e);
  unique = λ j k r s e f id. w.unique j k r s (kept j r e) (kept k s f) id;
}
  where
    kept : (j : ℕ) (r : MsgQueue) → entry (set t.slots i none) j ≡ some r → entry t.slots j ≡ some r
    kept j r e = elim (entry-set_cases t.slots i j none r e) [
      | inl (same, new) ↦ absurd (cc)
      | inr (other, old) ↦ old
    ]

on_queue-IsWellFormed :
    {A : Type 0} (qid : ℕ) (body : MsgQueue → Result A × MsgQueue) (t : Queues)
    → ((q : MsgQueue) → IsValid q → IsValid (body q).1)
    → ((q : MsgQueue) → (body q).1.id ≡ q.id)
    → IsWellFormed t
    → IsWellFormed (on_queue qid body t).1
unfolding on_queue
on_queue-IsWellFormed qid body t keeps same w = elim (Option-cases (find_queue_mut t qid)) [
  | inl absent ↦ let e : on_queue qid body t ≡ (err inval, t) = ground (arith, absent) in rw e w
  | inr (i, found) ↦ (elim (Option-cases (entry t.slots i)) [
    | inl gone ↦
        let e : on_queue qid body t ≡ (err inval, t) = ground (arith, found, gone) in rw e w
    | inr (q, held) ↦
        let e : (on_queue qid body t).1 ≡ record t { slots = set t.slots i (some (body q).1) } =
          ground (arith, found, held) in
        rw e (
          put-IsWellFormed t i t.next_qid (body q).1 w (keeps q (w.valid i q held))
            (omega (arith, w.given i q held, same q)) (omega arith)
            (λ j r other old id. other (w.unique i j q r held old (sym (same q) ∙ sym id))))
  ])
]

id-send : (mtype : ℕ) (bytes : List ℕ) (q : MsgQueue) → (send mtype bytes q).1.id ≡ q.id
unfolding send
id-send mtype bytes q = elim (Option-cases (position is_free q.msgs)) [
  | inl full ↦ ground (arith, full)
  | inr (i, free) ↦ ground (arith, free)
]

id-receive :
    (mtype room : ℕ) (truncate : Bool) (q : MsgQueue) → (receive mtype room truncate q).1.id ≡ q.id
unfolding receive
id-receive mtype room truncate q = ground arith

create_queue-IsWellFormed :
    (key owner : ℕ) (t : Queues)
    → t.next_qid < 2 ^ 32 - 1
    → IsWellFormed t
    → IsWellFormed (create_queue key owner t).1
unfolding create_queue new_queue
create_queue-IsWellFormed key owner t few w = elim (Option-cases (position is_free t.slots)) [
  | inl full ↦
      let e : (create_queue key owner t).1 ≡ record t { next_qid = t.next_qid + 1 } =
        ground (arith, full) in
      rw e (record {
        size = w.size;
        valid = w.valid;
        given = λ i q e. omega (arith, w.given i q e);
        unique = w.unique;
      })
  | inr (i, free) ↦
      let e : (create_queue key owner t).1 ≡ record {
        slots = set t.slots i (some (new_queue t.next_qid key owner));
        next_qid = t.next_qid + 1;
      } =
        ground (arith, free) in
      rw e (
        put-IsWellFormed t i (t.next_qid + 1) (new_queue t.next_qid key owner) w
          (new_queue-IsValid t.next_qid key owner) (omega arith) (omega arith)
          (λ j r other old id. omega (arith, w.given j r old, id)))
]

-- The four calls keep the table well formed, as long as fewer than 2^32 - 1 numbers have been given
-- out.
pub calls-IsWellFormed :
    (a b c : ℕ) (bytes : List ℕ) (truncate : Bool) (t : Queues)
    → t.next_qid < 2 ^ 32 - 1
    → IsWellFormed t
    → IsWellFormed (msgget a b c t).1
      × IsWellFormed (msgsnd a b bytes t).1
      × IsWellFormed (msgrcv a b c truncate t).1
      × IsWellFormed (msgctl a b t).1
unfolding msgget msgsnd msgrcv msgctl
calls-IsWellFormed a b c bytes truncate t few w = (
  elim (Option-cases (find_key t a)) [
    | inl absent ↦ ground (arith, absent, create_queue-IsWellFormed a c t few w)
    | inr (i, found) ↦ ground (arith, found)
  ],
  ground
      (arith, on_queue-IsWellFormed a (send b bytes) t (send-IsValid b bytes) (id-send b bytes) w),
  on_queue-IsWellFormed a (receive b c truncate) t (receive-IsValid b c truncate)
      (id-receive b c truncate) w,
  elim (Option-cases (find_queue_mut t a)) [
    | inl absent ↦ ground (arith, absent)
    | inr (i, found) ↦ ground (arith, found, drop-IsWellFormed t i w)
  ],
)
