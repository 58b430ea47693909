-- ===== src/Ipc/Mq.antt =====
-- kernel/src/ipc/mq.rs: SysV message queues. Keys, types and queue numbers are the bit patterns of
-- the source's signed integers, which it only compares and masks. The two statics are one record.
pub mod Queue
pub mod Order
pub mod Table
mod Tests
use Prim.Native.Nat.{bit_and}
use theory_os.Base.{
  ℕ, ◌+◌, ◌-◌, ◌*◌, ◌%◌, ◌^◌, Bool, true, false, ◌||◌, not, Option, none, some, List, [], ◌∷◌, ◌++◌,
  ltb, leb, ◌==◌, if◌then◌else◌, length, set, take, drop, replicate,
}
use theory_os.Base.Slots.{entry, position, is_free, holds}

abbrev pub max_queues : ℕ
max_queues = 32

abbrev pub max_msg_size : ℕ
max_msg_size = 4096

abbrev pub max_msgs : ℕ
max_msgs = 64

abbrev pub ipc_creat : ℕ
ipc_creat = 0o1000

abbrev pub ipc_excl : ℕ
ipc_excl = 0o2000

abbrev pub ipc_rmid : ℕ
ipc_rmid = 0

pub record Message : Type 0 where
  pub mtype : ℕ
  pub len : ℕ
  pub payload : List ℕ

pub record MsgQueue : Type 0 where
  pub id : ℕ
  pub key : ℕ
  pub owner : ℕ
  pub msgs : List (Option Message)
  pub msg_count : ℕ
  pub max_bytes : ℕ
  pub current_bytes : ℕ

pub data MsgError : Type 0 where
  inval no_ent exist no_space again : MsgError

pub data Result {ℓ} (A : Type ℓ) : Type ℓ where
  ok : A → Result A
  err : MsgError → Result A
  -- a slice index out of range
  panic : Result A

-- `MsgQueue::new`.
unfoldable pub new_queue : ℕ → ℕ → ℕ → MsgQueue
new_queue id key owner = record {
  id = id;
  key = key;
  owner = owner;
  msgs = replicate max_msgs none;
  msg_count = 0;
  max_bytes = max_msg_size * max_msgs;
  current_bytes = 0;
}

-- `QUEUES` and `NEXT_QID`.
pub record Queues : Type 0 where
  pub slots : List (Option MsgQueue)
  pub next_qid : ℕ

-- The first of the source's scans over the table that `msgget` makes, and `find_queue_mut`.
unfoldable pub find_key : Queues → ℕ → Option ℕ
find_key t key = position (holds (λ q. q.key == key)) t.slots

unfoldable pub find_queue_mut : Queues → ℕ → Option ℕ
find_queue_mut t qid = position (holds (λ q. q.id == qid)) t.slots

abbrev pub id_at : List (Option MsgQueue) → ℕ → Result ℕ
id_at slots i = elim (entry slots i) [ none ↦ err no_ent | some q ↦ ok q.id ]

-- The part of `msgget` after the flag tests: a number is taken, also if the table is full.
unfoldable pub create_queue : ℕ → ℕ → Queues → Result ℕ × Queues
create_queue key owner t =
    let qid = t.next_qid in
    let t' : Queues = record t { next_qid = (qid + 1) % 2 ^ 32 } in
    elim (position is_free t.slots) [
      | none ↦ (err no_space, t')
      | some i ↦ (ok qid, record t' { slots = set t.slots i (some (new_queue qid key owner)) })
    ]

-- `msgget`, by a thread of process `owner`.
unfoldable pub msgget : ℕ → ℕ → ℕ → Queues → Result ℕ × Queues
msgget key flags owner t = elim (find_key t key) [
  | some i ↦ (id_at t.slots i, t)
  | none ↦
      if bit_and flags ipc_creat == 0
      then (err no_ent, t)
      else if not (bit_and flags ipc_excl == 0)
      then elim (find_key t key) [ some i ↦ (err exist, t) | none ↦ create_queue key owner t ]
      else create_queue key owner t
]

-- `[0; MAX_MSG_SIZE]` with the bytes copied over its front.
unfoldable pub padded : List ℕ → List ℕ
padded bytes = bytes ++ drop (length bytes) (replicate max_msg_size 0)

-- The body of `msgsnd` on the queue that it has found.
unfoldable pub send : ℕ → List ℕ → MsgQueue → Result (Unit {0}) × MsgQueue
send mtype bytes q =
    if leb max_msgs q.msg_count || ltb q.max_bytes (q.current_bytes + length bytes)
    then (err again, q)
    else elim (position is_free q.msgs) [
      | none ↦ (err again, q)
      | some i ↦ (
        ok tt,
        record q {
          msgs =
              set q.msgs i
                (some (record { mtype = mtype; len = length bytes; payload = padded bytes }));
          msg_count = q.msg_count + 1;
          current_bytes = q.current_bytes + length bytes;
        },
      )
    ]

-- `msg.mtype == mtype || mtype == 0`.
abbrev pub wanted : ℕ → Message → Bool
wanted mtype m = m.mtype == mtype || mtype == 0

-- The end of `msgrcv`: the copy into a buffer of `room` bytes.
unfoldable pub copy_out : Message → ℕ → Bool → Result (ℕ × List ℕ)
copy_out m room truncate =
    let copy_len = if truncate || leb m.len room then m.len else room in
    if ltb room copy_len then panic else ok (m.mtype, take copy_len m.payload)

-- The body of `msgrcv` on the queue that it has found.
unfoldable pub receive : ℕ → ℕ → Bool → MsgQueue → Result (ℕ × List ℕ) × MsgQueue
receive mtype room truncate q = elim (position (holds (wanted mtype)) q.msgs) [
  | none ↦ (err again, q)
  | some i ↦ elim (entry q.msgs i) [
    | none ↦ (panic, q)
    | some m ↦ (
      copy_out m room truncate,
      record q {
        msgs = set q.msgs i none;
        msg_count = q.msg_count - 1;
        current_bytes = q.current_bytes - m.len;
      },
    )
  ]
]

-- A body run on the queue with a number.
unfoldable pub on_queue :
    {A : Type 0} → ℕ → (MsgQueue → Result A × MsgQueue) → Queues → Result A × Queues
on_queue qid body t = elim (find_queue_mut t qid) [
  | none ↦ (err inval, t)
  | some i ↦ elim (entry t.slots i) [
    | none ↦ (err inval, t)
    | some q ↦ ((body q).0, record t { slots = set t.slots i (some (body q).1) })
  ]
]

unfoldable pub msgsnd : ℕ → ℕ → List ℕ → Queues → Result (Unit {0}) × Queues
msgsnd qid mtype bytes t =
    if ltb max_msg_size (length bytes) then (err inval, t) else on_queue qid (send mtype bytes) t

unfoldable pub msgrcv : ℕ → ℕ → ℕ → Bool → Queues → Result (ℕ × List ℕ) × Queues
msgrcv qid mtype room truncate t = on_queue qid (receive mtype room truncate) t

unfoldable pub msgctl : ℕ → ℕ → Queues → Result (Unit {0}) × Queues
msgctl qid cmd t = if not (cmd == ipc_rmid) then (err inval, t) else elim (find_queue_mut t qid) [
  | none ↦ (err inval, t)
  | some i ↦ (ok tt, record t { slots = set t.slots i none })
]

-- `msg_err_to_errno`.
unfoldable pub msg_err_to_errno : MsgError → ℕ
msg_err_to_errno inval = 22
msg_err_to_errno no_ent = 2
msg_err_to_errno exist = 17
msg_err_to_errno no_space = 28
msg_err_to_errno again = 11
