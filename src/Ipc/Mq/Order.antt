-- ===== src/Ipc/Mq/Order.antt =====
-- Which message a receive takes: the first slot that fits, and so not always the oldest message.
use theory_os.Base.{
  ℕ, ◌-◌, ◌≤◌, ◌<◌, ◌≡◌, ◌≢◌, ap, ◌∙◌, Bool, true, false, none, some, List, arith, length, set,
  take, min, length-set, Option-cases, inl, inr,
}
use theory_os.Base.Slots.{
  entry, position, is_free, holds, position-some, position-none, entry-set_self, entry-set_ne,
  position_of_first,
}
use theory_os.Ipc.Mq.{Message, MsgQueue, Result, ok, panic, send, wanted, copy_out, receive}
use theory_os.Ipc.Mq.Queue.{IsValid, message, copy_out-message}

-- What a receive that takes slot `i` returns and leaves.
receive_at :
    (mtype room : ℕ) (truncate : Bool) (q : MsgQueue) (i : ℕ) (m : Message)
    → position (holds (wanted mtype)) q.msgs ≡ some i
    → entry q.msgs i ≡ some m
    → receive mtype room truncate q ≡ (
      copy_out m room truncate,
      record q {
        msgs = set q.msgs i none;
        msg_count = q.msg_count - 1;
        current_bytes = q.current_bytes - m.len;
      },
    )
unfolding receive
receive_at mtype room truncate q i m found held = ground (arith, found, held)

-- The slots after a send that succeeds: the first free one holds the message.
record Sent (mtype : ℕ) (bytes : List ℕ) (q : MsgQueue) : Type 0 where
  slot : ℕ
  free : position is_free q.msgs ≡ some slot
  msgs : (send mtype bytes q).1.msgs ≡ set q.msgs slot (some (message mtype bytes))

send-Sent :
    (mtype : ℕ) (bytes : List ℕ) (q : MsgQueue)
    → (send mtype bytes q).0 ≡ ok tt
    → Sent mtype bytes q
unfolding send
send-Sent mtype bytes q done = elim (Option-cases (position is_free q.msgs)) [
  | inl full ↦ absurd (ground (arith, full, done))
  | inr (i, free) ↦ record { slot = i; free = free; msgs = ground (arith, free, done) }
]

-- The message just sent is received if no slot before its own holds a wanted one.
receive_of_send :
    (want mtype room : ℕ) (bytes : List ℕ) (q : MsgQueue) (s : Sent mtype bytes q)
    → s.slot < length q.msgs
    → wanted want (message mtype bytes) ≡ true
    → ((j : ℕ) → j < s.slot → holds (wanted want) (entry q.msgs j) ≡ false)
    → length bytes ≤ room
    → (receive want room false (send mtype bytes q).1).0 ≡ ok (mtype, bytes)
receive_of_send want mtype room bytes q s lt fit before fits =
    let m = message mtype bytes in
    let here : entry (set q.msgs s.slot (some m)) s.slot ≡ some m =
      entry-set_self q.msgs s.slot (some m) lt in
    let found : position (holds (wanted want)) (set q.msgs s.slot (some m)) ≡ some s.slot =
      position_of_first (holds (wanted want)) (set q.msgs s.slot (some m)) s.slot
        (omega (arith, lt, length-set q.msgs s.slot (some m))) (ap (holds (wanted want)) here ∙ fit)
        (λ j lt'.
          ap (holds (wanted want)) (entry-set_ne q.msgs s.slot j (some m) (omega arith))
          ∙ before j lt') in
    ap (λ (r : Result (ℕ × List ℕ) × MsgQueue). r.0)
      (receive_at want room false (send mtype bytes q).1 s.slot m
        (ap (position (holds (wanted want))) s.msgs ∙ found)
        (ap (λ l. entry l s.slot) s.msgs ∙ here))
    ∙ copy_out-message mtype room bytes fits

-- A message sent to a queue that holds none of its type comes back whole: a receive of that type
-- with room for it gives the type and the bytes that were sent.
pub receive-send :
    (mtype room : ℕ) (bytes : List ℕ) (q : MsgQueue)
    → IsValid q
    → mtype ≢ 0
    → position (holds (wanted mtype)) q.msgs ≡ none
    → length bytes ≤ room
    → (send mtype bytes q).0 ≡ ok tt
    → (receive mtype room false (send mtype bytes q).1).0 ≡ ok (mtype, bytes)
receive-send mtype room bytes q v nonzero absent fits done =
    let s = send-Sent mtype bytes q done in
    let (lt, free) = position-some is_free q.msgs s.slot s.free in
    receive_of_send mtype mtype room bytes q s lt (ground arith)
      (λ j before. position-none (holds (wanted mtype)) q.msgs j absent (omega (arith, lt))) fits

-- Messages do not come out in the order in which they were sent: after a receive of any type has
-- taken the message of slot 0, the next message sent takes that slot, and so is received next,
-- before every message that was already waiting.
pub receive-send-receive :
    (mtype room room' : ℕ) (bytes : List ℕ) (q : MsgQueue) {m : Message}
    → IsValid q
    → entry q.msgs 0 ≡ some m
    → let q' = (receive 0 room false q).1 in
      (send mtype bytes q').0 ≡ ok tt
      → length bytes ≤ room'
      → (receive 0 room' false (send mtype bytes q').1).0 ≡ ok (mtype, bytes)
receive-send-receive mtype room room' bytes q {m} v front done fits =
    let found : position (holds (wanted 0)) q.msgs ≡ some 0 =
      position_of_first (holds (wanted 0)) q.msgs 0 (omega (arith, v.size)) (ground (arith, front))
        (λ j h. absurd (omega arith)) in
    let q' = (receive 0 room false q).1 in
    let emptied : q'.msgs ≡ set q.msgs 0 none =
      ap (λ (r : Result (ℕ × List ℕ) × MsgQueue). r.1.msgs)
        (receive_at 0 room false q 0 m found front) in
    let s = send-Sent mtype bytes q' done in
    let free : position is_free q'.msgs ≡ some 0 =
      ap (position is_free) emptied
      ∙ position_of_first is_free (set q.msgs 0 none) 0
          (omega (arith, v.size, length-set q.msgs 0 none))
          (ap is_free (entry-set_self q.msgs 0 none (omega (arith, v.size))))
          (λ j h. absurd (omega arith)) in
    let at_front : s.slot ≡ 0 = ground (arith, s.free, free) in
    receive_of_send 0 mtype room' bytes q' s (position-some is_free q'.msgs s.slot s.free).0
      (ground arith) (λ j before. absurd (omega (arith, at_front))) fits

-- A receive of the message at slot `i` fills the caller's buffer up to its size, but with
-- `truncate` set and a buffer that is too short it slices the buffer out of range.
pub receive_short :
    (mtype room i : ℕ) (q : MsgQueue) {m : Message}
    → position (holds (wanted mtype)) q.msgs ≡ some i
    → entry q.msgs i ≡ some m
    → ((receive mtype room false q).0 ≡ ok (m.mtype, take (min m.len room) m.payload))
      × (room < m.len → (receive mtype room true q).0 ≡ panic)
unfolding copy_out
receive_short mtype room i q {m} found held = (
  rw (receive_at mtype room false q i m found held) (ground arith),
  λ short. rw (receive_at mtype room true q i m found held) (ground arith),
)
