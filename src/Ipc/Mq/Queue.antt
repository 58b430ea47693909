-- ===== src/Ipc/Mq/Queue.antt =====
-- One message queue: its counters, what a send and a receive do, and their order.
use theory_os.Base.{
  ℕ, ◌+◌, ◌≤◌, ◌<◌, ◌≡◌, ◌≢◌, refl, sym, ap, Bool, false, Option, ◌⊎◌, none, some, List, [], ◌∷◌,
  ◌++◌, arith, length, take, drop, replicate, length-set, length-replicate, Option-cases, inl, inr,
}
use theory_os.Base.Slots.{
  position, is_free, holds, total, position-some, total-set, total-replicate,
}
use theory_os.Ipc.Mq.{
  Message, MsgQueue, ok, err, again, padded, new_queue, send, wanted, copy_out, receive,
}

abbrev one : Message → ℕ
one m = 1

abbrev len_of : Message → ℕ
len_of m = m.len

-- The counters are those of the slots, and every message fits its array.
pub record IsValid (q : MsgQueue) : Type 0 where
  pub size : length q.msgs ≡ 64
  pub limit : q.max_bytes ≡ 262144
  pub counted : q.msg_count ≡ total one q.msgs
  pub weighed : q.current_bytes ≡ total len_of q.msgs

-- A table that is not full of ones has a free slot.
free_of_total : (xs : List (Option Message)) → total one xs < length xs → position is_free xs ≢ none
unfolding position
free_of_total [] h = absurd (omega arith)
free_of_total (none ∷ xs) h = λ e. cc
free_of_total (some m ∷ xs) h = λ e. ground (arith, free_of_total xs)

pub new_queue-IsValid : (id key owner : ℕ) → IsValid (new_queue id key owner)
unfolding new_queue
new_queue-IsValid id key owner = record {
  size = length-replicate {A = Option Message} 64 none;
  limit = refl;
  counted = sym (total-replicate one 64);
  weighed = sym (total-replicate len_of 64);
}

abbrev pub message : ℕ → List ℕ → Message
message mtype bytes = record { mtype = mtype; len = length bytes; payload = padded bytes }

-- A send keeps the counters right.
pub send-IsValid :
    (mtype : ℕ) (bytes : List ℕ) (q : MsgQueue) → IsValid q → IsValid (send mtype bytes q).1
unfolding send
send-IsValid mtype bytes q v = elim (Option-cases (position is_free q.msgs)) [
  | inl full ↦ ground (arith, full)
  | inr (i, free) ↦
      let m = message mtype bytes in
      ground (
        arith,
        position-some is_free q.msgs i free,
        total-set one q.msgs i (some m),
        total-set len_of q.msgs i (some m),
        length-set q.msgs i (some m),
      )
]

pub receive-IsValid :
    (mtype room : ℕ) (truncate : Bool) (q : MsgQueue)
    → IsValid q
    → IsValid (receive mtype room truncate q).1
unfolding receive
receive-IsValid mtype room truncate q v =
    elim (Option-cases (position (holds (wanted mtype)) q.msgs)) [
      | inl absent ↦ ground (arith, absent)
      | inr (i, found) ↦ ground (
        arith,
        position-some (holds (wanted mtype)) q.msgs i found,
        total-set one q.msgs i none,
        total-set len_of q.msgs i none,
        length-set q.msgs i none,
      )
    ]

-- A send succeeds exactly when there are fewer than 64 messages and the bytes fit the queue's
-- limit; refused, it changes nothing.
pub send_lem :
    (mtype : ℕ) (bytes : List ℕ) (q : MsgQueue)
    → IsValid q
    → (q.msg_count < 64
        → q.current_bytes + length bytes ≤ 262144
        → ((send mtype bytes q).0 ≡ ok tt)
          × ((send mtype bytes q).1.msg_count ≡ q.msg_count + 1)
          × ((send mtype bytes q).1.current_bytes ≡ q.current_bytes + length bytes))
      × (64 ≤ q.msg_count ⊎ 262144 < q.current_bytes + length bytes
          → send mtype bytes q ≡ (err again, q))
unfolding send
send_lem mtype bytes q v = elim (Option-cases (position is_free q.msgs)) [
  | inl full ↦ (
    λ room fits. absurd (free_of_total q.msgs (omega (arith, v.size, v.counted)) full),
    λ refused. ground arith,
  )
  | inr (i, free) ↦ (λ room fits. ground (arith, free), λ refused. ground arith)
]

take-append_length : (xs ys : List ℕ) → take (length xs) (xs ++ ys) ≡ xs
take-append_length [] ys = refl
take-append_length (x ∷ xs) ys = ap (λ l. x ∷ l) (take-append_length xs ys)

-- A buffer with room for a message gets its bytes.
pub copy_out-message :
    (mtype room : ℕ) (bytes : List ℕ)
    → length bytes ≤ room
    → copy_out (message mtype bytes) room false ≡ ok (mtype, bytes)
unfolding copy_out padded
copy_out-message mtype room bytes fits =
    ground (arith, take-append_length bytes (drop (length bytes) (replicate 4096 0)))
