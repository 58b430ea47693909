-- ===== src/Ipc/Mq/Tests.antt =====
-- The theorems on message queues at concrete queues.
use theory_os.Base.{ℕ, zero, suc, ◌≡◌, refl, false, none, some, [], ◌∷◌, arith, replicate}
use mathlib.Core.Path.{subst}
use theory_os.Base.Slots.{entry, position, holds}
use theory_os.Ipc.Mq.{
  Message, MsgQueue, Queues, ok, send, receive, wanted, msgget, msgsnd, msgrcv, msgctl,
}
use theory_os.Ipc.Mq.Queue.{IsValid}
use theory_os.Ipc.Mq.Order.{receive-send}
use theory_os.Ipc.Mq.Table.{IsWellFormed, calls-IsWellFormed}

abbrev first : Message
first = record { mtype = 1; len = 3; payload = 10 ∷ 11 ∷ 12 ∷ [] }

abbrev second : Message
second = record { mtype = 2; len = 1; payload = 20 ∷ [] }

-- Two messages wait, `first` the longer.
abbrev waiting : MsgQueue
waiting = record {
  id = 5;
  key = 40;
  owner = 1;
  msgs = some first ∷ some second ∷ replicate 62 none;
  msg_count = 2;
  max_bytes = 262144;
  current_bytes = 4;
}

waiting-IsValid : IsValid waiting
waiting-IsValid = record { size = refl; limit = refl; counted = refl; weighed = refl }

none_of_three : position (holds (wanted 3)) waiting.msgs ≡ none
unfolding position
none_of_three = refl

sent : (send 3 (8 ∷ 9 ∷ []) waiting).0 ≡ ok tt
unfolding send position
sent = refl

receive-send_example : (receive 3 16 false (send 3 (8 ∷ 9 ∷ []) waiting).1).0 ≡ ok (3, 8 ∷ 9 ∷ [])
receive-send_example =
    receive-send 3 16 (8 ∷ 9 ∷ []) waiting waiting-IsValid (omega arith) none_of_three (omega arith)
      sent

sent_later : (send 3 (8 ∷ 9 ∷ []) (receive 0 16 false waiting).1).0 ≡ ok tt
unfolding send receive position
sent_later = refl

-- The new message is received although `second` was sent before it.

first_found : position (holds (wanted 0)) waiting.msgs ≡ some 0
unfolding position
first_found = refl

-- One queue, with number 5.
abbrev table : Queues
table = record { slots = some waiting ∷ replicate 31 none; next_qid = 6 }

only_first : (i : ℕ) (q : MsgQueue) → entry table.slots i ≡ some q → (i ≡ 0) × (waiting ≡ q)
only_first zero q e = (refl, cc)
only_first (suc i) q e = absurd (ground (arith, empty 31 i, e))
  where
    empty : (n j : ℕ) → entry {A = MsgQueue} (replicate n none) j ≡ none
    empty zero j = refl
    empty (suc n) zero = refl
    empty (suc n) (suc j) = empty n j

table-IsWellFormed : IsWellFormed table
table-IsWellFormed = record {
  size = refl;
  valid = λ i q e. subst IsValid (only_first i q e).1 waiting-IsValid;
  given = λ i q e. ground (arith, only_first i q e);
  unique = λ i j q r e f same. omega (arith, (only_first i q e).0, (only_first j r f).0);
}

-- Flags IPC_CREAT and IPC_EXCL on a key in use.

calls-IsWellFormed_example :
    IsWellFormed (msgget 5 0 2 table).1
    × IsWellFormed (msgsnd 5 0 (1 ∷ []) table).1
    × IsWellFormed (msgrcv 5 0 2 false table).1
    × IsWellFormed (msgctl 5 0 table).1
calls-IsWellFormed_example =
    calls-IsWellFormed 5 0 2 (1 ∷ []) false table (omega arith) table-IsWellFormed
