-- ===== src/Ipc/Pipe/Table.antt =====
-- The static table of pipes and the public calls on it: `create`, `dup_read`, `dup_write`,
-- `close_read`, `close_write`, `write` and `read`.
pub mod Laws
use theory_os.Base.{
  ℕ, ◌+◌, ◌%◌, ◌^◌, Bool, true, false, Option, none, some, List, [], ◌∷◌, ltb, leb, if◌then◌else◌,
  length, set, replicate,
}
use theory_os.Base.Slots.{entry}
use theory_os.Ipc.Pipe.{
  PipeInner, Result, ok, err, bad_fd, epipe, would_block, max_pipes, new_inner, write_status,
  read_status, write_wait, read_wait, dup_read_inner, dup_write_inner, close_read_inner,
  close_write_inner,
}

-- `PIPES`, with its spin lock, and `NEXT_PIPE`.
pub record Pipes : Type 0 where
  pub slots : List (Option PipeInner)
  pub next : ℕ
  pub locked : Bool

unfoldable pub initial : Pipes
initial = record { slots = replicate max_pipes none; next = 0; locked = false }

-- The result of a closure run on a table entry. `crashed` is an index out of the table, `locked_out`
-- waits without end for the lock, which a sleeping thread has.
pub data Access (A : Type 0) : Type 0 where
  reached : A → Access A
  missing : Access A
  crashed : Access A
  locked_out : Access A

-- The lock is given back at the end, so that the table is left unlocked.
unfoldable pub with_pipe : {A : Type 0} → ℕ → (PipeInner → A × PipeInner) → Pipes → Access A × Pipes
with_pipe id f t =
    if t.locked
    then (locked_out, t)
    else if ltb id (length t.slots)
    then elim (entry t.slots id) [
      | none ↦ (missing, t)
      | some p ↦ (reached (f p).0, record t { slots = set t.slots id (some (f p).1) })
    ]
    else (crashed, t)

-- `Pipe::create`; both ends carry the same number, and `missing` is the error. The counter wraps at
-- 2^32, and has moved on by the time the lock of the table is asked for.
unfoldable pub create : Pipes → Access ℕ × Pipes
create t =
    let id = t.next in
    let t' : Pipes = record t { next = (id + 1) % 2 ^ 32 } in
    if leb max_pipes id then (missing, t') else if t.locked then (locked_out, t') else (
      reached id,
      record t' {
        slots = set t.slots id (some (record new_inner { read_refs = 1; write_refs = 1 }));
      },
    )

unfoldable pub dup_read : ℕ → Pipes → Access Unit × Pipes
dup_read id t = with_pipe id (λ p. (tt, dup_read_inner p)) t

unfoldable pub dup_write : ℕ → Pipes → Access Unit × Pipes
dup_write id t = with_pipe id (λ p. (tt, dup_write_inner p)) t

-- The threads woken are the result.
unfoldable pub close_read : ℕ → Pipes → Access (List ℕ) × Pipes
close_read id t = with_pipe id (λ p. let (p', woken) = close_read_inner p in (woken, p')) t

unfoldable pub close_write : ℕ → Pipes → Access (List ℕ) × Pipes
close_write id t = with_pipe id (λ p. let (p', woken) = close_write_inner p in (woken, p')) t

-- How far a call of `write` or `read` has come: `once_more` is at the next round of its loop,
-- `asleep` with the lock in its hands, `spinning` without end for the lock.
pub data Call (A : Type 0) : Type 0 where
  returned : Result A → Call A
  once_more : Call A
  asleep : Call A
  spinning : Call A
  panicked : Call A

-- What the second `with_pipe` of a round comes to; asleep, the thread keeps the lock.
abbrev pub waited : {A : Type 0} → Access Bool × Pipes → Call A × Pipes
waited (crashed, t) = (panicked, t)
waited (locked_out, t) = (spinning, t)
waited (missing, t) = (once_more, t)
waited (reached false, t) = (once_more, t)
waited (reached true, t) = (asleep, record t { locked = true })

-- The `match` on the status.
abbrev pub settle : {A : Type 0} → Access (Result A) → Pipes → Access Bool × Pipes → Call A × Pipes
settle crashed t wait = (panicked, t)
settle locked_out t wait = (spinning, t)
settle missing t wait = (returned (err bad_fd), t)
settle (reached (ok a)) t wait = (returned (ok a), t)
settle (reached (err epipe)) t wait = (returned (err epipe), t)
settle (reached (err bad_fd)) t wait = (returned (err bad_fd), t)
settle (reached (err would_block)) t wait = waited wait

-- One round of the loop of `Pipe::write`, by thread `tid`; `others` is what the other threads do to
-- the table between its two closures, while the lock is free.
unfoldable pub write_round : ℕ → ℕ → List ℕ → (Pipes → Pipes) → Pipes → Call ℕ × Pipes
write_round id tid bytes others t =
    let (status, t') = with_pipe id (λ p. let (r, p', woken) = write_status p bytes in (r, p')) t in
    settle status t' (with_pipe id (λ p. write_wait p tid) (others t'))

-- The next round: a thread that slept gives the lock back first. A call that is over stays so.
unfoldable pub resume : {A : Type 0} → Call A × Pipes → (Pipes → Call A × Pipes) → Call A × Pipes
resume (once_more, t) next = next t
resume (asleep, t) next = next (record t { locked = false })
resume (returned r, t) next = (returned r, t)
resume (spinning, t) next = (spinning, t)
resume (panicked, t) next = (panicked, t)

-- `Pipe::write`: `others` is for the first round, and the list for those after it; that a thread
-- goes on from its sleep is due to causes outside this file.
unfoldable pub write :
    List (Pipes → Pipes) → (Pipes → Pipes) → ℕ → ℕ → List ℕ → Pipes → Call ℕ × Pipes
write [] others id tid bytes t = write_round id tid bytes others t
write (after ∷ later) others id tid bytes t =
    resume (write_round id tid bytes others t) (λ t'. write later after id tid bytes t')

unfoldable pub read_round : ℕ → ℕ → ℕ → (Pipes → Pipes) → Pipes → Call (List ℕ) × Pipes
read_round id tid room others t =
    let (status, t') = with_pipe id (λ p. let (r, p', woken) = read_status p room in (r, p')) t in
    settle status t' (with_pipe id (λ p. read_wait p tid) (others t'))

-- `Pipe::read` into a buffer of `room` bytes.
unfoldable pub read :
    List (Pipes → Pipes) → (Pipes → Pipes) → ℕ → ℕ → ℕ → Pipes → Call (List ℕ) × Pipes
read [] others id tid room t = read_round id tid room others t
read (after ∷ later) others id tid room t =
    resume (read_round id tid room others t) (λ t'. read later after id tid room t')
