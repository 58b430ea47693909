-- ===== src/Ipc/Pipe.antt =====
-- kernel/src/ipc/pipe.rs: anonymous pipes. The two statics (the table and the next number) are one
-- record, with the spin lock of the table. A thread that blocks inside `write` or `read` does so in
-- the closure of `with_pipe`, and keeps that lock while it sleeps.
pub mod Ring
pub mod Step
pub mod Trace
pub mod Table
mod Tests
use Prim.Native.Nat.{min}
use theory_os.Base.{
  ℕ, zero, suc, ◌+◌, ◌-◌, ◌%◌, ◌^◌, Bool, true, false, ◌&&◌, not, Option, none, some, List, [], ◌∷◌,
  leb, ltb, ◌==◌, if◌then◌else◌, get_or, set, length, replicate,
}
use theory_os.Base.Slots.{entry}
use theory_os.Ipc.Wait.{WaitQueue}
use theory_os.Ipc.Wait

abbrev pub pipe_buf : ℕ
pipe_buf = 4096

abbrev pub max_pipes : ℕ
max_pipes = 64

-- `PipeInner`.
pub record PipeInner : Type 0 where
  pub buf : List ℕ
  pub head : ℕ
  pub tail : ℕ
  pub len : ℕ
  pub read_refs : ℕ
  pub write_refs : ℕ
  pub read_waiters : WaitQueue
  pub write_waiters : WaitQueue

pub data PipeError : Type 0 where
  bad_fd epipe would_block : PipeError

pub data Result {ℓ} (A : Type ℓ) : Type ℓ where
  ok : A → Result A
  err : PipeError → Result A

-- `PipeInner::new`.
unfoldable pub new_inner : PipeInner
unfolding Wait.new
new_inner = record {
  buf = replicate pipe_buf 0;
  head = 0;
  tail = 0;
  len = 0;
  read_refs = 0;
  write_refs = 0;
  read_waiters = Wait.new;
  write_waiters = Wait.new;
}

-- One round of the loop of `write_once`.
abbrev pub put : PipeInner → ℕ → PipeInner
put p b = record p { buf = set p.buf p.tail b; tail = (p.tail + 1) % pipe_buf; len = p.len + 1 }

unfoldable pub write_once : PipeInner → List ℕ → ℕ → ℕ × PipeInner
write_once p [] written = (written, p)
write_once p (b ∷ bs) written =
    let more = write_once (put p b) bs (written + 1) in
    if leb pipe_buf p.len then (written, p) else more

-- One round of the loop of `read_once`.
abbrev pub drop_head : PipeInner → PipeInner
drop_head p = record p { head = (p.head + 1) % pipe_buf; len = p.len - 1 }

-- `read_once` into a slice of `room` bytes; the bytes stored stand in the list.
unfoldable pub read_once : PipeInner → ℕ → List ℕ × PipeInner
read_once p zero = ([], p)
read_once p (suc room) =
    let (rest, last) = read_once (drop_head p) room in
    if ltb 0 p.len then (get_or p.buf p.head 0 ∷ rest, last) else ([], p)

-- The closure of `Pipe::write`: the status, the pipe, and the threads woken.
unfoldable pub write_status : PipeInner → List ℕ → Result ℕ × PipeInner × List ℕ
write_status p bytes =
    if p.read_refs == 0
    then (err epipe, p, [])
    else let (wrote, p') = write_once p bytes 0 in
      if ltb 0 wrote
      then (let (woken, waiters) = Wait.wake_one p'.read_waiters in
          (ok wrote, record p' { read_waiters = waiters }, woken))
      else if leb pipe_buf p'.len
      then (err would_block, p', [])
      else (ok 0, p', [])

-- The closure of `Pipe::read`.
unfoldable pub read_status : PipeInner → ℕ → Result (List ℕ) × PipeInner × List ℕ
read_status p room =
    if ltb 0 p.len
    then (let (out, p') = read_once p room in
        if ltb 0 (length out)
        then (let (woken, waiters) = Wait.wake_one p'.write_waiters in
            (ok out, record p' { write_waiters = waiters }, woken))
        else (ok out, p', []))
    else if p.write_refs == 0
    then (ok [], p, [])
    else (err would_block, p, [])

-- The second closure of `write` and `read`, for a pipe that would block: thread `tid` is queued and
-- sleeps unless the other end has changed. This is the closure up to the sleep; it ends, and the
-- lock of the table with it, once the thread goes on. Whether it sleeps is the Boolean.
unfoldable pub write_wait : PipeInner → ℕ → Bool × PipeInner
write_wait p tid =
    if p.read_refs == 0
    then (false, p)
    else (true, record p { write_waiters = Wait.block_on p.write_waiters tid })

unfoldable pub read_wait : PipeInner → ℕ → Bool × PipeInner
read_wait p tid =
    if ltb 0 p.len
    then (false, p)
    else if p.write_refs == 0
    then (false, p)
    else (true, record p { read_waiters = Wait.block_on p.read_waiters tid })

-- `dup_read`, `dup_write`, `close_read` and `close_write` on one pipe. A count wraps at 2^32.
unfoldable pub dup_read_inner : PipeInner → PipeInner
dup_read_inner p = record p { read_refs = (p.read_refs + 1) % 2 ^ 32 }

unfoldable pub dup_write_inner : PipeInner → PipeInner
dup_write_inner p = record p { write_refs = (p.write_refs + 1) % 2 ^ 32 }

unfoldable pub close_read_inner : PipeInner → PipeInner × List ℕ
close_read_inner p =
    let refs = if ltb 0 p.read_refs then p.read_refs - 1 else p.read_refs in
    if refs == 0
    then (let (woken, waiters) = Wait.wake_all p.write_waiters in
        (record p { read_refs = refs; write_waiters = waiters }, woken))
    else (record p { read_refs = refs }, [])

unfoldable pub close_write_inner : PipeInner → PipeInner × List ℕ
close_write_inner p =
    let refs = if ltb 0 p.write_refs then p.write_refs - 1 else p.write_refs in
    if refs == 0
    then (let (woken, waiters) = Wait.wake_all p.read_waiters in
        (record p { write_refs = refs; read_waiters = waiters }, woken))
    else (record p { write_refs = refs }, [])

-- `pipe_err_to_errno`.
unfoldable pub pipe_err_to_errno : PipeError → ℕ
pipe_err_to_errno bad_fd = 9
pipe_err_to_errno epipe = 32
pipe_err_to_errno would_block = 11
