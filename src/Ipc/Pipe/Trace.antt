-- ===== src/Ipc/Pipe/Trace.antt =====
-- Whatever the threads do with a pipe, and in whatever order, its bytes come out as they went in.
use Prim.Native.Nat.{min}
use theory_os.Base.{
  ℕ, zero, suc, ◌-◌, ◌≡◌, sym, ap, ◌∙◌, List, [], ◌∷◌, ◌++◌, arith, ltb, ◌==◌, length, take,
  take-nil, append-nil, append_assoc, take-append-drop, Bool-cases, inl, inr,
}
use mathlib.Core.Path.{ap₂}
use theory_os.Ipc.Pipe.{
  PipeInner, Result, ok, err, epipe, write_status, read_status, write_wait, read_wait,
  dup_read_inner, dup_write_inner, close_read_inner, close_write_inner,
}
use theory_os.Ipc.Pipe.Ring.{IsValid, contents}
use theory_os.Ipc.Pipe.Step.{write_status_lem, read_status_lem}

-- One closure run by some thread on the pipe. A blocked call runs two or more: it queues itself and
-- sleeps (`sleep_writing`, `sleep_reading`), and tries again once it has gone on; between the two
-- the lock of the table keeps all others away, so that fewer sequences occur than there are lists.
pub data Turn : Type 0 where
  writing : List ℕ → Turn
  reading : ℕ → Turn
  sleep_writing sleep_reading : ℕ → Turn
  dup_reader dup_writer close_reader close_writer : Turn

-- The bytes that a turn put in, by the count that it returned.
abbrev pub stored : List ℕ → Result ℕ → List ℕ
stored bytes (ok n) = take n bytes
stored bytes (err e) = []

abbrev pub delivered : Result (List ℕ) → List ℕ
delivered (ok out) = out
delivered (err e) = []

-- The pipe after a turn, the bytes put in and the bytes taken out.
pub turn : PipeInner → Turn → PipeInner × List ℕ × List ℕ
turn p (writing bytes) = let (r, p', woken) = write_status p bytes in (p', stored bytes r, [])
turn p (reading room) = let (r, p', woken) = read_status p room in (p', [], delivered r)
turn p (sleep_writing tid) = ((write_wait p tid).1, [], [])
turn p (sleep_reading tid) = ((read_wait p tid).1, [], [])
turn p dup_reader = (dup_read_inner p, [], [])
turn p dup_writer = (dup_write_inner p, [], [])
turn p close_reader = ((close_read_inner p).0, [], [])
turn p close_writer = ((close_write_inner p).0, [], [])

pub run : PipeInner → List Turn → PipeInner × List ℕ × List ℕ
run p [] = (p, [], [])
run p (t ∷ ts) =
    let (p', put_in, taken) = turn p t in
    let (last, more_in, more_taken) = run p' ts in (last, put_in ++ more_in, taken ++ more_taken)

-- What came out, and then what is still inside, is what was inside and then what went in.
pub record Conserves (p : PipeInner) (out : PipeInner × List ℕ × List ℕ) : Type 0 where
  pub valid : IsValid out.0
  pub bytes : out.2 ++ contents out.0 ≡ contents p ++ out.1

take_all : (n : ℕ) (xs : List ℕ) → take (min (length xs) n) xs ≡ take n xs
take_all n [] = take-nil _ ∙ sym (take-nil n)
take_all zero (x ∷ xs) =
    let e : min (length (x ∷ xs)) 0 ≡ 0 = omega arith in ap (λ k. take k (x ∷ xs)) e
take_all (suc n) (x ∷ xs) =
    let e : min (length (x ∷ xs)) (suc n) ≡ suc (min (length xs) n) = omega arith in
    ap (λ k. take k (x ∷ xs)) e ∙ ap (λ l. x ∷ l) (take_all n xs)

-- The status of a write says which bytes went in.
write_status-stored :
    (p : PipeInner) (bytes : List ℕ)
    → IsValid p
    → (contents (write_status p bytes).1 ≡ contents p ++ stored bytes (write_status p bytes).0)
      × IsValid (write_status p bytes).1
write_status-stored p bytes v =
    let (broken, full, room) = write_status_lem p bytes v in
    elim (Bool-cases (p.read_refs == 0)) [
      | inl closed ↦
          let e : write_status p bytes ≡ (err epipe, p, []) = broken (ground arith) in
          rw e (sym (append-nil (contents p)), v)
      | inr opened ↦ elim (Bool-cases (ltb p.len 4096)) [
        | inl lt ↦
            let (status, bytes_in, valid) = room (ground arith) (ground arith) in
            (
              bytes_in
                  ∙ ap (λ l. contents p ++ l)
                      (sym (take_all (4096 - p.len) bytes) ∙ sym (ap (stored bytes) status)),
              valid,
            )
        | inr ge ↦
            let (status, kept, valid) = full (ground arith) (ground arith) in
            (
              kept
                  ∙ sym (append-nil (contents p))
                  ∙ ap (λ l. contents p ++ l) (sym (ap (stored bytes) status)),
              valid,
            )
      ]
    ]

-- The status of a read carries the bytes that came out.
read_status-delivered :
    (p : PipeInner) (room : ℕ)
    → IsValid p
    → (delivered (read_status p room).0 ++ contents (read_status p room).1 ≡ contents p)
      × IsValid (read_status p room).1
read_status-delivered p room v =
    let (holding, empty) = read_status_lem p room v in
    elim (Bool-cases (ltb 0 p.len)) [
      | inl lt ↦
          let (status, kept, valid) = holding (ground arith) in
          (ap₂ ◌++◌ (ap delivered status) kept ∙ take-append-drop room (contents p), valid)
      | inr ge ↦ rw (empty (ground arith)) (ground (arith, v))
    ]

turn_lem : (p : PipeInner) (t : Turn) → IsValid p → Conserves p (turn p t)
unfolding turn write_wait read_wait dup_read_inner dup_write_inner close_read_inner
    close_write_inner
turn_lem p (writing bytes) v =
    let (bytes_in, valid) = write_status-stored p bytes v in
    record { valid = valid; bytes = bytes_in }
turn_lem p (reading room) v =
    let (bytes_out, valid) = read_status-delivered p room v in
    record { valid = valid; bytes = bytes_out ∙ sym (append-nil (contents p)) }
turn_lem p t v = ground (arith, append-nil (contents p))

-- From a well-formed pipe, every sequence of turns delivers the bytes in the order in which they
-- were accepted, and loses and invents none: the bytes taken out, followed by those left inside,
-- are those inside at the start followed by those accepted. The pipe stays well formed.
pub run-Conserves : (ts : List Turn) (p : PipeInner) → IsValid p → Conserves p (run p ts)
unfolding run
run-Conserves [] p v = record { valid = v; bytes = sym (append-nil (contents p)) }
run-Conserves (t ∷ ts) p v =
    let first : Conserves p (turn p t) = turn_lem p t v in
    let rest : Conserves (turn p t).0 (run (turn p t).0 ts) =
      run-Conserves ts (turn p t).0 first.valid in
    let next = run (turn p t).0 ts in
    record {
      valid = rest.valid;
      bytes =
          append_assoc (turn p t).2 next.2 (contents next.0)
          ∙ ap (λ l. (turn p t).2 ++ l) rest.bytes
          ∙ sym (append_assoc (turn p t).2 (contents (turn p t).0) next.1)
          ∙ ap (λ l. l ++ next.1) first.bytes
          ∙ append_assoc (contents p) (turn p t).1 next.1;
    }
