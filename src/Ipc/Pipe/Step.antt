-- ===== src/Ipc/Pipe/Step.antt =====
-- The closures of `Pipe::write` and `Pipe::read`, branch by branch.
use Prim.Native.Nat.{min}
use theory_os.Base.{
  ℕ, ◌-◌, ◌<◌, ◌≡◌, ◌≢◌, List, [], ◌++◌, arith, ◌==◌, if◌then◌else◌, length, take, drop, append-nil,
  ap, ◌∙◌,
}
use theory_os.Ipc.Pipe.{PipeInner, ok, err, epipe, would_block, write_status, read_status}
use theory_os.Ipc.Pipe.Ring.{IsValid, contents, write_once_lem, read_once_lem}

module _ (p : PipeInner) (bytes : List ℕ) (v : IsValid p) where
  -- A write with no reader left fails with EPIPE and changes nothing.
  pub write_status-broken : p.read_refs ≡ 0 → write_status p bytes ≡ (err epipe, p, [])
  unfolding write_status
  write_status-broken closed = ground arith

  -- A write into a full pipe would block, whatever it has to write, and stores nothing.
  pub write_status-full :
      p.read_refs ≢ 0
      → p.len ≡ 4096
      → ((write_status p bytes).0 ≡ err would_block)
        × (contents (write_status p bytes).1 ≡ contents p)
        × IsValid (write_status p bytes).1
  unfolding write_status
  write_status-full open_ full =
      let w = write_once_lem bytes p 0 v in
      let same : contents p ++ take (4096 - p.len) bytes ≡ contents p =
        let none_left : 4096 - p.len ≡ 0 = omega arith in
        ap (λ k. contents p ++ take k bytes) none_left ∙ append-nil (contents p) in
      (ground (arith, w), ground (arith, w, same), ground (arith, w))

  pub write_status-room :
      p.read_refs ≢ 0
      → p.len < 4096
      → ((write_status p bytes).0 ≡ ok (min (length bytes) (4096 - p.len)))
        × (contents (write_status p bytes).1 ≡ contents p ++ take (4096 - p.len) bytes)
        × IsValid (write_status p bytes).1
  unfolding write_status
  write_status-room open_ room =
      let w = write_once_lem bytes p 0 v in
      (ground (arith, w), ground (arith, w), ground (arith, w))

module _ (p : PipeInner) (room : ℕ) (v : IsValid p) where
  -- A read takes the oldest bytes that there are, as many as there is room for.
  pub read_status-some :
      0 < p.len
      → ((read_status p room).0 ≡ ok (take room (contents p)))
        × (contents (read_status p room).1 ≡ drop room (contents p))
        × IsValid (read_status p room).1
  unfolding read_status
  read_status-some some_left =
      let t = read_once_lem room p v in (ground (arith, t), ground (arith, t), ground (arith, t))

  -- An empty pipe reads as the end of the file once no writer is left, and would block before.
  pub read_status-empty :
      p.len ≡ 0 → read_status p room ≡ (if p.write_refs == 0 then ok [] else err would_block, p, [])
  unfolding read_status
  read_status-empty empty = ground arith

-- `write` in all its branches: EPIPE with no reader left and nothing changed; else blocked with
-- nothing stored if the pipe is full; else the number of bytes that fit, and those bytes appended.
pub write_status_lem :
    (p : PipeInner) (bytes : List ℕ)
    → IsValid p
    → (p.read_refs ≡ 0 → write_status p bytes ≡ (err epipe, p, []))
      × (p.read_refs ≢ 0
          → p.len ≡ 4096
          → ((write_status p bytes).0 ≡ err would_block)
            × (contents (write_status p bytes).1 ≡ contents p)
            × IsValid (write_status p bytes).1)
      × (p.read_refs ≢ 0
          → p.len < 4096
          → ((write_status p bytes).0 ≡ ok (min (length bytes) (4096 - p.len)))
            × (contents (write_status p bytes).1 ≡ contents p ++ take (4096 - p.len) bytes)
            × IsValid (write_status p bytes).1)
write_status_lem p bytes v =
    (write_status-broken p bytes v, write_status-full p bytes v, write_status-room p bytes v)

-- `read` in all its branches: the oldest bytes of a pipe that holds some, which are removed; from
-- an empty pipe the end of the file if no writer is left, and blocked if one is.
pub read_status_lem :
    (p : PipeInner) (room : ℕ)
    → IsValid p
    → (0 < p.len
        → ((read_status p room).0 ≡ ok (take room (contents p)))
          × (contents (read_status p room).1 ≡ drop room (contents p))
          × IsValid (read_status p room).1)
      × (p.len ≡ 0
          → read_status p room ≡ (if p.write_refs == 0 then ok [] else err would_block, p, []))
read_status_lem p room v = (read_status-some p room v, read_status-empty p room v)
