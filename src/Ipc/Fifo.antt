-- ===== src/Ipc/Fifo.antt =====
-- kernel/src/ipc/fifo.rs: pipes under the paths of named FIFOs.
pub mod Laws
mod Tests
use theory_os.Base.{
  ℕ, zero, suc, ◌+◌, ◌-◌, Bool, true, false, not, ◌&&◌, Option, none, some, List, [], ◌∷◌, ◌==◌,
  if◌then◌else◌, length, take, min, set, replicate,
}
use Prim.Native.Nat.{bit_and, bit_or}
use theory_os.Base.Slots.{position, is_free}
use theory_os.Fs.Vfs.Dentry.{same_bytes}
use theory_os.Ipc.Pipe.Table.{Pipes, Access, reached, missing, crashed, locked_out, create}

-- `path` is the array up to `path_len`.
pub record FifoEntry : Type 0 where
  pub path : List ℕ
  pub pipe : ℕ

abbrev pub max_fifos : ℕ
max_fifos = 32

-- `FIFOS`.
abbrev pub Fifos : Type 0
Fifos = List (Option FifoEntry)

abbrev pub initial : Fifos
initial = replicate max_fifos none

abbrev pub new_entry : List ℕ → ℕ → FifoEntry
new_entry path pipe = record { path = take (min (length path) 256) path; pipe = pipe }

abbrev pub is_at : List ℕ → FifoEntry → Bool
is_at path e = (length e.path == length path) && same_bytes e.path path

unfoldable pub lookup : List ℕ → Fifos → Option ℕ
unfolding same_bytes
lookup path [] = none
lookup path (none ∷ fifos) = lookup path fifos
lookup path (some e ∷ fifos) =
    let rest = lookup path fifos in if is_at path e then some e.pipe else rest

-- The loop that fills the first free slot; none where there is none.
unfoldable pub add_entry : FifoEntry → Fifos → Option Fifos
unfolding position
add_entry e fifos = elim (position is_free fifos) [
  | none ↦ none
  | some i ↦ some (set fifos i (some e))
]

abbrev pub with_pipe : List ℕ → Fifos → Access ℕ × Pipes → Access ℕ × Fifos × Pipes
with_pipe path fifos (missing, pipes) = (missing, fifos, pipes)
with_pipe path fifos (crashed, pipes) = (crashed, fifos, pipes)
with_pipe path fifos (locked_out, pipes) = (locked_out, fifos, pipes)
with_pipe path fifos (reached id, pipes) = elim (add_entry (new_entry path id) fifos) [
  | none ↦ (missing, fifos, pipes)
  | some fifos' ↦ (reached id, fifos', pipes)
]

-- The number of the pipe; `missing` is the error, and `locked_out` waits for the table of pipes.
unfoldable pub mkfifo : List ℕ → Fifos → Pipes → Access ℕ × Fifos × Pipes
unfolding create add_entry
mkfifo path fifos pipes = with_pipe path fifos (create pipes)

abbrev pub or_same : Fifos → Option Fifos → Fifos
or_same fifos none = fifos
or_same fifos (some fifos') = fifos'

unfoldable pub register : List ℕ → ℕ → Fifos → Fifos
unfolding lookup add_entry
register path pipe fifos = elim (lookup path fifos) [
  | some other ↦ fifos
  | none ↦ or_same fifos (add_entry (new_entry path pipe) fifos)
]

abbrev pub encode_rdev : ℕ → ℕ
encode_rdev pipe = bit_or 0x1000 pipe

abbrev pub decode_rdev : ℕ → Option ℕ
decode_rdev rdev = if not (bit_and rdev 0x1000 == 0) then some (bit_and rdev 0x0fff) else none
