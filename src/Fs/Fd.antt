-- ===== src/Fs/Fd.antt =====
-- kernel/src/fs/fd.rs: the table of file descriptors of a process.
pub mod Slots
pub mod Exec
mod Tests
use Prim.Native.Nat.{bit_and}
use theory_os.Base.{
  ℕ, zero, suc, ◌+◌, Bool, true, false, ◌||◌, not, Option, none, some, List, [], ◌∷◌, ltb, leb,
  ◌==◌, if◌then◌else◌, is_some, length, get_or, set, replicate,
}
use theory_os.Base.Slots.{entry, position, is_free}

abbrev pub max_fds : ℕ
max_fds = 256

abbrev pub fd_cloexec : ℕ
fd_cloexec = 1

-- `OpenFlags` as its bits.
abbrev pub o_rdonly : ℕ
o_rdonly = 0

abbrev pub o_wronly : ℕ
o_wronly = 1

abbrev pub o_rdwr : ℕ
o_rdwr = 2

-- `OpenFile` of kernel/src/fs/vfs/file.rs.
pub record OpenFile : Type 0 where
  pub mount : ℕ
  pub ino : ℕ
  pub offset : ℕ
  pub flags : ℕ
  pub generation : ℕ

-- Pipes and sockets are known by number.
pub data FdEntry : Type 0 where
  console_in console_out console_err anon : FdEntry
  pipe_read pipe_write socket unix_socket : ℕ → FdEntry
  vfs : OpenFile → FdEntry

pub record FdTable : Type 0 where
  pub entries : List (Option FdEntry)
  pub fd_flags : List ℕ
  pub next_fd : ℕ

-- `Result<T, ()>`.
pub data Result {ℓ} (A : Type ℓ) : Type ℓ where
  ok : A → Result A
  err : Result A

unfoldable pub new : FdTable
new = record { entries = replicate max_fds none; fd_flags = replicate max_fds 0; next_fd = 3 }

unfoldable pub init_stdio : FdTable → FdTable
init_stdio t = record t {
  entries = set (set (set t.entries 0 (some console_in)) 1 (some console_out)) 2 (some console_err);
}

unfoldable pub alloc : FdEntry → FdTable → Result ℕ × FdTable
alloc e t = elim (position is_free t.entries) [
  | none ↦ (err, t)
  | some fd ↦ (ok fd, record t { entries = set t.entries fd (some e) })
]

-- `entries.get(fd)` is none out of the table.
unfoldable pub get : FdTable → ℕ → Option FdEntry
get t fd = entry t.entries fd

-- `get_vfs_mut`: the open file, for the caller to change.
unfoldable pub get_vfs_mut : FdTable → ℕ → Option OpenFile
get_vfs_mut t fd = elim (entry t.entries fd) [ some (vfs f) ↦ some f | _ ↦ none ]

unfoldable pub dup : FdTable → ℕ → Result FdEntry
unfolding get
dup t fd = elim (get t fd) [ none ↦ err | some e ↦ ok e ]

unfoldable pub close : ℕ → FdTable → Result (Unit {0}) × FdTable
close fd t = if ltb fd 3 then (err, t) else elim (entry t.entries fd) [
  | none ↦ (err, t)
  | some e ↦ (ok tt, record t { entries = set t.entries fd none })
]

unfoldable pub dup2 : ℕ → ℕ → FdTable → Result ℕ × FdTable
unfolding dup
dup2 oldfd newfd t = elim (dup t oldfd) [
  | err ↦ (err, t)
  | ok e ↦ if leb max_fds newfd then (err, t) else (
    ok newfd,
    record t {
      entries = set t.entries newfd (some e);
      fd_flags = set t.fd_flags newfd (get_or t.fd_flags oldfd 0);
    },
  )
]

-- The test and the body of the loop of `close_on_exec`.
abbrev pub marked : FdTable → ℕ → Bool
marked t fd = not (bit_and (get_or t.fd_flags fd 0) fd_cloexec == 0)

abbrev pub sweep_one : ℕ → FdTable → FdTable
sweep_one fd t =
    if marked t fd
    then record t { entries = set t.entries fd none; fd_flags = set t.fd_flags fd 0 }
    else t

-- The loop over the `left` descriptors from `fd` on.
unfoldable pub sweep : ℕ → ℕ → FdTable → FdTable
sweep zero fd t = t
sweep (suc left) fd t = sweep left (fd + 1) (sweep_one fd t)

unfoldable pub close_on_exec : FdTable → FdTable
unfolding sweep
close_on_exec t = sweep 253 3 t

unfoldable pub get_fd_flags : FdTable → ℕ → ℕ
get_fd_flags t fd = get_or t.fd_flags fd 0

unfoldable pub set_fd_flags : ℕ → ℕ → FdTable → Result (Unit {0}) × FdTable
set_fd_flags fd flags t =
    if leb max_fds fd || is_free (entry t.entries fd)
    then (err, t)
    else (ok tt, record t { fd_flags = set t.fd_flags fd flags })

unfoldable pub open_flags : FdTable → ℕ → ℕ
open_flags t fd = elim (entry t.entries fd) [
  | some console_in ↦ o_rdonly
  | some console_out ↦ o_wronly
  | some console_err ↦ o_wronly
  | _ ↦ o_rdwr
]
