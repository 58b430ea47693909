-- ===== src/Fs/Fd/Tests.antt =====
-- The theorems on descriptor tables at concrete tables.
use theory_os.Base.{ℕ, ◌≤◌, ◌<◌, ◌≡◌, ◌≢◌, refl, ◌⊎◌, none, some, ◌∷◌, replicate}
use theory_os.Base.Slots.{position}
use theory_os.Fs.Fd.{
  FdEntry, FdTable, console_in, console_out, console_err, pipe_read, pipe_write, ok, err, alloc,
  get, close, dup2, get_fd_flags,
}
use theory_os.Fs.Fd.Slots.{IsValid, dup2_lem}

-- Standard descriptors, and the read end of a pipe that is marked FD_CLOEXEC at 3.
abbrev shell : FdTable
shell = record {
  entries =
      some console_in
      ∷ some console_out
      ∷ some console_err
      ∷ some (pipe_read 4)
      ∷ replicate 252 none;
  fd_flags = 0 ∷ 0 ∷ 0 ∷ 1 ∷ replicate 252 0;
  next_fd = 3;
}

shell-IsValid : IsValid shell
shell-IsValid = record { entries = refl; flags = refl }

gives_four : (alloc (pipe_write 4) shell).0 ≡ ok 4
unfolding alloc position
gives_four = refl

given_again : (alloc (pipe_write 9) (close 3 shell).1).0 ≡ ok 3
unfolding alloc close position
given_again = refl

-- The new descriptor 3 is marked FD_CLOEXEC.

dup2_lem_example :
    (get shell 3 ≡ none ⊎ 256 ≤ 1 → dup2 3 1 shell ≡ (err, shell))
    × ((e : FdEntry)
        → get shell 3 ≡ some e
        → 1 < 256
        → ((dup2 3 1 shell).0 ≡ ok 1)
          × (get (dup2 3 1 shell).1 1 ≡ some e)
          × (get_fd_flags (dup2 3 1 shell).1 1 ≡ get_fd_flags shell 3)
          × ((j : ℕ) → 1 ≢ j → get (dup2 3 1 shell).1 j ≡ get shell j))
dup2_lem_example = dup2_lem 3 1 shell shell-IsValid
