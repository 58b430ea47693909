-- ===== src/Ipc/Pipe/Tests.antt =====
-- The theorems on pipes at concrete pipes and tables.
use theory_os.Base.{
  ℕ, zero, suc, ◌-◌, ◌<◌, ◌≡◌, ◌≢◌, refl, none, some, List, [], ◌∷◌, ◌++◌, arith, if◌then◌else◌,
  ◌==◌, take, drop, min, false, set, replicate, length-replicate, Option,
}
use theory_os.Base.Slots.{entry}
use theory_os.Ipc.Pipe.{
  PipeInner, ok, err, epipe, would_block, new_inner, write_status, read_status, write_once,
  write_wait, read_wait, close_read_inner,
}
use theory_os.Ipc.Pipe.Ring.{IsValid, contents, new_inner-IsValid}
use theory_os.Ipc.Pipe.Step.{write_status_lem, read_status_lem}
use theory_os.Ipc.Pipe.Trace.{Turn, writing, reading, close_writer, run, Conserves, run-Conserves}
use theory_os.Ipc.Pipe.Table.{
  Pipes, initial, Call, returned, asleep, spinning, read, read_round, write, write_round,
  close_read, with_pipe, resume,
}
use theory_os.Ipc.Pipe.Table.Laws.{IsWellFormed}

-- A pipe just created.
abbrev piped : PipeInner
piped = record new_inner { read_refs = 1; write_refs = 1 }

piped-IsValid : IsValid piped
piped-IsValid = record {
  storage = new_inner-IsValid.storage;
  head_in = new_inner-IsValid.head_in;
  len_in = new_inner-IsValid.len_in;
  in_step = new_inner-IsValid.in_step;
}

abbrev turns : List Turn
turns = writing (1 ∷ 2 ∷ 3 ∷ []) ∷ reading 2 ∷ close_writer ∷ reading 5 ∷ []

run-Conserves_example : Conserves piped (run piped turns)
run-Conserves_example = run-Conserves turns piped piped-IsValid

write_status_lem_example :
    (piped.read_refs ≡ 0 → write_status piped (4 ∷ []) ≡ (err epipe, piped, []))
    × (piped.read_refs ≢ 0
        → piped.len ≡ 4096
        → ((write_status piped (4 ∷ [])).0 ≡ err would_block)
          × (contents (write_status piped (4 ∷ [])).1 ≡ contents piped)
          × IsValid (write_status piped (4 ∷ [])).1)
    × (piped.read_refs ≢ 0
        → piped.len < 4096
        → ((write_status piped (4 ∷ [])).0 ≡ ok (min 1 (4096 - piped.len)))
          × (contents (write_status piped (4 ∷ [])).1
              ≡ contents piped ++ take (4096 - piped.len) (4 ∷ []))
          × IsValid (write_status piped (4 ∷ [])).1)
write_status_lem_example = write_status_lem piped (4 ∷ []) piped-IsValid

read_status_lem_example :
    (0 < piped.len
      → ((read_status piped 3).0 ≡ ok (take 3 (contents piped)))
        × (contents (read_status piped 3).1 ≡ drop 3 (contents piped))
        × IsValid (read_status piped 3).1)
    × (piped.len ≡ 0
        → read_status piped 3
          ≡ (if piped.write_refs == 0 then ok [] else err would_block, piped, []))
read_status_lem_example = read_status_lem piped 3 piped-IsValid

entry-replicate : (n i : ℕ) → entry {A = PipeInner} (replicate n none) i ≡ none
entry-replicate zero i = refl
entry-replicate (suc n) zero = refl
entry-replicate (suc n) (suc i) = entry-replicate n i

initial-IsWellFormed : IsWellFormed initial
unfolding initial
initial-IsWellFormed = record {
  size = length-replicate {A = Option PipeInner} 64 none;
  unused = λ i le. entry-replicate 64 i;
  pipes = λ i p e. absurd (ground (arith, entry-replicate 64 i, e));
}

-- 64 pipes have been created.
abbrev used_up : Pipes
used_up = record { slots = replicate 64 (some piped); next = 64; locked = false }

-- A write of thread 8 to another pipe, after thread 7 has gone to sleep in a read.
both : Call (List ℕ) × Call ℕ
unfolding read write
both =
    let (reader, t) = read [] (λ s. s) 0 7 5 used_up in
    (reader, (write [] (λ s. s) 1 8 (1 ∷ 2 ∷ []) t).0)

locked_out_writer : both ≡ (asleep, spinning)
unfolding both read read_round write write_round with_pipe read_status read_wait new_inner
locked_out_writer = refl

-- A writer that finds room is not kept waiting, and the lock is free again.
written : (write [] (λ s. s) 1 8 (1 ∷ 2 ∷ []) used_up).0 ≡ returned (ok 2)
unfolding write write_round with_pipe write_status write_once new_inner
written = refl

-- The last reader goes while the lock is free, after the writer has found the pipe full: it does not
-- sleep, and gives up in the next round.
noticed :
    (write
      ((λ s. s) ∷ [])
      (λ s. (close_read 0 s).1)
      0
      8
      (1 ∷ [])
      (record used_up { slots = set used_up.slots 0 (some (record piped { len = 4096 })) })).0
    ≡ returned (err epipe)
unfolding write write_round resume with_pipe write_status write_once close_read write_wait
    close_read_inner
noticed = refl
