-- ===== src/Ipc/Fifo/Tests.antt =====
-- Named FIFOs at concrete tables.
use theory_os.Base.{ℕ, ◌≡◌, refl, none, some, List, [], ◌∷◌}
use theory_os.Ipc.Pipe.Table.{Pipes, create, missing}
use theory_os.Ipc.Pipe.Table
use theory_os.Ipc.Fifo.{Fifos, new_entry, lookup, mkfifo, encode_rdev, decode_rdev}

abbrev first_path : List ℕ
first_path = 0x2f ∷ 0x61 ∷ []

abbrev second_path : List ℕ
second_path = 0x2f ∷ 0x62 ∷ []

-- One FIFO, and a free slot.
abbrev fifos : Fifos
fifos = some (new_entry first_path 7) ∷ none ∷ []

abbrev no_pipes : Pipes
no_pipes = Table.initial

found : lookup second_path (mkfifo second_path fifos no_pipes).1 ≡ some 0
unfolding mkfifo lookup Table.initial
found = refl

-- In a full table.
refused : (mkfifo second_path (some (new_entry first_path 7) ∷ []) no_pipes).0 ≡ missing
unfolding mkfifo Table.initial
refused = refl

rdev : decode_rdev (encode_rdev 0x123) ≡ some 0x123
rdev = refl
