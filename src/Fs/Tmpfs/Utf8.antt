-- ===== src/Fs/Tmpfs/Utf8.antt =====
-- `core::str::from_utf8` as kernel/src/fs/tmpfs/mod.rs uses it on names.
use theory_os.Base.{
  ℕ, zero, suc, Bool, true, false, ◌&&◌, Option, none, some, List, [], ◌∷◌, ltb, leb, ◌==◌,
  if◌then◌else◌,
}

-- Behind a first byte: how many bytes follow, and the bounds of the next one.
abbrev pub lead : ℕ → Option (ℕ × ℕ × ℕ)
lead b =
    if ltb b 0x80
    then some (0, 0x80, 0xbf)
    else if ltb b 0xc2
    then none
    else if ltb b 0xe0
    then some (1, 0x80, 0xbf)
    else if b == 0xe0
    then some (2, 0xa0, 0xbf)
    else if b == 0xed
    then some (2, 0x80, 0x9f)
    else if ltb b 0xf0
    then some (2, 0x80, 0xbf)
    else if b == 0xf0
    then some (3, 0x90, 0xbf)
    else if ltb b 0xf4
    then some (3, 0x80, 0xbf)
    else if b == 0xf4
    then some (3, 0x80, 0x8f)
    else none

-- With `n` bytes of a character to come, the next of them between the bounds.
unfoldable pub utf8_loop : ℕ → ℕ → ℕ → List ℕ → Bool
utf8_loop zero lo hi [] = true
utf8_loop (suc n) lo hi [] = false
utf8_loop zero lo hi (b ∷ bytes) = elim (lead b) [
  | none ↦ false
  | some (n, lo', hi') ↦ utf8_loop n lo' hi' bytes
]
utf8_loop (suc n) lo hi (b ∷ bytes) = leb lo b && leb b hi && utf8_loop n 0x80 0xbf bytes

unfoldable pub from_utf8 : List ℕ → Bool
unfolding utf8_loop
from_utf8 bytes = utf8_loop 0 0x80 0xbf bytes
