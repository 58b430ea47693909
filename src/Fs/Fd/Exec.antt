-- ===== src/Fs/Fd/Exec.antt =====
-- `close_on_exec` closes the marked descriptors and no others.
use theory_os.Base.{
  ℕ, zero, suc, ◌+◌, ◌≤◌, ◌<◌, ◌≡◌, ◌≢◌, refl, ◌∙◌, Bool, true, false, ◌&&◌, none, ltb, leb,
  if◌then◌else◌, get_or, arith, length-set, Bool-cases, inl, inr, get_or-set_ne,
}
use mathlib.Core.Path.{subst}
use native.Mathlib.Decide.{ℕ_discrete}
use theory_os.Base.Slots.{entry, entry-set_self, entry-set_ne}
use theory_os.Fs.Fd.{FdTable, get, marked, sweep_one, sweep, close_on_exec}
use theory_os.Fs.Fd.Slots.{IsValid}

sweep_one-IsValid : (fd : ℕ) (t : FdTable) → IsValid t → IsValid (sweep_one fd t)
sweep_one-IsValid fd t v = ground (arith, length-set t.entries fd none, length-set t.fd_flags fd 0)

-- The round for descriptor `fd` leaves every other as it is.
sweep_one-ne :
    (fd j : ℕ) (t : FdTable)
    → fd ≢ j
    → (entry (sweep_one fd t).entries j ≡ entry t.entries j)
      × (get_or (sweep_one fd t).fd_flags j 0 ≡ get_or t.fd_flags j 0)
sweep_one-ne fd j t ne = elim (Bool-cases (marked t fd)) [
  | inl hit ↦ rw hit (entry-set_ne t.entries fd j none ne, get_or-set_ne t.fd_flags fd j 0 0 ne)
  | inr miss ↦ rw miss (refl, refl)
]

sweep_one_self :
    (fd : ℕ) (t : FdTable)
    → IsValid t
    → fd < 256
    → entry (sweep_one fd t).entries fd ≡ (if marked t fd then none else entry t.entries fd)
sweep_one_self fd t v lt = elim (Bool-cases (marked t fd)) [
  | inl hit ↦ rw hit (entry-set_self t.entries fd none (omega (arith, v.entries)))
  | inr miss ↦ rw miss refl
]

-- Whether the rounds of the loop from `fd` on reach descriptor `j`.
abbrev reaches : ℕ → ℕ → ℕ → Bool
reaches left fd j = leb fd j && ltb j (fd + left)

sweep_lem :
    (left fd j : ℕ) (t : FdTable)
    → IsValid t
    → fd + left ≤ 256
    → entry (sweep left fd t).entries j
      ≡ (if reaches left fd j && marked t j then none else entry t.entries j)
unfolding sweep
sweep_lem zero fd j t v le = ground arith
sweep_lem (suc left) fd j t v le = elim (ℕ_discrete fd j) [
  | yes same ↦
      let later : reaches left (fd + 1) j ≡ false = ground arith in
      let now : reaches (suc left) fd j ≡ true = ground arith in
      let at : entry (sweep_one fd t).entries j ≡ (if marked t j then none else entry t.entries j) =
        subst
          (λ k. entry (sweep_one fd t).entries k ≡ (if marked t k then none else entry t.entries k))
          same (sweep_one_self fd t v (omega arith)) in
      sweep_lem left (fd + 1) j (sweep_one fd t) (sweep_one-IsValid fd t v) (omega arith)
      ∙ rw (later, now) at
  | no ne ↦
      let (kept, kept_flags) = sweep_one-ne fd j t ne in
      let both : reaches left (fd + 1) j ≡ reaches (suc left) fd j = ground arith in
      sweep_lem left (fd + 1) j (sweep_one fd t) (sweep_one-IsValid fd t v) (omega arith)
      ∙ rw (both, kept, kept_flags)
]

-- After `close_on_exec` a descriptor from 3 up to 255 that is marked FD_CLOEXEC is closed, and every
-- other descriptor is as it was.
pub close_on_exec_lem :
    (j : ℕ) (t : FdTable)
    → IsValid t
    → get (close_on_exec t) j ≡ (if (leb 3 j && ltb j 256) && marked t j then none else get t j)
unfolding get close_on_exec
close_on_exec_lem j t v = sweep_lem 253 3 j t v (omega arith)
