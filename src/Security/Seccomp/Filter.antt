-- ===== src/Security/Seccomp/Filter.antt =====
-- The filter that `set_filter` of kernel/src/security/seccomp.rs installs.
use theory_os.Base.{
  ℕ, ◌≤◌, ◌<◌, List, [], ◌∷◌, ◌++◌, none, some, length, take, drop, ltb, ◌==◌, ◌≡◌, refl, ap, arith,
  ◌⊎◌, inl, inr, Bool-cases,
}
use theory_os.Security.Seccomp.{SeccompFilter, set_filter, any, allows}

take-append : (xs ys : List ℕ) → take (length xs) (xs ++ ys) ≡ xs
take-append [] ys = refl
take-append (x ∷ xs) ys = ap (λ (zs : List ℕ). x ∷ zs) (take-append xs ys)

-- Whatever a process had before, a list of at most 64 calls lets through exactly the calls of the
-- list, and a longer one is refused.
pub allows-set_filter :
    (f : SeccompFilter) (syscalls : List ℕ)
    → ((length syscalls ≤ 64)
        × ((f' : SeccompFilter) × (set_filter f syscalls ≡ some f')
            × ((nr : ℕ) → allows f' nr ≡ any (λ n. n == nr) syscalls)))
      ⊎ ((64 < length syscalls) × (set_filter f syscalls ≡ none))
unfolding set_filter allows
allows-set_filter f syscalls = elim (Bool-cases (ltb 64 (length syscalls))) [
  | inl long ↦ inr (ground arith, rw long refl)
  | inr short ↦ inl (
    ground arith,
    (
      record f {
        mode = 2;
        allowed = syscalls ++ drop (length syscalls) f.allowed;
        allowed_count = length syscalls;
      },
      rw short refl,
      λ nr.
          ap (λ (zs : List ℕ). any (λ n. n == nr) zs)
            (take-append syscalls (drop (length syscalls) f.allowed)),
    ),
  )
]
