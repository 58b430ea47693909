-- ===== src/Security/Seccomp.antt =====
-- kernel/src/security/seccomp.rs: which system calls a process may make.
pub mod Filter
pub mod Tests
use theory_os.Base.{
  ℕ, zero, suc, ◌+◌, Bool, true, false, ◌||◌, List, [], ◌∷◌, ◌++◌, Option, none, some, length, take,
  drop, replicate, ltb, ◌==◌, if◌then◌else◌,
}

abbrev pub allowlist_size : ℕ
allowlist_size = 64

abbrev pub mode_disabled : ℕ
mode_disabled = 0

abbrev pub mode_strict : ℕ
mode_strict = 1

abbrev pub mode_filter : ℕ
mode_filter = 2

pub record SeccompFilter : Type 0 where
  pub mode : ℕ
  pub allowed : List ℕ
  pub allowed_count : ℕ

abbrev pub disabled : SeccompFilter
disabled = record { mode = mode_disabled; allowed = replicate allowlist_size 0; allowed_count = 0 }

unfoldable pub set_strict : SeccompFilter → SeccompFilter
set_strict f = record f { mode = mode_strict; allowed_count = 0 }

-- None is the error.
unfoldable pub set_filter : SeccompFilter → List ℕ → Option SeccompFilter
set_filter f syscalls =
    if ltb allowlist_size (length syscalls)
    then none
    else some (record f {
      mode = mode_filter;
      allowed = syscalls ++ drop (length syscalls) f.allowed;
      allowed_count = length syscalls;
    })

abbrev pub any : (ℕ → Bool) → List ℕ → Bool
any test [] = false
any test (x ∷ xs) = test x || any test xs

-- `matches!(nr, SYS_READ | SYS_WRITE | SYS_EXIT | SYS_RT_SIGRETURN)`.
abbrev pub strict_call : ℕ → Bool
strict_call nr = (nr == 0) || (nr == 1) || (nr == 60) || (nr == 15)

unfoldable pub allows : SeccompFilter → ℕ → Bool
allows f nr =
    if f.mode == mode_disabled
    then true
    else if f.mode == mode_strict
    then strict_call nr
    else if f.mode == mode_filter
    then any (λ n. n == nr) (take f.allowed_count f.allowed)
    else false

-- `check_current`, `apply_strict` and `apply_filter`, on the filter of the current process, none
-- where there is no process.
abbrev pub check_current : Option SeccompFilter → ℕ → Bool
check_current none nr = true
check_current (some f) nr = allows f nr

abbrev pub apply_strict : Option SeccompFilter → Option SeccompFilter
apply_strict none = none
apply_strict (some f) = some (set_strict f)

abbrev pub apply_filter : Option SeccompFilter → List ℕ → Option SeccompFilter
apply_filter none syscalls = none
apply_filter (some f) syscalls = set_filter f syscalls
