-- ===== src/Security/Seccomp/Tests.antt =====
-- Runs of kernel/src/security/seccomp.rs.
use theory_os.Base.{◌≡◌, refl, false}
use theory_os.Security.Seccomp.{disabled, set_strict, allows}

strict_open : allows (set_strict disabled) 2 ≡ false
unfolding allows set_strict
strict_open = refl
