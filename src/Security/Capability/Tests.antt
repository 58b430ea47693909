-- ===== src/Security/Capability/Tests.antt =====
-- Runs of kernel/src/security/capability.rs.
use theory_os.Base.{◌≡◌, refl, false, ◌+◌, ◌^◌}
use theory_os.Security.Capability.{Credentials, user, can_signal}

abbrev heir : Credentials
heir = record user { permitted = 2 ^ 5 + 2 ^ 21; inheritable = 2 ^ 21 }

stranger : can_signal (record user { uid = 1; euid = 1 }) user ≡ false
unfolding can_signal
stranger = refl
