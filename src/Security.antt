-- ===== src/Security.antt =====
-- Privileges and system call filters: `Capability` for kernel/src/security/capability.rs, `Seccomp`
-- for kernel/src/security/seccomp.rs.
pub mod Capability
pub mod Seccomp
