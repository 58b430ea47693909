-- ===== src/Syscall.antt =====
-- kernel/src/syscall: system calls.
pub mod Uaccess
