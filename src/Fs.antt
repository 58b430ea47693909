-- ===== src/Fs.antt =====
-- The file layer of kernel/src/fs.
pub mod Fd
pub mod Tmpfs
pub mod Vfs
