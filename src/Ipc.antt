-- ===== src/Ipc.antt =====
-- The interprocess communication of kernel/src/ipc.
pub mod Wait
pub mod Pipe
pub mod Mq
pub mod Fifo
pub mod Futex
