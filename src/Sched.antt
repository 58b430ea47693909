-- ===== src/Sched.antt =====
-- The scheduler of kernel/src/sched.
pub mod Cfs
pub mod Rbtree
pub mod Runqueue
pub mod Runqueues
