-- ===== src/Sched/Rbtree.antt =====
-- kernel/src/sched/rbtree.rs: the red-black tree of the run queue, in an array of nodes that are
-- linked by number. `Store` has the array and its two primitive accesses, `Insert` and `Delete`
-- the operations; `Minimum` is about the search for the least entry, `Rotation` and
-- `Inorder` about what a rotation does to the links and to the order.
pub mod Store
pub mod Insert
pub mod Delete
pub mod Minimum
pub mod Inorder
pub mod Rotation
pub mod Tests
