-- ===== src/Lib.antt =====
-- Theory OS: a model of the kernel's core in kernel/src, and what holds of it.
--
-- The parts and how they meet. The frame allocator (kernel/src/mm/phys) hands out physical frames
-- from a bitmap and from buddy lists; the areas of an address space (kernel/src/mm/vma.rs) say
-- which addresses are mapped. The scheduler (kernel/src/sched) keeps a run queue for each CPU: a
-- red-black tree of threads by virtual run time, fed by the weights of cfs.rs and by the thread
-- table of kernel/src/proc. Threads block in wait queues (kernel/src/ipc), on which pipes are
-- built; message queues are polled. Descriptors (kernel/src/fs) name open files and pipes. Signals
-- (kernel/src/signal) interrupt a process on its way back to user space. Capabilities and system
-- call filters (kernel/src/security) decide what a process may do. Frames of the network
-- (kernel/src/net) are built and parsed layer by layer.
--
-- Which file models which part:
-- - Base: lists and tables of optional entries by native numbers, Boolean tests, single bits of a
--   word under |, & and !.
-- - Mm/Bitmap: kernel/src/mm/phys/bitmap.rs. FrameBitmap is the list of words and the count;
--   `set_bit` is the private `set`; `candidate`, `jumps` and `probe` are a round of the loop of
--   `find_free_from`. Mm/Bitmap/Frames reads the words as a set of frames, Search is about
--   `find_free`, Count about `count_free`.
-- - Mm/Buddy: kernel/src/mm/phys/buddy.rs. The array of heads and the pool of blocks are lists;
--   `split` and `alloc_on` are the loops of `alloc`, `merge` that of `free`, `walk` that of
--   `take_buddy`, `fit_order` and `add_blocks` those of `add_region`.
-- - Mm/Frame: kernel/src/mm/phys/frame.rs. The boot memory map and the kernel's base are arguments
--   of `new`; `take_frame` and `take_block` are the two halves of `alloc_order`.
-- - Mm/Vma: kernel/src/mm/vma.rs. The list holds the occupied slots of the table; `sink` is the
--   inner loop of `sort_entries`.
-- - Mm/Elf: kernel/src/mm/elf/parse.rs and relocate.rs. A header is read from a list of bytes;
--   Elf/Segments has the loops over the program headers and the dynamic section, Elf/Shebang the
--   first line of scripts, Elf/Relocate the relocation tables.
-- - Sched/Rbtree: kernel/src/sched/rbtree.rs. The node array is a function below 1024; an
--   operation is a program on the tree that ends, panics at an index out of the array, or runs out
--   of fuel. Store has the accesses, Insert and Delete the operations, statement by statement.
-- - Sched/Cfs: kernel/src/sched/cfs.rs. Sched/Runqueue: kernel/src/sched/runqueue.rs, one queue
--   with the thread table, and two for stealing; Sched/Runqueues has the array of queues behind
--   its lock.
-- - Ipc/Wait: kernel/src/ipc/wait.rs. Ipc/Pipe: kernel/src/ipc/pipe.rs; the closures under the
--   lock are `write_status`, `read_status`, `write_wait` and `read_wait`, and Pipe/Table has the
--   table of pipes, its lock and the blocking loops. Ipc/Mq: kernel/src/ipc/mq.rs.
-- - Fs/Fd: kernel/src/fs/fd.rs, with the open file of kernel/src/fs/vfs/file.rs.
-- - Signal/Types: kernel/src/signal/types.rs. Signal/Delivery: kernel/src/signal/delivery.rs, and
--   the mask of sys_rt_sigprocmask in kernel/src/syscall/handlers/signal.rs. User memory holds
--   whole signal frames at addresses.
-- - Net/Addr, Buffer, Eth, Arp, Ipv4, Icmp and Udp: the files of these names in kernel/src/net;
--   Net/Checksum is `checksum` of ipv4.rs. Net/Tcp: kernel/src/net/tcp, with cubic.rs in Tcp/Cubic,
--   building and processing of segments in Tcp/Segments, and the table of connections in Tcp/Calls.
--   A buffer of the code is a list of bytes into which the writes go at their indices; frames,
--   packets and segments handed on to be sent are part of an operation's result.
-- - Fs/Vfs: inode.rs and superblock.rs of kernel/src/fs/vfs, with a file system as a record of the
--   operations that resolution calls; Mount, Dentry and Path are mount.rs, dentry.rs and path.rs,
--   Path/Parent is `lookup_parent`. `step` is a round of the loop of `resolve_at`; Path/Plain
--   resolves without a cache.
-- - Fs/Tmpfs: kernel/src/fs/tmpfs/mod.rs, with the names of a directory in Names and the test of
--   `from_utf8` in Utf8; `file_system` is what path resolution sees of it.
-- - Sync/Mutex: kernel/src/sync/mutex.rs. `step` is the next atomic action of a thread in `lock` or
--   `unlock`, `run` any order of such actions.
-- - Syscall/Uaccess: kernel/src/syscall/uaccess.rs with the user addresses of mm/layout.rs.
-- - Ipc/Futex and Ipc/Fifo: kernel/src/ipc/futex.rs and fifo.rs. The tables of pipes and futexes and
--   the queues of Net/Udp have their spin lock in the state: a call that asks for it while it is
--   taken is `locked_out`, `spinning` or none, and a thread that sleeps keeps it.
-- - Security/Capability and Security/Seccomp: kernel/src/security/capability.rs and seccomp.rs.
-- Each folder's Tests has runs of the code and the instances of the theorems.
--
-- Numbers are natural numbers. Machine words keep their bounds where the code computes with them:
-- saturation and wrap-around are written out, a subtraction that the code guards is the one that
-- stops at 0. Bit operations are those of 64-bit words; `!a` is the complement in the word.
--
-- Fuel. `wake_all` gets a round more than there are entries, each of which takes one. The loops of
-- the tree get 1025 rounds: a path in a tree of at most 1024 nodes is not longer, and a run that
-- needs more is told apart as diverged. The loops of the buddy allocator are bounded by the orders,
-- by the frames of a region (each round takes at least one), and by the blocks of the pool, of which
-- a list without a cycle visits each at most once; the search for a gap by the distance to its
-- limit. The blocking loops of pipes get the list of what the other threads do in each round while
-- the lock is free, those of futexes the list of the words found after each sleep. Path resolution
-- goes as many links deep as it has fuel. The loop over the dynamic section of a file gets a round
-- for every 16 bytes of the file and one more.
--
-- Not modelled: assembly, descriptor tables, page tables and device registers; ACPI and boot; the
-- drivers, the disk file systems, the desktop; spin locks other than those of the run queues, pipes,
-- futexes and UDP queues, of which a critical section is one step. The name and address protocols,
-- the pages of http.rs and the remaining system calls have no module here.
pub mod Base
pub mod Mm
pub mod Sched
pub mod Ipc
pub mod Fs
pub mod Signal
pub mod Security
pub mod Sync
pub mod Syscall
pub mod Net
