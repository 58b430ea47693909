-- ===== src/Mm.antt =====
-- The memory of kernel/src/mm: physical frames in kernel/src/mm/phys, with `Bitmap` for bitmap.rs,
-- `Buddy` for buddy.rs and `Frame` for frame.rs, the areas of an address space, `Vma` for vma.rs, and
-- `Elf` for the files of kernel/src/mm/elf.
pub mod Checked
pub mod Bitmap
pub mod Buddy
pub mod Frame
pub mod Elf
pub mod Vma
