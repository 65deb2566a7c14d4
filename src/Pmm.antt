-- ===== src/Pmm.antt =====
-- kernel/src/mm/pmm.c and kernel/include/mm/pmm.h: the physical frame allocator.
pub mod Bitmap
pub mod Search
pub mod Entry
pub mod Frames
mod Tests
