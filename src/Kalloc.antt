-- ===== src/Kalloc.antt =====
-- kernel/src/mm/kalloc.c: the kernel heap.
pub mod Slabs
pub mod Calls
pub mod Objects
pub mod Sound
pub mod Local
pub mod Lists
pub mod Live
pub mod Pop
pub mod Take
pub mod Freed
pub mod Free
pub mod Sizes
pub mod Kfree
pub mod Kmalloc
pub mod Reach
mod Tests
