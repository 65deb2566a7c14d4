-- ===== src/Lib.antt =====
-- The Bleed kernel, a 64-bit x86 kernel in C: models of its core services, and what they promise.
--
-- The parts, and the files that model them (paths from the repository's root):
--   Pmm: kernel/src/mm/pmm.c, the physical frame allocator. A region of frames is a bitmap
--     (Pmm/Bitmap) with a count and a search cursor (Pmm/Entry: paging_mark_entry_unavailable,
--     paging_mark_entry_available, paging_bitmap_find_free); Pmm/Search is the loop
--     paging_bitmap_find_free_in_range, with Pmm/Search/Scan as its bit-by-bit reference; Pmm/Frames
--     holds pmm_init, pmm_try_alloc_pages, pmm_available_pages and pmm_free_pages on the list of
--     regions. Pmm/Entry/*, Pmm/Search/* and Pmm/Frames/* prove.
--   Pipe: kernel/src/fs/pipe.c. Pipe/State is `pipe_state_t`; Pipe/Read and Pipe/Write are
--     pipe_read_inode and pipe_write_inode, Pipe/Control the rest. Pipe/Ring, Pipe/Read/Fifo,
--     Pipe/Write/Fifo, Pipe/Turns, Pipe/Trace, Pipe/Waits and Pipe/Polling prove.
--   Eventfd: the counters of kernel/src/fs/eventfd.c. Eventfd/Calls models the calls, with the block_on
--     that timers share (Common/Rounds); Eventfd/Counter proves.
--   Timerfd: the timers of kernel/src/fs/eventfd.c. Timerfd/Calls holds the timers, the list of armed
--     ones, the tick, read and poll; Timerfd/Settings the calls that set, ask for and create a timer,
--     and the conversions of kernel/src/sched/clock.c, Timerfd/Clocks its clocks. Timerfd/Expiry, /Armed
--     and /Rearmed prove.
--   Futex: kernel/src/sched/futex.c. Futex/Waiters holds keys, waiters, buckets and wake_key;
--     Futex/Calls the calls. Futex/Selection and Futex/Handshake prove.
--   Klibc: klibc/string.c. Klibc/Memory holds memcpy, memmove and memset with their loops, on memory as
--     the function from addresses to bytes; Klibc/Strings the lengths, comparisons and copies,
--     Klibc/Tokens the joining, copying and cutting up of strings. Klibc/Move,
--     /Overlap, /Backward, /Fill and /Compare prove.
--   Reassembly: kernel/src/net/ipv4_frag.c. Reassembly/Slots holds the slots, ipv4_reassemble and
--     ipv4_frag_tick; the bytes of a packet are the function of their offset. Reassembly/Gap proves.
--   Kalloc: kernel/src/mm/kalloc.c, kmalloc and kfree. `Slabs` has the size classes, the slab header and
--     the lists, `Calls` kmalloc and kfree. A header is what the magic number at the start of a page
--     tells; a list of partial slabs is a list of their pages, and a list of free objects one of
--     addresses. What vmm_alloc_pages gives is an argument, as is what others do to the heap while
--     kmalloc is outside the lock of the class. kmalloc starts from what kalloc_init leaves: its test of
--     kalloc_init_done, and two first calls at once, are left out. `Sound` says when a heap is sound and
--     which pointers are out; `Local` and `Lists` reduce it to the page and the class that a call
--     touches.
--   Sched: kernel/src/sched/scheduler.c, which task runs next. `Queue` has the tasks, the two arrays of
--     run queues, rq_enqueue and rq_dequeue, `Calls` ready_pop and the calls that change what a task
--     waits for, `Switch` sched_next_context, sched_return and the interrupts that lead there. The
--     processor that runs a call is the field `cpu`. What the other processors do while
--     sched_next_context waits for a task to leave one of them is an argument, a function for the time
--     between one look and the next. `Sound`, `Kept`, `Moves`, `Swap`, `Pop`, `Wake`, `Woken`, `Line`,
--     `Outcomes`, `Resume`, `Interrupts` and `Reach` prove.
--   Wait: kernel/src/sched/sched_wait.c, which wakes tasks through Sched. `Calls` has the wait queues, the
--     list of deadlines and sched_event_tick; `Deadlines` and `Tick` prove.
--   Common: Boolean tests, lists under native indices, counts, stores, machine words, error numbers.
--
-- How the parts meet: every call that may block runs in rounds. A round runs under a spinlock, so that
-- it is one step of the model; between two rounds other tasks may do anything, and enter as an
-- argument (`Pause`), so that each theorem holds for every interleaving that its hypotheses allow.
-- A count or 0 that a C function returns is `ok n`, and `-EINVAL` is `err einval`.
--
-- Bounds and fuel: sizes, counts and addresses are natural numbers. Where a sum or difference of the
-- code may leave 64 bits its wrap-around is written out (`add64`, `sub64`); indices into a bitmap or
-- a buffer are below 2 ^ 52, so that theirs cannot wrap. The frame search runs on fuel `end - begin`
-- and takes a bit at least each round; the inner loops of a pipe's read and write run on fuel
-- `size + 1` and end after one pass. ready_pop takes a task off a queue each round, and sched_event_tick one off
-- the list of deadlines, so that one more than there are tasks is enough. Pmm/Search/Scan, Pipe/*/Fifo,
-- Sched/Pop and Wait/Deadlines are about this.
--
-- Representation: the byte bitmap of a region is the list of its bits; linked lists are lists; memcpy
-- of a buffer is a copy byte by byte. The wait queue of a pipe is the number of times it was woken.
--
-- Not modelled: logging, device registers, assembly, drivers and vendored code, which are input and output
-- or not this repository's; page tables and address spaces, the virtual file system and the file systems
-- on disk, the network stack beyond reassembly, signals, the creation of tasks and the entry points of the
-- system calls, each a part of its own; and of the scheduler the switch of registers and page tables.
pub mod Common
pub mod Eventfd
pub mod Futex
pub mod Kalloc
pub mod Klibc
pub mod Pipe
pub mod Pmm
pub mod Reassembly
pub mod Sched
pub mod Timerfd
pub mod Wait
