-- ===== src/Lib.antt =====
-- koowaldah: a small kernel for i386 in C.
-- Parts and files. Links of intrusive lists are at the bottom; page allocation, thread queues, the
-- scheduler and the timers stand on them, in this order; the C library is used by all.
--   include/klist0.h: Klist (the functions, on a heap of nodes), Klist/Ring (well-formed lists),
--     Klist/Laws (the functions as list operations), Klist/Frame (what they leave alone).
--   kernel/page_alloc.c, include/page_alloc.h: PageAlloc. `alloc` is __alloc_pages, `free` is
--     free_pages, `init` is mem_zone_init; in PageAlloc/Addr page_to_addr, addr_to_page, get_pages and
--     put_pages. A level of a zone is the list of the opening pages of its free piles. Order, Cover and
--     Inv carry the invariant; Alloc, Buddy, Free and Init prove it of each operation.
--   include/thread.h, kernel/thread_queue.c, include/i386/spinlock.h: ThreadQueue. `insert_head_held`
--     is __tq_insert_head, `insert_head` is tq_insert_head, and so on. Holds is the contract of a
--     queue, Basic proves the functions that need the lock, Locked those that take it, Transfer the
--     moves from queue to queue.
--   kernel/sched0.c: Sched, with Rotate, Turn (sched0_yield, sched0_tick) and Move (sched0_enqueue,
--     sched0_dequeue).
--   kernel/timecore.c: Timer, with Place (the search of tsleep), Sleep (tsleep up to the switch)
--     and Fire (update_timers).
--   include/mutex.h: Mutex, with Exclusion (its states as a step relation) and Queueing.
--   kernel/lib/bitmap.c, include/bitmap.h: Bitmap, with Bits and Low (one word), Access, Seek,
--     Every (the tests of all bits) and Ranges (bitmap_zero, bitmap_fill).
--   kernel/slice.c: Slice, over pages with a bitmap each. Shape is the layout of a page, Pages the
--     invariant of a pool, Alloc and New slice_alloc, Search and Release slice_free, Clients and Disjoint
--     any order of both, Shrink slice_pool_shrink, Leak slice_pool_recycle.
--   arch/i386/paging.c, include/i386/pages.h: Paging, on words of memory. Translate is what the processor
--     does with a directory, Map map_page and unmap_page, Tables and Root init_rootmap, Copy, Clone and Cloned
--     clone_map.
--   kernel/fs/cpio.c: Cpio, the reader of the archive of the root file system, with Layout (an archive in
--     memory), Fields (the fields of a header) and Archive (cpio_read).
--   drivers/keyboard/pc-kbd.c: Keyboard, the ring of scan codes, with Queue (the keys it stands for),
--     Segment, Push, Interrupt (pckbd_intr) and Pull (pckbd_read).
--   kernel/fs/file.c: Files, the descriptors of a thread, with Descriptors.
--   kernel/lib/klib.c, include/lib.h: Klib, with Memory, Strings, Strtoul
--     (and Strtoul/Decimal, its numerals) and Log2.
--   kernel/lib/vsnprintf.c: Klib/Print (sprint_int_signed, sprint_int_unsigned), Print/Format
--     (vsnprintf, on a record of its variables); Numeral, ReadBack, Hex and Plain prove.
--   kernel/lib/kqueue.c: Kqueue, with Contents (the bytes of a queue).
--   kernel/brk.c: Heap (sbrk and brk), with Break (calls in a row).
--   kernel/galloc.c: Galloc, over the operations of slice pools and pages as a record (`Backing`), with
--     Size (the pool or pile of a size) and Release (gfree).
--   konfig/, the configuration tool that runs on the host: Konfig (konfig/koption.h, the lookups of
--     konfig/konfigure.c, konfig/ktree.c), with Konfig/Init (init), Out (konfig/kout.c), Input
--     (read_konfig, main) and Ask (konfig/kuser.c). Text is what it uses of the C library. Lookup,
--     Conflict, Settled, Lines, RoundTrip, ReadBack, Replies, Answers, Kin and Again (a second run) prove. A C
--     string is the list of its bytes, a file the list of what is written to it.
--   Base holds the shared helpers; Tests the runs at concrete inputs.
-- Conventions. Numbers are natural numbers; words of 32 bits wrap round where the source's can
-- (`% 2 ^ 32`, `sub32`). A `bug_on` that fires and a loop that runs out of fuel give `none`. The
-- machine has one processor, and interrupts are off inside the critical sections, so each function is
-- one step; the locks are the checked counters of OPT_DEBUG_SPINLOCKS.
-- Fuel. free_pages has a round for each of the `max_order` levels, mem_zone_init one for each page,
-- and the theorems show that both end. The string functions need more fuel than the string is long,
-- the wake-up loop of update_timers more than the queue is; the theorems state it so. The digits of a
-- word are at most 32. A question of the configuration tool has fuel for its repetitions; more than there
-- are lines is enough.
-- Not modelled: port input and output, assembly but that of __virt2phys, the registers in a context
-- switch, and so far the file systems above the descriptors but for the archive. Of the configuration tool
-- what is printed on the terminal is left out. What read_konfig finds in the buffer of the getline that
-- fails behind the last line is an argument, and so is whether its write in front of the buffer faults.
-- usr/klibc and the zlib in it are copies of other projects' libraries.
pub mod Base
pub mod Klist
pub mod PageAlloc
pub mod Klib
pub mod ThreadQueue
pub mod Sched
pub mod Mutex
pub mod Timer
pub mod Bitmap
pub mod Files
pub mod Galloc
pub mod Konfig
pub mod Cpio
pub mod Heap
pub mod Keyboard
pub mod Kqueue
pub mod Paging
pub mod Slice
pub mod Tests
