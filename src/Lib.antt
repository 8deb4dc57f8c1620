-- ===== src/Lib.antt =====
-- Verification of the hojicha kernel and its C library.
--
-- The parts and the files that model them:
--   Bitmap       kernel/utils/bitmap.c, at the level of bytes and masks, with the cached bounds of
--                the clear bits. Bitmap/Byte has the facts on one byte, checked for every value.
--   Pmm          kernel/memory/pmm.c, the allocator of physical pages, a client of Bitmap: the boot
--                scan (Pmm/Scan, FreeLoop, Ready), and the early allocations (Pmm/Early).
--   Slab         kernel/memory/slab.c, the allocator of kernel objects, a client of Bitmap.
--   Hmalloc      libc/hmalloc/hmalloc.c, the heap of the kernel and of programs: a list of free blocks
--                (Hmalloc/Chain, FreeList, FreeOps), blocks that fill memory without a gap
--                (Hmalloc/Tiles), taking, merging and growing (Occupy, Merge, Grow), and hmalloc and
--                hfree as wholes (Serve, Release, Free, Laws, Tidy).
--   Elf          kernel/kernel/elf.c, a client of CString: reading and loading an executable, and the
--                first stack of a program, byte by byte (Elf/Words, Stack, Load, Start).
--   Vma          kernel/memory/vma.c, the areas of an address space: insertion, removal with
--                splitting, and the three searches for a free range.
--   Ringbuffer   kernel/utils/ringbuffer.c, a ring of `size + 1` slots with caller-supplied locks.
--   ProcQueue    kernel/mp/proc_queue.c on a heap of processes with explicit next pointers, and, in
--                ProcQueue/Sleep, the timer queue of kernel/mp/sleep.c, a client of these queues.
--   Sched        kernel/mp/scheduler.c with the helpers of kernel/mp/mp_utils.c: locks, postponed
--                switches, the choice of the next process and the timer tick; in Sched/Waiting the
--                wait queues, semaphores and mutexes of kernel/mp, which use it.
--   Wait         kernel/mp/wait.c, a client of Sched and ProcQueue: waitpid and the family tree.
--   Keyboard     kernel/drivers/keyboard.c, scan codes and the queue of key events, a client of
--                Ringbuffer (Keyboard/Events).
--   ControlParser  kernel/drivers/tty_control.c, the parser of terminal control sequences.
--   Format       libc/stdio/__vformat.c, the parsing of a conversion and the printing of numbers,
--                and in Format/Vformat the main loop and libc/stdlib/itoa.c, over any writer.
--   CString      libc/string and libc/ctype: comparison, search, tokens (a pointer into a string is
--                the rest of the string), and the functions that move bytes of a memory.
--   Scan         libc/stdio/sscanf.c and libc/stdlib/atoi.c, numbers read from text.
--   Common       the names that all share, list lemmas over native numbers and small tables.
--
-- Functions keep the names of the C functions without the prefix of their file (`bitmap_get` is
-- `Bitmap.get`, `vma_insert` is `Vma.insert`). Numbers are unsigned; 64-bit arithmetic that can wrap
-- has `% 2 ^ 64` written out. A C function that changes an object takes its state and returns the
-- new one. An output parameter with a Boolean result is an `Option`. A failing allocation is a
-- Boolean argument (`allocated`), so that both outcomes are covered.
--
-- Loops over lists and counters are structural recursion. Loops over next pointers take fuel, since
-- the heap alone does not rule out a cycle; the theorems show that as much fuel as the queue has
-- processes, or one more than the heap of hmalloc has blocks, is enough. The digit loop of
-- `format_unsigned` has 64 rounds, since a 64-bit number has no more digits in any base; the loop
-- over a format string has as many rounds as the string has characters, and the theorem on its
-- result shows that they suffice; reading the digits back gives the number.
--
-- A switch to another process sets who runs and is otherwise left out: every process that is switched
-- to stands behind the same call and goes on with the same code. `Kernel.faulted` records a read
-- through NULL.
--
-- The pages that hmalloc asks for are an argument that fails or maps them where they are asked for,
-- which is what its two builds rely on in `vmm_map` and `sbrk`.
--
-- Not modelled: spin locks, the masking of interrupts outside the scheduler, registers, logging,
-- and the mapping of pages into the page tables. The doubly linked list of areas is the list of its
-- nodes in order. Where the code dereferences a pointer that it has just tested, the model has the
-- object itself.
pub mod Bitmap
pub mod CString
pub mod Common
pub mod ControlParser
pub mod Elf
pub mod Format
pub mod Hmalloc
pub mod Keyboard
pub mod Pmm
pub mod ProcQueue
pub mod Ringbuffer
pub mod Scan
pub mod Sched
pub mod Slab
pub mod Vma
pub mod Wait
