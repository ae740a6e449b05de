-- ===== src/Lib.antt =====
-- Verification of the core of ZohoOS, a 64-bit kernel in C: its memory allocators, its scheduler, its
-- locks, its page tables, its file system on an archive, its network stack, its formatted output, and its
-- routines on memory and strings.
--
-- Parts and files. A definition keeps the name of the C function or type that it translates.
-- Prelude, Prelude/*: Boolean tests, lists, maps as functions. Bits, Bits/Step, Bits/Fields: bits of
-- words and fields of bits.
-- Pmm: src/kernel/pmm.c, the allocator of 4 KiB physical frames. The static variables are the
-- record Pmm, with `depth` for `stack_ptr + 1`; each function of the file is a function on it.
-- Pmm/Bitmap has the bitmap, Pmm/Boot `pmm_init` over the memory map of
-- include/kernel/multiboot2.h; Pmm/Invariant, Pmm/Counts and Pmm/Boot/* have proofs.
-- Kmalloc: src/kernel/kmalloc.c, the kernel heap. `struct kmalloc_header` is the record Block, with
-- its address, and the chain of `next` pointers the list of the blocks. kmalloc_init takes frames
-- from Pmm. Kmalloc/Shape says when the blocks tile the heap; Fit, Merge, Alloc, Free, Undo and
-- History have the proofs about the walk, the merging loop, each call and histories of calls.
-- Task: src/kernel/task.c with include/kernel/task.h and include/kernel/cpu.h, tasks, run queues,
-- the scheduler and its timer, for any number of CPUs. Pointers to tasks are numbers, 0 is NULL,
-- and the tasks a store. Task/Choice and Task/Timer translate the placement of new tasks and the
-- timer tick; Queue, State, Outgoing, Front, Pull, Incoming, Schedule and Turns have the proofs, from
-- the queue of one CPU to `task_schedule` as a whole.
-- Bytes: src/kernel/string.c, copies, comparisons and lengths on memory, a function from addresses to
-- bytes; no range wraps around the address space. Bytes/Copy, Bytes/Fill and Bytes/Compare have the
-- proofs.
-- Lock: src/kernel/lock.c, the spin lock; each atomic instruction of a CPU is a step, and a run is the
-- list of the CPUs that take the steps. Lock/Exclusion and Lock/Progress have the proofs; Lock/Registry
-- has the locks by name and their counters.
-- Tar: src/kernel/tar.c, the archive on disk and its cache of one sector. The disk is a function from
-- sectors to bytes, and numbers of sectors that are alike in their low 28 bits, which src/kernel/ata.c
-- sends to the drive, name one sector. Tar/Cache says when the cache is coherent, Tar/Octal has the
-- proofs about sizes, Tar/Entries those about the two walks over headers, and Tar/Layout says where
-- headers and files stand and which file has a name.
-- Vfs: src/kernel/vfs.c, file descriptors on the archive. Vfs/Transfer has the two loops over sectors,
-- Vfs/Table the descriptors, Vfs/Io the reads and writes.
-- Vmm: src/kernel/vmm.c, page tables of four levels in frames that Pmm hands out; a table is known by
-- its address. Vmm/Lookup says which page the tables give an address, as the processor reads them,
-- and Vmm/Tree when they form a tree that the allocator backs; Ensure, Descend, Entries, Map, Huge,
-- Walk, Unmap, Translate and Create follow the functions of the file; Spaces has the clone and the
-- destruction of an address space.
-- Window: src/kernel/window.c, the event queue of each window and the list of windows by id.
-- Window/Events and Window/Pop have the proofs. Window/Dirty has the rectangles that wait to be drawn,
-- Window/Cover says which pixels a rectangle covers, and Window/Redraw has the proofs about the queue.
-- Mouse: src/kernel/mouse.c, the packets of the mouse.
-- Format: src/kernel/printf.c, `vsnprintf` on memory; Format/Reverse and Format/Digits have the proofs
-- about `itoa`, Format/Render those about the loop over a format.
-- Elf: src/kernel/elf.c, the loader of programs, on Vmm and on the bytes of memory, which are a store
-- of their own; Elf/Page says what the frame of a page holds.
-- Net: src/kernel/net.c, src/kernel/tcp.c and src/kernel/dhcp.c, whose static variables are one record.
-- Net/Packet has the fields of include/kernel/net.h, Checksum `net_checksum`, Arp the cache and the
-- tables of ports, Send the functions that send, Tcp and Dhcp the two files of these names, Receive
-- the handlers from `net_handle_packet` down. Exchange and Echo follow a question and its answer between
-- two machines; Known, Segments and Connect have the proofs about connections; Bounds says which
-- bytes the handling of a frame reads. A function pointer is a number, and Handlers says what its call
-- does.
--
-- Integers are natural numbers with their wrap-around written out; an `int` or `int32_t` is given by its
-- 32 bits, and by its value plus 2 ^ 31 where the code compares it (the mouse, the rectangles). A function that takes a lock for
-- its whole body is one step, and a history is a list of such steps; `task_schedule` is one step as
-- well, though other CPUs can take the locks of the queues in the middle of it.
--
-- Fuel: `pmm_init` has fuel for each loop over pages, where 2 ^ 52 + 1 rounds (the pages of the
-- address space, and the last test) are enough; the loop of `task_schedule` has fuel of which one
-- round is enough; the loops over strings have fuel for the bytes and the NUL; the walks over headers stop after 20002 of
-- them; the loops of vfs_read and vfs_write have fuel for the bytes and the last test; the loops of
-- vmm_map_range and vmm_unmap_range run on fuel that their callers choose.
--
-- The loop over program headers has fuel for the 2 ^ 16 - 1 that a file can have.
-- The digits of a number of 64 bits have fuel for 64 of them, and a format for its bytes and the NUL.
-- The carries of a checksum have fuel for two rounds, and the options of a DHCP reply for each of its
-- bytes. How often a call that waits for an ARP answer polls the card is the parameter Wait.
--
-- The disk operations of src/kernel/ata.c are taken to succeed, and so is kmalloc in the network stack,
-- where `e1000_send_packet` is the list of the frames sent. Loading CR3 and flushing the TLB are
-- instructions that no definition shows.
--
-- The bitmap of frames is a function on all frame numbers: writes behind the end of `frame_bitmap`, for
-- a kernel or a Multiboot block at 4 GiB or above, are not modelled.
--
-- Not modelled: how `pmm_init` finds one tag behind another by its size; the creation, the fork and
-- the reaping of tasks; the masking of interrupts; how windows are stacked, dragged, drawn and
-- released; kernel/core/elf.c, the second loader; all other files of src/kernel (drivers, ext2, system calls), boot code, assembly
-- and applications.
pub mod Prelude
pub mod Bits
pub mod Pmm
pub mod Kmalloc
pub mod Task
pub mod Bytes
pub mod Lock
pub mod Tar
pub mod Vfs
pub mod Vmm
pub mod Window
pub mod Mouse
pub mod Net
pub mod Format
pub mod Elf
