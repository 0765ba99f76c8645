-- ===== src/Lib.antt =====
-- A model of eedox, a small kernel for 32-bit x86, with proofs about it.
--
-- The kernel's containers carry the rest: a linked queue holds the tasks that wait for a semaphore
-- or a lock and the messages of a pipe, an ordered list the holes of the kernel heap, a bit set the
-- free page frames. The file system keeps inodes and their data on the sectors of a disk, and moves
-- a file that grows out of its place. Pipes join tasks, by descriptors and, in src/mq.c, by name.
-- Tasks take turns in a queue, and reach the rest by system calls; what is typed goes to a queue of
-- lines, and what is written to the cells of a terminal and to the display.
--
-- Paths are those of the repository. The parts and their files:
--   Memory.antt      memcpy, memset, memshift and strrev of src/util.c, over the byte at an address;
--                    bin_search (Memory/Search.antt)
--   Text.antt        strlen, strcpy, strcmp, tostr_u, tostr_x of src/util.c
--   Bitset.antt      src/bitset.c
--   Kqueue.antt      src/kqueue.c, over a heap with the element at each address
--   Ordlist.antt     src/ordlist.c
--   Heap.antt        src/kheap.c: the headers, the splits and merges; Heap/Watch.antt has
--                    src/heapwatch.c, Heap/Alloc.antt heap_alloc and heap_free. Heap/Blocks.antt is
--                    the list of blocks that stands for the heap
--   Semaphore.antt   ksemaphore_* of src/lock.c
--   Rwlock.antt      krwlock_* of src/lock.c; Rwlock/System.antt has the steps of its tasks
--   Pipe.antt        src/pipe.c
--   Vec.antt         src/vec.c
--   Descriptor.antt  src/descriptor.c, and fs_close of src/fs.c
--   Mq.antt          src/mq.c
--   Paging.antt      src/paging.c: frames and the copy of a page table (Paging/Clone.antt)
--   Llist.antt       user/llist.c, over the element at each address
--   UserHeap.antt    user/alloc.c: headers and the free list (UserHeap/Links.antt); UserHeap/Alloc.antt
--                    has the best fit and heap_alloc, UserHeap/Realloc.antt heap_realloc, and malloc
--                    and free of user/stdlib.c
--   Shell.antt       parse_input of user/sh.c
--   Kstring.antt     src/kstring.c, over the byte at each index
--   Pathbuf.antt     src/pathbuf.c: Pathbuf/Parse.antt and Pathbuf/Print.antt have the proofs about
--                    what is parsed, Pathbuf/Valid.antt which paths there are
--   Terminal.antt    src/terminal.c
--   Keyboard.antt    src/kb.c; Keyboard/Line.antt has the proof about a line
--   Task.antt        src/task.c: the queue (Task/Schedule.antt) and the table (Task/Table.antt)
--   Syscall.antt     src/syscall.c: what the calls share and those on tasks; Syscall/Io.antt has
--                    those on descriptors, Syscall/Waiting.antt and Syscall/Through.antt the proofs
--   Fs.antt          src/fs.c: the allocator of sectors (Fs/Disk.antt), the sectors of an operation
--                    (Fs/Bounds.antt), inodes and files (Fs/Inode.antt), the table of a directory
--                    (Fs/Children.antt) and its use (Fs/Directory.antt), the inodes in memory
--                    (Fs/Tree.antt), the walk along a path and fs_open (Fs/Open.antt, Fs/Walk.antt)
--   Base.antt        what these share; Tests.antt runs them on concrete inputs
--
-- A function of the source has its name here. What it changes is an argument and a result: the
-- memory, the heap, the disk, or the struct that it is called with. An uint32_t is a natural number,
-- with `u32` or `sub32` where it may wrap, and the count of a semaphore an integer with `int32`. A
-- loop that counts runs down a number of rounds; one that looks for the end of a text, of a number
-- or of a chain has fuel, and ends in `none` or `out_of_fuel` without it: more fuel than the text
-- is long is enough for strlen, strcpy and strcmp, more than the number for tostr_u, more than
-- there are characters for a text that grows, and one round more than the path has fields for the
-- walk. What another task does while a call sleeps is a step of its own: `sleeps` is a result, and
-- what follows the sleep is a function.
--
-- In memory a buffer does not run over the last address, and kmalloc returns a buffer with
-- arbitrary contents. A read or a write through NULL and a second free are faults, but for tasks
-- and inodes, of which what stands at NULL is an entry like another. The disk driver of src/ata.c
-- is a function from sectors to bytes. What inode_realloc does with the directory of the file is an
-- argument of Fs/Inode.antt, since inode_child_set calls inode_write again; Fs/Directory.antt has
-- the code's own, `relink`, of which Fs/Relink.antt proves that it leaves the sectors of the file,
-- and Fs/ChildSet.antt what is read back of a table.
--
-- Of the kernel heap the headers are described, each at its address, not the bytes that the users of
-- the blocks write, nor a header that overlaps another. `heap_check` has as many rounds as the heap
-- has bytes, and two more; each round steps over a header.
--
-- A frame is a number of the map of frames, with what stands in it; tables are given by their
-- addresses, and those that kmalloc_a returns by a sequence. On the heap of a program what follows the
-- blocks or the free list has fuel, and so has the loop over a command line: one round more than the
-- line has characters is enough.
--
-- Not modelled: exec and sbrk, partial_print and sprintf of src/util.c, the rest of the shell, the small
-- programs under user/ and realloc of user/stdlib.c; get_page and the copy of a page directory, the processor's
-- tables, interrupts and the disk driver, which are port input and output, assembly, and tables that
-- the processor reads; the start of the kernel; and the traces of src/trace.c.
pub mod Base
pub mod Bitset
pub mod Descriptor
pub mod Fs
pub mod Heap
pub mod Keyboard
pub mod Kqueue
pub mod Kstring
pub mod Llist
pub mod Memory
pub mod Mq
pub mod Ordlist
pub mod Paging
pub mod Pathbuf
pub mod Pipe
pub mod Rwlock
pub mod Semaphore
pub mod Shell
pub mod Syscall
pub mod Task
pub mod Terminal
pub mod Tests
pub mod Text
pub mod UserHeap
pub mod Vec
