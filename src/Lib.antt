-- ===== src/Lib.antt =====
-- A verification library for the tinykernel operating system: an x86 kernel with paging, threads,
-- user processes, a file system on an IDE disk and a shell.
--
-- The parts and how they interact. Every resource of the kernel (physical pages, virtual pages,
-- inodes, disk blocks, process ids) is handed out from a bitmap (lib/kernel/bitmap.c). Every queue
-- (the ready list, the list of all threads, the waiters of a semaphore, free memory blocks, open
-- inodes) is a doubly linked list (lib/kernel/list.c), which changes its links with interrupts off
-- (kernel/interrupt.c). The scheduler (thread/thread.c) moves threads between the ready list and the
-- processor, driven by the clock interrupt (device/timer.c) and by threads that block, wake or yield.
-- Semaphores and locks (thread/sync.c) put threads to sleep and wake them through it, and so do the
-- ring buffer of keyboard and pipes (device/ioqueue.c, shell/pipe.c). kernel/memory.c takes pages from
-- its bitmaps and enters them in the page tables. The file system keeps inodes and data blocks on a
-- disk (fs/inode.c, fs/file.c), gives them names in directories (fs/dir.c) and offers the system calls
-- on paths and descriptors (fs/fs.c).
--
-- What models which part:
--   Base        shared names, tests on numbers, lists, and `Outcome`: `panic` is a call that ends in
--               panic_spin of kernel/debug.c, by ASSERT or PANIC.
--   Interrupt   the interrupt flag and intr_enable, intr_disable, intr_set_status, intr_get_status.
--   Bitmap      lib/kernel/bitmap.c. `Bitmap.bits` is the memory from the pointer on, also behind the
--               end. Access has the single bits, Scan the search; its first two loops recur on the
--               bytes and bits that are left, its third on bit_left.
--   KernelList  lib/kernel/list.c on a heap of `next` and `prev` fields. Chain says what it means
--               that a list holds a sequence, Change and Contents what the operations do to it,
--               Search what the walks return. The walks run on fuel, one round for each element and
--               one more.
--   Thread      thread/thread.c and the handler of device/timer.c. A thread is the address of its
--               task_struct; the lists of threads are sequences, which KernelList justifies. A switch
--               ends with the thread that gets the processor restoring the interrupt status that it
--               had saved. Scheduling has `schedule`, Operations its callers, Turns what a series of
--               clock interrupts does, Descriptors the descriptor table and fd_local2global of
--               fs/fs.c, Pid the pool of process ids.
--   Sync        thread/sync.c over Thread: a system of threads that share one lock. Each function runs
--               to the next point at which another thread can get the processor; Invariant says what
--               ties the lock to the scheduler, Down, Up and Owner show that each function keeps it,
--               Steps has the runs, Exclusion what holds in all of them.
--   IoQueue     device/ioqueue.c. Contents has the bytes in the ring buffer as a list, Bytes the
--               functions against that list. A call that has to wait answers `none`.
--   Pipe        pipe_read and pipe_write of shell/pipe.c; Transfer follows bytes through a pipe. The
--               loops recur on the bytes to go.
--   Memory      kernel/memory.c: mem_pool_init in Layout, palloc and pfree in Pages, the page tables
--               in Paging, vaddr_get, vaddr_remove, malloc_page and mfree_page in Virtual, whose loops
--               recur on the pages to go. The tables are the words at the virtual addresses through
--               which the last directory entry shows them.
--   Screen      lib/kernel/print.c: Scrolling has its loops, Cursor the bounds, Text what stands on the
--               screen, Numbers the digits of put_int and console_write_dec, whose fuel is the 16
--               entries of their array.
--   Strings     lib/string.c on a memory of bytes. A loop that runs to the end of a string has fuel for
--               the characters and the 0 behind them. Contents has the copies, Compare strlen and
--               strcmp.
--   Keyboard    the interrupt handler of device/keyboard.c. The byte from the port is an argument; the
--               handler is split where it has found the character. Typing has what it types.
--   Stdio       itoa of lib/stdio.c, with fuel for 10 digits.
--   Fs          fs/inode.c, fs/file.c, fs/dir.c and fs/fs.c over a disk of sectors of bytes. Inodes has
--               fs/inode.c; Blocks the bitmaps of the disk and what inode_release gives back; Files
--               file_table, file_open and file_close; Creation file_create; Reading and Writing
--               file_read and file_write, whose blocks Growth adds; Dirs, Entries and Removal fs/dir.c;
--               Paths and Search the paths of fs/fs.c, Calls its calls on files and DirCalls those on
--               directories, Cwd sys_getcwd; Format formatting and mounting one partition.
--   Ide         device/ide.c: ide_read and ide_write with the registers that they write, busy_wait
--               (Waiting) and the interrupt handler. The controller is a parameter; Ata says what it
--               does, and how many sectors it has ready at one interrupt (`block`), Commands what the
--               registers name behind a command. Reading and Writing have the two calls, Partitions
--               partition_scan. The loops run on fuel for each sector and one round more,
--               partition_scan on fuel for extended partitions that lie in one another.
--   WaitExit    sys_wait and parts of sys_exit of userprog/wait_exit.c over Thread, with pid2thread of
--               thread/thread.c. sys_wait is one round of its loop and ends where thread_exit is called;
--               sys_exit is the adoption of the children and, as `leave`, what stands behind
--               realease_prog_resource. Children has the searches, Waiting and Exiting the two calls.
--   Shell       wash_path of shell/buildin_cmd.c, with fuel above the number of names in the path.
--
-- In Fs, a pointer that the code gets from sys_malloc is the next number of the stream `addresses`,
-- and a buffer the next member of `buffers`, which is `none` where the code sees NULL. What is
-- printed, the switches of pgdir around a call and the critical sections, which restore the interrupt
-- flag, are left out. A call of ide_read or ide_write is the test `on_disk` of its two ASSERTs, which
-- the caller asserts, and a transfer of the disk's bytes, so that a sector behind max_lba stops the
-- kernel and sums of sector numbers do not wrap; that the driver makes such a transfer is what Ide is
-- about. A stop is `panic`, and in a loop or a path function `none`; a read or a name that overruns
-- its array on the stack or the heap counts as a stop where the code has a fixed array: the names of
-- path_depth_cnt, wash_path and search_file, and the sector that file_write gives to inode_sync. So
-- does a NULL pointer that the code follows. The loops of file_read and file_write run on fuel above
-- the count of bytes, each round moving at least one; search_file and the path functions on fuel above
-- the length of the path; a loop of the code that never ends counts as a stop.
--
-- Numbers are natural numbers, with uint32_t and uint8_t sums reduced where they can wrap; -1 as an
-- error is `none`. A bitmap is taken to have fewer than 2 ^ 28 bytes, so that no bit index leaves the
-- range of an int.
--
-- Not modelled: assembly (boot, interrupt entry, switch_to), port input and output, what only prints,
-- the rest of kernel/memory.c (get_a_page, arenas), thread_exit of thread/thread.c and
-- realease_prog_resource of userprog/wait_exit.c, identify_disk and ide_init of device/ide.c, the rest
-- of userprog and of the shell.
pub mod Base
pub mod Interrupt
pub mod Bitmap
pub mod KernelList
pub mod Thread
pub mod Sync
pub mod IoQueue
pub mod Pipe
pub mod Memory
pub mod Screen
pub mod Strings
pub mod Keyboard
pub mod Stdio
pub mod Fs
pub mod Ide
pub mod WaitExit
pub mod Shell
