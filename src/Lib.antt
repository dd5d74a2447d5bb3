-- ===== src/Lib.antt =====
-- A verification of the ucore kernel under code-with-comments/.
--
-- Base holds what the parts share: sequences over the native numbers, and `Outcome`, the result of
-- code that may stop in `assert` or `panic`. A theorem that code returns says also that no assertion
-- fails in it.
--
-- The scheduler (kern/schedule/) is in Sched. Sched/Defs holds `proc_struct`, `run_queue` and the
-- policy's interface `sched_class`; Sched/Core the functions of sched.c over any policy;
-- Sched/RoundRobin the policy of rr_sched.c; Sched/Timers the timer list of sched.c with `do_sleep` of
-- kern/process/proc.c. Sched/Laws says what the core asks of a policy, Sched/RoundRobin/Laws that round
-- robin gives it, and Sched/Conserve, Sched/Wakeup and Sched/Timers/Tick what the core does under those
-- laws. Sched/Timers/Deadlines and Sched/Timers/Spec read the list, whose entries count from the one
-- before, as absolute deadlines. The scheduler is one processor with interrupts off in each function;
-- a process is the number of its entry, and `current`, `idleproc` and the run queue are those numbers.
-- The switch of stacks and page tables in `proc_run` is not modelled, only its effect on `current`.
--
-- The file descriptor table (kern/fs/file.c) is in Fs. Fs/Defs holds `struct file` and the counters of
-- `struct inode`; Fs/Inode the counters' functions of kern/fs/vfs/inode.c with `inode_check`; Fs/Table
-- the functions on entries; Fs/Vfs `vfs_open` of kern/fs/vfs/vfsfile.c; Fs/File the functions on
-- descriptors. Fs/Counts says when the table and the counters are in step, and Fs/Lend the
-- same while a function holds an inode that no entry has; the other files hold the theorems. The
-- inode operations, which sfs and the devices supply, are parameters of the model; the tables lack some
-- of them, and `vop_op` of Fs/Inode is the assertion before each call that the table has it
-- (`__vop_op` of kern/fs/vfs/inode.h). What the theorems on opening and closing need of the tables is
-- `IsSupplied` in Fs/Lend. Path lookup is a parameter too, whose laws are in Fs/Open; a read or a write is one step, and the counters do not change in it.
-- A table has (4096 - 24) / 28 = 145 entries, what a page holds beside `files_struct`. Descriptors and
-- positions are the 32 bits of an `int`; the copied length wraps at 2 ^ 32 as `size_t` does. The
-- counters are natural numbers, since each function asserts that it is positive before it counts down.
--
-- The allocator of pages (kern/mm/default_pmm.c) is in Pmm. Pmm/Defs holds `struct Page`, `free_area`
-- and the manager's functions, with `free_list` as the sequence of its pages; Pmm/Blocks says when a
-- free area is sound; Pmm/Members, Pmm/Place and Pmm/Merge are about blocks and the loops over them;
-- Pmm/Alloc, Pmm/Free and Pmm/Init hold the theorems. A `struct Page *` is the index of its page;
-- `property` and `nr_free` wrap at 2 ^ 32. Pmm/Paging holds the page tables of kern/mm/pmm.c, pmm.h and
-- mmu.h: memory is words by frame and index, and the TLB what the processor remembers of the directory
-- in `cr3`. Pmm/Walk says what a directory means and when its tables are sound, Pmm/Entry is about
-- `get_pte`, Pmm/Release, Pmm/Rewrite and Pmm/Displace about the steps that `page_insert` and
-- `page_remove` share, and Pmm/Insert, Pmm/Remove and Pmm/Fresh hold the theorems. Swapping is off
-- (`swap_init_ok` is 0), as while the kernel sets up its own tables, so that `alloc_pages` asks once; the
-- entry of the directory that maps the tables themselves (`VPT`) is left out of the theorems.
--
-- The areas of an address space (kern/mm/vmm.c) are in Vmm: Vmm/Defs holds `vma_struct`, `mm_struct`
-- and the functions on them, Vmm/Areas says when the list is in order, Vmm/Find, Vmm/Insert, Vmm/Map
-- and Vmm/Check hold the theorems, and Vmm/Fault is `do_pgfault` over the page tables. `find_vma` takes
-- the address space as not NULL. `user_mem_check` has fuel for its rounds: each moves up at least one
-- byte, so more fuel than bytes is enough.
--
-- The bitmap of free blocks (kern/fs/sfs/bitmap.c) is Fs/Bitmap, with its theorems below it. A word is
-- given by its 32 bits, so that a mask of one bit is a place.
--
-- The simple file system (kern/fs/sfs/) is in Sfs. Sfs/Defs holds the structures of sfs.h and the
-- device below, which moves one block at a time or refuses and then leaves its blocks as they were;
-- Sfs/Io the transfers of sfs_io.c; Sfs/Bmap the blocks and the block map of sfs_inode.c; Sfs/File the
-- length of a file; Sfs/Rw `sfs_io_nolock`; Sfs/Dir directories and the small operations. Sfs/Block says
-- when the super block and the bitmap agree and is about taking and freeing blocks, Sfs/Map says what a
-- file's block map means and when it is sound, Sfs/Entry, Sfs/Grown and Sfs/Sub are about the block of
-- entries, Sfs/Get and Sfs/Shrunk about one block more or less; Sfs/Block/Alloc, Sfs/Load, Sfs/Truncate,
-- Sfs/File/Trunc, Sfs/File/Seek, Sfs/Rw/Write and Sfs/Rw/Read hold the theorems, the last two over Sfs/Rw/Run, which is
-- what reads and writes share. A function runs with the semaphores that
-- its callers take, so none is interrupted by another on the same inode; memory is bytes from a pointer
-- on, and the numbers of blocks keep their wrap at 2 ^ 32. A file is at most the 12 + 1024 blocks that an
-- inode can name, beyond which the code panics.
--
-- Process numbers (kern/process/proc.c) are in Proc: `get_pid` over the numbers of the process list, with
-- Proc/Pid, the hash table of processes, with Proc/Table, and the
-- lists of children, with Proc/Links. `get_pid` has fuel for the rounds of
-- `repeat`; each round comes nearer to a free number, so as many as there are numbers are enough.
--
-- Semaphores (kern/sync/) are in Sync: Sync/Defs holds the wait queue of wait.c and the functions of
-- sem.c over the scheduler's state, Sync/Up is about `up`. One semaphore is modelled at a time, and
-- `__down` in two halves, before and after another process runs.
--
-- The strings of libs/string.c are in Text: Text/Defs holds the functions, Text/Arch those of libs/x86.h
-- that stand in for strcpy, strcmp, memset, memmove and memcpy, instruction by instruction, Text/Move is
-- about moving bytes, Text/Scan about comparing strings. Text/Numbers holds `strtol`, `printnum` of
-- libs/printfmt.c, `hash32` and `rand`; Text/Digits and Text/RoundTrip are about printing and reading
-- back. `printnum` has fuel for its digits, 64 of which are enough for 64 bits. A string is the
-- sequence of the bytes from a pointer to the end of its object, and to read or write past that is a
-- panic.
--
-- Every other loop is structural recursion over the sequence that it walks, or over what it has left
-- to count. Not modelled are swapping, the kernel heap, path names,
-- the inodes of sfs in memory and its mounting, fork, exit and wait,
-- `vprintfmt` with its variable arguments, the drivers, and the user programs.
pub mod Base
pub mod Fs
pub mod Pmm
pub mod Proc
pub mod Sched
pub mod Sfs
pub mod Sync
pub mod Text
pub mod Vmm
