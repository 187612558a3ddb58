-- ===== src/Lib.antt =====
-- The process scheduler of an xv6 kernel with a multilevel feedback queue (README.md, srcs/).
--
-- The kernel keeps 64 processes in `ptable` and four doubly linked queues of the RUNNABLE ones, level
-- 0 first. scheduler() takes the head of the first queue that is not empty; a timer interrupt counts
-- ticks for every process, checks the allotment and the time quantum of the one that runs, promotes
-- those that waited too long, and makes the CPU give the process up. fork, exit, wait, sleep, wakeup,
-- kill and set_proc_info change the same table under `ptable.lock`. Beside the scheduler stand spin
-- locks, the page allocator and page tables, pipes, the file system over its log, the layer of the
-- system calls, and the user programs, of which the parser of the shell and the matcher of grep are
-- modelled.
--
-- Files:
--   Base            Booleans on numbers, lists, and 32-bit words as their bit patterns
--   Sched           srcs/proc.h: struct proc, the queues, ptable, the CPUs' current processes
--   Sched/Queue     srcs/proc.c: init_qeueus (here init_queues), add_to_queue (add_to_queue, link_in,
--                   enter, insert_scan), remove_from_queue (is_unlinked, unlink), get_next_proc
--   Sched/Mlfq      srcs/proc.c: update_all_proc_timers, check_time_quantum, demote_process,
--                   promote_process, check_aging
--   Sched/Process   srcs/proc.c: allocproc, userinit, fork, exit, wait, scheduler, sched, yield,
--                   sleep, wakeup1, kill, sys_set_proc_info
--   Sched/Trap      srcs/trap.c: the timer case of trap() and its way out
--   Sched/Queue/*   pointers against lists: segments, insertion, removal, order
--   Sched/Inv/*     the invariant of the table, and each operation against it
--   Sched/System    the calls as steps, the tables that they reach from boot, and their safety
--   Sched/Policy    consequences for the order in which processes run
--   Sched/Tests     runs from boot, and the theorems at the tables that they reach
--   Pipe            srcs/pipe.c: the ring of a pipe, pipewrite, piperead, pipeclose; Pipe/Counters the
--                   arithmetic of the two counters, Pipe/Fifo the ring against a list of bytes
--   Page            srcs/kalloc.c: kfree, kalloc; Page/Free the free list against a list of pages
--   Seek            srcs/sys_lseek.c: the call lseek; Seek/Seeks when it succeeds and when it fails
--   Log             srcs/log.c: the log and its header, commit, recover_from_log, begin_op, end_op,
--                   log_write; Log/Install the loops, Log/Recovery the start, Log/Crash a stop within
--                   a commit, Log/Admission the space that begin_op reserves
--   Fs              srcs/fs.c: balloc, bfree, bmap; Fs/Bits and Fs/Alloc the map of free blocks,
--                   Fs/Words the words of a block, Fs/Slots and Fs/Map the blocks of an inode
--   Fs/Trunc        srcs/fs.c: itrunc; Fs/Trunc/Frees the frees one by one, Fs/Trunc/Whole the call
--   Fs/Io           srcs/fs.c: readi, writei; Fs/Io/Content the bytes of a file, Fs/Io/Free the free
--                   blocks, Fs/Io/Loop, Fs/Io/Write and Fs/Io/Read the two calls
--   Ftable          srcs/file.c: filealloc, filedup, fileclose; Ftable/Refs the counts against the
--                   references that are held
--   FileIo          srcs/file.c: fileread and filewrite over Fs/Io; FileIo/Chunks the calls of writei
--                   together, FileIo/RoundTrip a fileread behind a filewrite
--   Lock            srcs/spinlock.c: acquire, release, holding, pushcli, popcli; Lock/Steps CPUs that
--                   interleave, Lock/Guard one lock and its CPUs, Lock/Runs the calls one by one,
--                   Lock/Moves and Lock/Invariant every machine that is reached, Lock/Exclusion and
--                   Lock/Handover what a lock promises
--   Vm              srcs/vm.c: walkpgdir, mappages; Vm/Bits the entries' bits, Vm/Tables and Vm/NewTable
--                   the tables as pages that are all different, Vm/Walk walkpgdir, Vm/Rounds and
--                   Vm/Maps mappages
--   Syscall         srcs/syscall.c: fetchint, fetchstr, argint, argptr, argstr, syscall; Syscall/Args the
--                   arguments, Syscall/Dispatch the numbers of srcs/syscall.h
--   Shell           srcs/sh.c: gettoken, peek and the parser; Shell/Bounds and Shell/Ends its end,
--                   Shell/Print commands as text, Shell/Fuel, Shell/Tokens, Shell/Arguments,
--                   Shell/Levels and Shell/Reads what the parser makes of that text
--   Grep            srcs/grep.c: match, matchhere, matchstar; Grep/Items and Grep/Language the texts
--                   of a pattern
--   Str             srcs/string.c: memmove, memcmp, safestrcpy; Str/Blocks and Str/Copy against blocks
--
-- A process is the index of its slot, and a null pointer is `none`. The fields next and prev stand in
-- maps beside the queue ends. An int or uint is its 32-bit pattern; a signed comparison is `slt` or
-- `sle`. A call returns `ok`, a `panic`, or `fault` for an access out of bounds or through null. A
-- loop over the table is recursion on the 64 slots. A loop over a queue has fuel for 65 rounds, one
-- more than there are processes, and ends with `out_of_fuel` where this is not enough, which the
-- theorems exclude: a queue holds each process at most once.
--
-- The CPUs interleave as a sequence of calls, each one step. fork and the timer interrupt let go of the
-- lock on their way: they are steps, and so is each of their parts, so that other CPUs can come between
-- them (allocproc under the lock; its kalloc(); what fork does behind the copy of the memory; ticks; the
-- part of the interrupt under `ptable.lock`; its way out; and its last test, which a process makes when
-- it runs again). What kalloc(), setupkvm() and copyuvm() return is an argument. A channel of sleep()
-- is told apart by the object at its address. Not modelled: the trap frame, the context, the name, the
-- files and the directory of a process; switchuvm, swtch and the interrupt flag; growproc, forkret and
-- procdump; the system call and device cases of trap(); of the file system the inode cache,
-- directories, paths and devices; filestat; sleep locks; the user part of an address space; the
-- drivers; of the shell runcmd and nulterminate; the other user programs.
-- A call of pipewrite or piperead is cut at its sleeps: each part runs under one holding of the pipe's
-- lock, and what is left to write is part of the outcome; its wakeups act on the process table only and
-- are left out. The blocks of srcs/string.c do not run over the end of the address space.
-- In Log, a disk takes `power` writes and none behind them, so a stop of the machine is a choice of
-- `power`; every write is of a whole block. A block of Log is read as 32-bit words and one of Fs as
-- bytes. Fs works on the buffers that bread() gives, and a call of log_write() there only stands for
-- the change that it logs: its two panics, for a transaction that is too big or none, are part of Log
-- only. So the results on writes are those of filewrite(), whose chunks of 1536 bytes stay within what
-- begin_op() reserves. iupdate() is left out. A panic of both is `none` or `panics`. In Log, `lh.block`
-- is a map, of which only the entries below `lh.n` are read, 30 at most. In Fs, the sizes in the
-- superblock are taken to be below 2^31, so that no int wraps. balloc has as many rounds as there are
-- blocks, each passing 4096 of them; readi, writei and filewrite have a round more than there are bytes,
-- and `no_fuel` is excluded by their theorems. The operations of the log and the inode's lock around a
-- call of writei() in filewrite or readi() in fileread are left out.
-- In Lock a CPU is outside of a call, in the loop of acquire, behind it, or in release behind
-- `lk->cpu = 0`; the CPUs interleave at these places, and a write is seen by all at once. The call
-- stack in `pcs` is left out. Vm works on the words of the memory of Page; mappages has a round for
-- each page from its first to its last, around the end of the address space if need be. In Syscall the
-- memory of the process is a function from addresses to bytes, and what a call does is an argument of
-- syscall. A string of Shell or Grep is the list of its characters before the NUL, so the pointers q
-- and eq of a token are its text, and the NULs that nulterminate writes are not seen. Each loop of
-- Shell has a round more than there are characters, and so has the recursion of parseline; malloc()
-- there gives a command always.
pub mod Base
pub mod Sched
pub mod Pipe
pub mod Str
pub mod Page
pub mod Seek
pub mod Ftable
pub mod FileIo
pub mod Log
pub mod Fs
pub mod Vm
pub mod Lock
pub mod Syscall
pub mod Grep
pub mod Shell
