-- ===== src/Lib.antt =====
-- The Linux 0.01 kernel: its processes, its memory, its pipes and descriptors, its terminals.
--
-- The kernel keeps a table of at most 64 tasks. The clock interrupt (do_timer) counts the ticks
-- of the current task and calls schedule, which picks the next one; a task that waits sleeps on
-- a queue (sleep_on) until wake_up. System calls change the current task's entry, send signals
-- to other entries, or wait for a child's. A page fault goes to the memory manager, which keeps
-- a use count for each page frame (mem_map) and the page tables of every address space; fork
-- copies the tables of a space, exit and exec free them. Files are reached through the 20
-- descriptors of a task, which refer to a shared table of open files, and a pipe is an inode
-- with one page. Blocks of the disk are kept in the buffer cache, where getblk finds or makes
-- the buffer of a block. A terminal has three queues: keys wait in the read queue until
-- copy_to_cooked has put the lines into the secondary queue, and what is to be shown waits in
-- the write queue for con_write, which draws it.
--
-- Files and what they model:
--   Prelude          The numbers, tests, tables, bits and 32-bit words that all parts use. A C
--                    `int` or `long` is its bit pattern below 2 ^ 32, a panic is a `Result`.
--   Kernel/Task      include/linux/sched.h: the task structure, the states, the table.
--   Kernel/Sched     kernel/sched.c: schedule, do_timer, sys_pause, sys_alarm, sys_nice,
--                    sys_signal. `each_task` is the loop from LAST_TASK down that leaves out
--                    slot 0, `pick` the search for the largest counter, `recharge` the new slices.
--                    Loops, Pick, Schedule, Signals and Slices have the proofs.
--   Kernel/Sleep     kernel/sched.c: sleep_on and wake_up on one queue. A sleeping task keeps its
--                    local `tmp` in `frame`; `Step` interleaves the tasks, a step being the code
--                    from one call of schedule to the next. Liveness and Progress have the proofs.
--   Kernel/Sys       kernel/sys.c: sys_setgid, sys_setuid, sys_stime, sys_brk, sys_setsid,
--                    sys_umask, sys_setpgid.
--   Kernel/Kill      kernel/exit.c: send_sig, do_kill, sys_kill.
--   Kernel/Wait      kernel/exit.c: one pass of sys_waitpid over the table, and what follows the
--                    pause.
--   Kernel/Fork      kernel/fork.c: find_empty_process.
--   Kernel/Clock     kernel/mktime.c: kernel_mktime; Calendar has the Gregorian calendar.
--   Kernel/Print     kernel/vsprintf.c: skip_atoi and number.
--   Kernel/Requests  kernel/hd.c: the queue of add_request, a list from `this_request` on.
--   Mm/Frames        mm/memory.c: get_free_page, free_page, with the memory sizes of
--                    include/linux/config.h for its default configuration.
--   Mm/Pages         mm/memory.c: put_page, un_wp_page, do_wp_page, write_verify, do_no_page.
--                    Walk is the processor's own walk through the tables, the specification.
--   Mm/Spaces        mm/memory.c: free_page_tables, copy_page_tables.
--   Fs/Pipe          fs/pipe.c and the macros of include/linux/fs.h: read_pipe, write_pipe. A call
--                    runs until it returns or goes to sleep. Window is the view of the pipe's page
--                    as a sequence of bytes, Fifo has the proofs.
--   Fs/Files         fs/fcntl.c and sys_close of fs/open.c: dupfd, sys_dup, sys_dup2, sys_fcntl,
--                    sys_close. Counts relates the counts of open files to the descriptors.
--   Fs/Buffer        fs/buffer.c, but for buffer_init. The hash chains are sequences, the free list has
--                    its pointers. `Others` is what happens to the cache outside the file while a
--                    routine sleeps, in ll_rw_block and in sync_inodes. Unique has the invariant of
--                    the hash table, Fair what the others may do, Lookup and Quiet the proofs.
--   Fs/Names         fs/namei.c: match. Matches has its proof.
--   Fs/Reading       fs/file_dev.c: file_read. Bytes has the file as a sequence of bytes. bread and, within
--                    the largest file, bmap are arguments.
--   Fs/Volume        fs/bitmap.c: find_first_zero, new_block, free_block, and what new_inode (take_inode)
--                    and free_inode (drop_inode) do to the bitmap. A `Volume` is a mounted device
--                    between two sleeps: its bitmaps, the users of its buffers, and what bread gives
--                    for a block. Words, Zones, Alloc and Free have the proofs.
--   Fs/Inode         fs/inode.c: _bmap (map_block), bmap, create_block. Slots and Grow have the view of
--                    a file as a map of blocks, Zone, Entry and Create the proofs.
--   Fs/Truncate      fs/truncate.c. `free_through` is what free_ind and free_dind share. Owned has
--                    the sequences of blocks that are freed; Freer, Through and Whole have the proofs.
--   Fs/Table         fs/inode.c: the table of inodes, iput, read_inode, write_inode; fs/bitmap.c:
--                    free_inode. Calls has get_empty_inode, get_pipe_inode, iget, sync_inodes and
--                    new_inode. `Waiting` is what becomes of the table while a task waits, `held` the
--                    entries it refers to meanwhile. Unique has the invariant; Empty, Search, Get,
--                    Quiet and Last have the proofs.
--   Tty/Queue        include/linux/tty.h: the queues. Contents is their view as a sequence.
--   Tty/Screen       kernel/console.c: the screen up to csi_M, save_cur and restore_cur. The names
--                    csi_j to csi_p are the source's csi_J to csi_P, csi_m_lines is csi_M. Frame has
--                    the invariant, Grid the view as 25 lines of 80 cells.
--   Tty/Escape       kernel/console.c: the body of the loop of con_write, one character. `plain`,
--                    `escaped`, `bracket`, `parameter` and `final` are the cases 0 to 4 of `state`.
--   Tty/Console      kernel/tty_io.c: tty_intr and copy_to_cooked; kernel/console.c: respond and
--                    con_write. `cook` is the rest of the loop after the translation. Line is the line
--                    discipline on sequences of characters, Cooking, Drain and Output have the proofs.
--   Tty/Output       kernel/tty_io.c: the inner loop of tty_write. Posted has its proof.
--   */Tests          Runs at concrete inputs.
--
-- Bounds and fuel. The loops over tables are recursions on the number of slots. The loop of
-- schedule runs on two rounds of fuel: after one recharge every runnable task has time left, for
-- priorities and counters of the size that the kernel gives. The search for a free process
-- number runs on one try more than there are tasks, since each try that fails meets another
-- task's number. The loops of getblk run on one more round than the first free buffer is steps
-- away. The loop of
-- tty_write on two rounds for each character, file_read on as many as bytes are asked for, since
-- each round passes one at least. iget runs on one more round than the table has entries, and
-- one more for each time that it starts again. copy_to_cooked runs on at least as many rounds as there are
-- characters in its queue, at most 1023. con_write calls itself through respond; `console_write`
-- has the depth of these calls, and its theorem holds at every depth. The digits of a word take
-- at most 32 steps, its length in base 2. Words wrap round as the machine's do.
--
-- Not modelled: the assembly (boot, the entries of traps and interrupts, the keyboard), since it
-- is not C; code that is input and output on ports; and, so far, the interrupts of the disk,
-- tty_read and the sleeping of tty_write, the walk of paths, the writing of files,
-- the loading of programs and the copying of a process. Of fs/namei.c only match is modelled. In
-- Fs/Files `iput` is modelled by the list of its arguments. Lines that only print are left out. The
-- state of the coprocessor and the descriptor tables are left out of a task.
pub mod Prelude
pub mod Kernel
pub mod Mm
pub mod Fs
pub mod Tty
