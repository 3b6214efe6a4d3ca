-- ===== src/Lib.antt =====
-- Linux 0.11: models of the kernel's core, and what is proved of them.
--
-- The kernel schedules at most 64 tasks on one processor. The timer interrupt counts ticks, runs
-- the kernel's timers and takes time from the running task; `schedule()` wakes tasks whose alarm or
-- signals are due and chooses the next one; a task talks to another by signals and pipes. Below
-- lies physical memory, which the tasks share copy-on-write: frames are counted in `mem_map` and
-- mapped by page tables. Above lies the file system, on buffers of a block device.
--
-- Which file is about what:
--   Prelude   the names shared, lists with an update, signed integers, bits of machine words, and
--             how a function ends: with a value, in `panic` or in the end of the process
--   Task      `struct task_struct` and INIT_TASK (include/linux/sched.h), error numbers, signals
--   Sched     `schedule`, `sys_alarm`, `sys_nice` (kernel/sched.c): Sched.Pick for the scan for the
--             best task, Sched.Choice for the result, Sched.Waking for alarms and signals,
--             Sched.Slices for the time slices
--   Timer     `add_timer` and the timers in `do_timer` (kernel/sched.c)
--   Mm        `get_free_page`, `free_page`, `put_page`, `un_wp_page`, `do_wp_page`, `write_verify`,
--             `get_empty_page`, `mem_init` (mm/memory.c)
--   Pipe      `read_pipe`, `write_pipe` (fs/pipe.c), `get_pipe_inode` (fs/inode.c)
--   Cred      the calls that set ids, sessions, groups, break and file mask (kernel/sys.c)
--   Signal    `send_sig`, `kill_session`, `sys_kill` (kernel/exit.c), the signal masks
--             (kernel/signal.c)
--   Blk       `add_request`, `make_request`, `ll_rw_block`, `blk_dev_init`
--             (kernel/blk_drv/ll_rw_blk.c), IN_ORDER (kernel/blk_drv/blk.h)
--   Time      `kernel_mktime` (kernel/mktime.c)
--   Files     `dupfd`, `sys_dup2`, `sys_dup`, `sys_fcntl` (fs/fcntl.c), `sys_close` (fs/open.c)
--   Print     `number`, `skip_atoi` (kernel/vsprintf.c)
--   Wait      `sys_waitpid` (kernel/exit.c): Wait.Child for its scan, Wait.Result for what it returns
--   Console   `con_write` and all below it, `con_init` (kernel/chr_drv/console.c): Console.Edit and
--             Console.Control for the functions, Console.Valid, Console.Scroll, Console.Erase and
--             Console.Write for the proofs
--   Tty       the queues of terminals (include/linux/tty.h), `copy_to_cooked` (Tty.Cook), `tty_read`,
--             `tty_write` (Tty.Io) of kernel/chr_drv/tty_io.c, `tty_ioctl` (Tty.Ioctl) of
--             kernel/chr_drv/tty_ioctl.c
--   Sleep     `sleep_on`, `interruptible_sleep_on`, `wake_up_last` (kernel/sched.c), each cut in two
--             where it calls `schedule`: Sleep.Queue for the steps, Sleep.Covered for the chain of
--             sleepers, Sleep.Woken and Sleep.Lost for who is woken
--   Disk      `new_block`, `free_block` (fs/bitmap.c) and what `bread` shows of a block: Disk.Alloc,
--             Disk.Search and Disk.New for the zone that is taken
--   Bmap      `_bmap`, `get_diskBlock`, `create_diskBlock` (fs/inode.c), `truncate` (fs/truncate.c):
--             Bmap.Tree for the places of the blocks of a file; Bmap.Grow, Bmap.Entries, Bmap.Extend,
--             Bmap.Create, Bmap.Find, Bmap.Number and Bmap.Get for a new block; Bmap.Rank,
--             Bmap.Clear, Bmap.Tables, Bmap.Truncate and Bmap.Empty for `truncate`
--   FileDev   `file_read`, `file_write` (fs/file_dev.c) and the way there in `sys_read`
--             (fs/read_write.c): FileDev.Contents for the bytes of a file, FileDev.Read for reading,
--             FileDev.Fill, FileDev.Loop and FileDev.Write for writing, FileDev.Back for both
--   Exit      `release`, `tell_father`, `do_exit`, `sys_exit` (kernel/exit.c): Exit.Adopt for the
--             children that are left, Exit.Closed for its files, Exit.Told, Exit.Finish,
--             Exit.Dropped for whom it tells, Exit.Left and Exit.End for what is left of it
--   Fork      `find_empty_process` (kernel/fork.c): Fork.Pids and Fork.Fresh for the search for a pid
--   Mm.Tables `free_page_tables` and `copy_page_tables` (mm/memory.c): Mm.Tables.Users for the count
--             of users, in which the first four blocks, the kernel's map of all memory, do not count;
--             Mm.Tables.Freed, Mm.Tables.Release, Mm.Tables.Range for freeing an entry, a block, a
--             range; Mm.Tables.Shared, Mm.Tables.Copied, Mm.Tables.Added,
--             Mm.Tables.Fresh and Mm.Tables.Copying for copying one; Mm.Tables.Sharing,
--             Mm.Tables.Whole and Mm.Tables.CopyRange for copying a range
--
-- How the code corresponds to its model. A function of C is a function of the same name, from the
-- state that it reads to what it returns and the state that it leaves. `current` is a task handed
-- over, or the slot in the table of tasks; a pointer to a task is its slot and NULL is `none`. A
-- loop over an array is a recursion over a list, a loop with no such bound a recursion on fuel.
-- Interrupts are taken at the borders of the functions: where the code runs under `cli()`, or in
-- the kernel, which this system does not preempt, nothing comes between.
--
-- Fuel: `schedule()` has two rounds, and a round that finds no task with time left renews all
-- slices, so the second finds one. `read_pipe` and `write_pipe` move at least one byte each round,
-- so a round more than there are bytes is enough. The digits of a number have the number itself for
-- fuel, which each digit makes smaller. `file_read` and `file_write` too move at least one byte each
-- round, so as many rounds as bytes are enough. A reader of a terminal that finds a part of a line
-- spins, as the code does until an interrupt: the model says so and stops.
--
-- Numbers: fields that C declares unsigned are natural numbers, with their wrap-around where the
-- code can reach it; `int` and `long` are integers, which wrap where a sum of the code can leave the
-- 32 bits (the renewal of the time slices, the seconds of `kernel_mktime`), and are without overflow
-- elsewhere. Words that are used as sets of bits have 32 bits.
--
-- Not modelled: assembly, port I/O, the drivers and the keyboard; `printk`, which
-- changes no state that is modelled, and the cached translations that `invalidate` drops; the
-- wake-ups of waiting tasks in the pipes, where any order of the calls is allowed instead; timers
-- whose function adds a timer; the page that `release` frees and its call of `schedule`; the way on
-- of a wait that slept, the work of `iput`, and what a driver does with its requests, a parameter.
pub mod Prelude
pub mod Task
pub mod Sched
pub mod Timer
pub mod Mm
pub mod Pipe
pub mod Cred
pub mod Signal
pub mod Blk
pub mod Time
pub mod Files
pub mod Print
pub mod Wait
pub mod Console
pub mod Tty
pub mod Sleep
pub mod Fork
pub mod Disk
pub mod Bmap
pub mod FileDev
pub mod Exit
