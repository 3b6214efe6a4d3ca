-- ===== src/Task.antt =====
-- The process descriptor, `struct task_struct` and INIT_TASK of include/linux/sched.h, with the
-- constants of signal.h and errno.h that the system calls use.
-- A pointer to a task is its slot in `task[]`, a pointer to a file or an inode its slot in
-- `file_table` or `inode_table`; `none` is NULL. `signal` and `blocked` are 32-bit patterns.
-- `long` fields that the kernel compares with negative numbers are integers. Not in the record:
-- sigaction, used_math, ldt and tss (the processor's context).
use linux.Prelude.{ℕ, ◌^◌, ◌-◌, List, Option, none, Bool, true, false, ℤ, pos, negsuc}
use linux.Prelude.{neg_ℤ, replicate, ◌==◌}

-- TASK_RUNNING .. TASK_STOPPED
pub data TaskState : Type 0 where
  running interruptible uninterruptible zombie stopped : TaskState

abbrev pub is_running : TaskState → Bool
is_running running = true
is_running _ = false

abbrev pub is_interruptible : TaskState → Bool
is_interruptible interruptible = true
is_interruptible _ = false

pub record Task : Type 0 where
  pub state : TaskState
  pub counter : ℤ
  pub priority : ℤ
  pub signal : ℕ
  pub blocked : ℕ
  pub exit_code : ℤ
  pub end_code : ℕ
  pub brk : ℕ
  pub start_stack : ℕ
  pub pid : ℤ
  pub father : ℤ
  pub pgrp : ℤ
  pub session : ℤ
  pub leader : ℤ
  pub uid : ℕ
  pub euid : ℕ
  pub suid : ℕ
  pub gid : ℕ
  pub egid : ℕ
  pub sgid : ℕ
  pub alarm : ℤ
  pub utime : ℤ
  pub stime : ℤ
  pub cutime : ℤ
  pub cstime : ℤ
  pub start_time : ℤ
  pub tty : ℤ
  pub umask : ℕ
  pub pwd : Option ℕ
  pub root : Option ℕ
  pub executable : Option ℕ
  pub close_on_exec : ℕ
  pub filp : List (Option ℕ)

-- `task[NR_TASKS]`; the first slot is the idle task's.
abbrev pub Table : Type 0
Table = List (Option Task)

abbrev pub nr_tasks : ℕ
nr_tasks = 64

abbrev pub nr_open : ℕ
nr_open = 20

abbrev pub hz : ℕ
hz = 100

-- INIT_TASK
abbrev pub init_task : Task
init_task = record {
  state = running;
  counter = pos 15;
  priority = pos 15;
  signal = 0;
  blocked = 0;
  exit_code = pos 0;
  end_code = 0;
  brk = 0;
  start_stack = 0;
  pid = pos 0;
  father = negsuc 0;
  pgrp = pos 0;
  session = pos 0;
  leader = pos 0;
  uid = 0;
  euid = 0;
  suid = 0;
  gid = 0;
  egid = 0;
  sgid = 0;
  alarm = pos 0;
  utime = pos 0;
  stime = pos 0;
  cutime = pos 0;
  cstime = pos 0;
  start_time = pos 0;
  tty = negsuc 0;
  umask = 0o22;
  pwd = none;
  root = none;
  executable = none;
  close_on_exec = 0;
  filp = replicate nr_open none;
}

-- `_S(nr)`, the bit of a signal
abbrev pub sig_bit : ℕ → ℕ
sig_bit nr = 2 ^ (nr - 1)

abbrev pub sighup : ℕ
sighup = 1

abbrev pub sigkill : ℕ
sigkill = 9

abbrev pub sigalrm : ℕ
sigalrm = 14

abbrev pub sigchld : ℕ
sigchld = 17

abbrev pub sigstop : ℕ
sigstop = 19

-- errno values; a system call returns them negated
abbrev pub eperm : ℕ
eperm = 1

abbrev pub esrch : ℕ
esrch = 3

abbrev pub eintr : ℕ
eintr = 4

abbrev pub echild : ℕ
echild = 10

abbrev pub eagain : ℕ
eagain = 11

abbrev pub einval : ℕ
einval = 22

-- `return -E`
abbrev pub error : ℕ → ℤ
error e = neg_ℤ (pos e)

-- `suser()`, of include/linux/kernel.h
abbrev pub suser : Task → Bool
suser t = t.euid == 0
