-- ===== src/Wait.antt =====
-- kernel/exit.c: `sys_waitpid` and the slot that `release` empties.
-- The scan from LAST_TASK down to the slot behind FIRST_TASK handles the higher slots first; `me`
-- is the slot of `current`. `release` also gives the page of the task back and calls `schedule`;
-- that is the memory's and the scheduler's. The status is what is stored at `stat_addr`.
pub mod Child
pub mod Result
mod Tests
use linux.Prelude.{
  ℕ, zero, suc, ◌+◌, ◌/◌, ◌%◌, List, [], ◌∷◌, Option, none, some, Bool, true, false, not, ◌&&◌,
  ◌||◌, ℤ, pos, negsuc, neg_ℤ, ltb_ℤ, eqb_ℤ, ◌==◌, if◌then◌else◌, set,
}
use linux.Prelude.{◌+ℤ◌}
use linux.Task.{
  TaskState, running, interruptible, uninterruptible, zombie, stopped, Task, Table, error, echild,
}

-- `options & WNOHANG`, `options & WUNTRACED`
abbrev pub no_hang : ℕ → Bool
no_hang options = options % 2 == 1

abbrev pub untraced : ℕ → Bool
untraced options = options / 2 % 2 == 1

-- A child of `current` that `pid` asks for.
pub is_wanted : ℕ → Task → ℤ → ℕ → Task → Bool
is_wanted me current pid i t =
    not (i == me)
    && eqb_ℤ t.father current.pid
    && (if ltb_ℤ (pos 0) pid
        then eqb_ℤ t.pid pid
        else if eqb_ℤ pid (pos 0)
        then eqb_ℤ t.pgrp current.pgrp
        else if eqb_ℤ pid (negsuc 0)
        then true
        else eqb_ℤ t.pgrp (neg_ℤ pid))

-- What the scan came to: a stopped child, a zombie in a slot, or its end with `flag`.
pub data Scan : Type 0 where
  stopped_child : ℤ → Scan
  zombie_child : ℕ → Task → Scan
  scanned : Bool → Scan

-- The `switch` on the state of a wanted child
pub look : Bool → TaskState → ℕ → Task → Bool → Scan
look traced stopped i t flag = if traced then stopped_child t.pid else scanned flag
look traced zombie i t flag = zombie_child i t
look traced running i t flag = scanned true
look traced interruptible i t flag = scanned true
look traced uninterruptible i t flag = scanned true

-- One slot, after the higher ones.
pub wait_slot : ℕ → Task → ℤ → Bool → ℕ → Option Task → Scan → Scan
wait_slot me current pid traced i o (stopped_child p) = stopped_child p
wait_slot me current pid traced i o (zombie_child k t) = zombie_child k t
wait_slot me current pid traced i none (scanned flag) = scanned flag
wait_slot me current pid traced i (some t) (scanned flag) =
    if is_wanted me current pid i t then look traced t.state i t flag else scanned flag

pub wait_scan : ℕ → Task → ℤ → Bool → ℕ → List (Option Task) → Scan
wait_scan me current pid traced i [] = scanned false
wait_scan me current pid traced i (o ∷ ts) =
    wait_slot me current pid traced i o (wait_scan me current pid traced (suc i) ts)

-- How far a call gets: it returns a result, with the status stored, the table and `current`; or it
-- sleeps, and goes on from the start unless a signal other than SIGCHLD came.
pub data Waited : Type 0 where
  returned : ℤ → Option ℤ → Table → Task → Waited
  sleeps : Waited

abbrev pub wait_end : Bool → Table → Task → Scan → Waited
wait_end hang table current (stopped_child p) = returned p (some (pos 0x7f)) table current
wait_end hang table current (zombie_child i t) =
    returned t.pid (some t.exit_code) (set table i none)
      (record current { cutime = current.cutime +ℤ t.utime; cstime = current.cstime +ℤ t.stime })
wait_end hang table current (scanned true) =
    if hang then sleeps else returned (pos 0) none table current
wait_end hang table current (scanned false) = returned (error echild) none table current

pub sys_waitpid : ℕ → Task → ℤ → ℕ → Table → Waited
sys_waitpid me current pid options [] = returned (error echild) none [] current
sys_waitpid me current pid options (t₀ ∷ ts) =
    wait_end (not (no_hang options)) (t₀ ∷ ts) current
      (wait_scan me current pid (untraced options) 1 ts)
