-- ===== src/Sched/Tests.antt =====
-- Runs of `schedule()` on a table of three tasks, and the theorems at it.
use linux.Prelude.{
  ℕ, zero, suc, ◌≡◌, ◌↔◌, ◌<◌, ◌⊎◌, refl, [], ◌∷◌, none, some, pos, ◌+ℤ◌, ◌-ℤ◌, ◌≤ℤ◌, arith,
}
use linux.Task.{Task, Table, running, interruptible, init_task}
use linux.Sched.{schedule, choose, behind_first, each_task, check_task, ring_alarm, wake_signalled}
use linux.Sched.{pick, scan, better, renew, sys_nice, sys_alarm}
use linux.Sched.Choice.{Prioritized, SchedulesWell, schedule-Chosen}
use linux.Sched.Waking.{Raised, Unblocked, check_task-wakes}
use linux.Sched.Slices.{AllSliced, schedule-AllSliced, sys_nice_priority}

-- asleep, with an alarm at tick 90 and every signal blocked but SIGALRM
abbrev sleeper : Task
sleeper = record init_task {
  state = interruptible;
  counter = pos 7;
  alarm = pos 90;
  blocked = 0xffffdfff;
}

abbrev busy : Task
busy = record init_task { counter = pos 0; pid = pos 3 }

abbrev table : Table
table = some init_task ∷ some sleeper ∷ none ∷ some busy ∷ []

abbrev woken : Task
woken = record sleeper { state = running; alarm = pos 0; signal = 0x2000 }

schedule_at_100 :
    schedule 2 (pos 100) table ≡ some (1, some init_task ∷ some woken ∷ none ∷ some busy ∷ [])
unfolding schedule choose behind_first each_task check_task ring_alarm wake_signalled pick scan
    better
schedule_at_100 = refl

-- before the alarm only a task without time is runnable, and all slices are renewed
schedule_at_50 :
    schedule 2 (pos 50) table
    ≡ some (
      3,
      some init_task
          ∷ some (record sleeper { counter = pos 18 })
          ∷ none
          ∷ some (record busy { counter = pos 15 })
          ∷ [],
    )
unfolding schedule choose behind_first each_task check_task ring_alarm wake_signalled pick scan
    better renew ◌+ℤ◌
schedule_at_50 = refl

sys_alarm_left : (sys_alarm (pos 50) (pos 3) sleeper).0 ≡ pos 0
unfolding sys_alarm ◌-ℤ◌
sys_alarm_left = refl

table-Prioritized : Prioritized table
table-Prioritized zero t e = ground arith
table-Prioritized (suc zero) t e = cc
table-Prioritized (suc (suc zero)) t e = ground arith
table-Prioritized (suc (suc (suc k))) t e = cc

table-AllSliced : AllSliced table
unfolding ◌+ℤ◌
table-AllSliced zero t e = ground arith
table-AllSliced (suc zero) t e = cc
table-AllSliced (suc (suc zero)) t e = ground arith
table-AllSliced (suc (suc (suc k))) t e = cc

schedule-Chosen_example : SchedulesWell 2 (pos 100) table
schedule-Chosen_example = schedule-Chosen 0 (pos 100) table table-Prioritized

check_task-wakes_example :
    ((check_task (pos 100) sleeper).state ≡ running)
    ↔ ((i : ℕ) × (i < 32) × Raised (pos 100) sleeper i × Unblocked sleeper i)
check_task-wakes_example = check_task-wakes (pos 100) sleeper (omega arith) refl

schedule-AllSliced_example :
    (next : ℕ) × (ts' : Table) × (schedule 2 (pos 100) table ≡ some (next, ts')) × AllSliced ts'
schedule-AllSliced_example = schedule-AllSliced 0 (pos 100) table table-AllSliced

sys_nice_priority_example :
    (pos 1 ≤ℤ (sys_nice (pos 20) busy).1.priority)
    × (((sys_nice (pos 20) busy).1.priority ≡ pos 15 -ℤ pos 20)
        ⊎ ((sys_nice (pos 20) busy).1.priority ≡ pos 15))
sys_nice_priority_example = sys_nice_priority (pos 20) busy (omega arith)
