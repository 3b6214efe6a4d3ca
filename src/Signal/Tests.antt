-- ===== src/Signal/Tests.antt =====
-- A table of three tasks, and the theorems there.
use linux.Prelude.{◌≡◌, refl, [], ◌∷◌, none, some, pos, negsuc}
use linux.Task.{Task, Table, init_task, error, eperm, einval}
use linux.Sched.Pick.{task_at}
use linux.Signal.{sys_kill, kill_from, send_sig, kill_target, kill_session}
use linux.Signal.Kill.{Signalled, sys_kill-Signalled}

abbrev user : Task
user = record init_task { pid = pos 5; euid = 7; session = pos 5; pgrp = pos 5 }

abbrev other : Task
other = record init_task { pid = pos 6; euid = 8; session = pos 5; pgrp = pos 5 }

abbrev table : Table
table = some init_task ∷ none ∷ some user ∷ some other ∷ []

kill_self :
    sys_kill (pos 5) (pos 15) user table
    ≡ (pos 0, some init_task ∷ none ∷ some (record user { signal = 0x4000 }) ∷ some other ∷ [])
unfolding sys_kill kill_from send_sig kill_target
kill_self = refl

kill_other : sys_kill (pos 6) (pos 15) user table ≡ (error eperm, table)
unfolding sys_kill kill_from send_sig kill_target
kill_other = refl

kill_all : sys_kill (negsuc 0) (pos 1) init_task table ≡ (
  error einval,
  some init_task
      ∷ none
      ∷ some (record user { signal = 1 })
      ∷ some (record other { signal = 1 })
      ∷ [],
)
unfolding sys_kill kill_from send_sig kill_target
kill_all = refl

hang_up :
    kill_session (pos 5) (none ∷ some user ∷ []) ≡ none ∷ some (record user { signal = 1 }) ∷ []
unfolding kill_session
hang_up = refl

sys_kill-Signalled_example :
    (t' : Task) × (task_at (sys_kill (pos 0) (pos 15) user table).1 3 ≡ some t')
    × Signalled (pos 0) (pos 15) user other t'
sys_kill-Signalled_example = sys_kill-Signalled (pos 0) (pos 15) user table 2 other refl
