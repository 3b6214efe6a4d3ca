-- ===== src/Fork/Tests.antt =====
-- Processes of a system with two tasks, and the theorem there.
use linux.Prelude.{◌^◌, ◌-◌, ◌∷◌, ◌≡◌, refl, none, some, pos, replicate, arith}
use linux.Task.{Table, init_task}
use linux.Fork.{bump, in_use, next_pid, empty_slot, numbered, find_empty_process}
use linux.Fork.Fresh.{Numbers, find_empty_process-Numbers}

-- Tasks with the pids 0 and 1, of which the second slot is empty
tasks : Table
tasks = some init_task ∷ none ∷ some (record init_task { pid = pos 1 }) ∷ replicate 61 none

-- The pids start again, and 1 is in use.
wrapped : find_empty_process (2 ^ 31 - 1) tasks ≡ some (pos 1, 2)
unfolding tasks find_empty_process numbered next_pid in_use bump empty_slot
wrapped = refl

find_empty_process-Numbers_example : Numbers tasks (find_empty_process (2 ^ 31 - 1) tasks)
unfolding tasks
find_empty_process-Numbers_example =
    find_empty_process-Numbers (2 ^ 31 - 1) tasks (omega arith) (omega arith)
