-- ===== src/Wait/Tests.antt =====
-- A shell with a zombie, a running and a stopped child, and the theorems there.
use linux.Prelude.{◌≡◌, refl, List, [], ◌∷◌, Option, none, some, pos, negsuc}
use linux.Prelude.{◌+ℤ◌}
use linux.Task.{zombie, stopped, Task, init_task}
use linux.Wait.{is_wanted, look, wait_slot, wait_scan, returned, sleeps, sys_waitpid}
use linux.Wait.Result.{Outcomes, sys_waitpid-Outcomes}

abbrev shell : Task
shell = record init_task { pid = pos 4; father = pos 1; cutime = pos 10 }

abbrev done : Task
done = record init_task {
  pid = pos 5;
  father = pos 4;
  state = zombie;
  exit_code = pos 256;
  utime = pos 7;
}

abbrev busy : Task
busy = record init_task { pid = pos 6; father = pos 4 }

abbrev halted : Task
halted = record init_task { pid = pos 7; father = pos 4; state = stopped }

abbrev others : List (Option Task)
others = some shell ∷ some done ∷ some busy ∷ some halted ∷ []

reaps :
    sys_waitpid 1 shell (negsuc 0) 0 (some init_task ∷ others)
    ≡ returned
        (pos 5)
        (some (pos 256))
        (some init_task ∷ some shell ∷ none ∷ some busy ∷ some halted ∷ [])
        (record shell { cutime = pos 17 })
unfolding sys_waitpid wait_scan wait_slot is_wanted look ◌+ℤ◌
reaps = refl

waits_for_busy : sys_waitpid 1 shell (pos 6) 0 (some init_task ∷ others) ≡ sleeps
unfolding sys_waitpid wait_scan wait_slot is_wanted look
waits_for_busy = refl

sys_waitpid-Outcomes_example :
    Outcomes 1 shell
      (negsuc 0)
      2
      (some init_task)
      others
      (sys_waitpid 1 shell (negsuc 0) 2 (some init_task ∷ others))
sys_waitpid-Outcomes_example = sys_waitpid-Outcomes 1 shell (negsuc 0) 2 (some init_task) others
