-- ===== src/Exit/Tests.antt =====
-- A process with three children, one of them a zombie.
use linux.Prelude.{
  ℕ, ◌≡◌, refl, [], ◌∷◌, none, some, true, ◌==◌, if◌then◌else◌, ℤ, pos, arith, replicate, ◌&&◌,
}
use linux.Prelude.Outcome.{Outcome, ok}
use linux.Task.{zombie, Task, Table, init_task}
use linux.Signal.{send_sig, kill_session}
use linux.Files.{sys_close}
use linux.Files.Count.{Counted, refs}
use linux.Exit.{
  Machine, adopt, adopt_task, close_all, drop_files, tell_scan, told, tell_father, finish,
  end_process,
}
use linux.Exit.Adopt.{slot, adopted, notified, dead_children, adopt_lem}
use linux.Exit.End.{Ends, end_process-Ends}

abbrev child : ℕ → Task
child n = record init_task { pid = pos n; father = pos 5 }

-- It leads its session, and has a file open.
abbrev leaver : Task
leaver = record init_task {
  pid = pos 5;
  father = pos 1;
  session = pos 5;
  leader = pos 1;
  filp = some 7 ∷ replicate 19 none;
}

-- Process 5 in slot 2, a child of process 1; 6, 7 and 8 are its children.
abbrev tasks : Table
tasks =
    some init_task
    ∷ some (record init_task { pid = pos 1 })
    ∷ some leaver
    ∷ some (child 6)
    ∷ some (record (child 7) { state = zombie })
    ∷ some (child 8)
    ∷ replicate 58 none

abbrev machine : Machine
machine = record {
  table = tasks;
  file = λ f. record {
    mode = 0;
    flags = 0;
    count = if f == 7 then 1 else 0;
    inode = some f;
    f_pos = pos 0;
  };
  put = [];
  tty_pgrp = λ n. pos 5;
  last_task_used_math = some 2;
  memory = record { mem_map = []; high_memory = 0; page = λ f o. 0 };
}

-- The signals of process 1, and the father of process 6
after : Outcome Machine → ℕ × ℤ
after (ok m) = (
  elim (slot m.table 1) [ none ↦ 0 | some t ↦ t.signal ],
  elim (slot m.table 3) [ none ↦ pos 0 | some t ↦ t.father ],
)
after r = (0, pos 0)

exited : after (end_process (pos 256) 2 machine) ≡ (65536, pos 1)
unfolding after end_process adopt adopt_task send_sig drop_files close_all sys_close finish
    kill_session tell_father told tell_scan
exited = refl

adopt_lem_example :
    slot (adopt 0 (pos 5) 64 0 tasks) 1
    ≡ notified ((1 == 1) && dead_children (pos 5) 64 0 tasks) (adopted (pos 5) true (slot tasks 1))
adopt_lem_example = adopt_lem 0 (pos 5) tasks 1 refl (omega arith)

machine-Counted : Counted (λ f. 0) leaver.filp machine.file
unfolding refs
machine-Counted = record { open_files = refl; counted = λ f. ground arith; few = λ f. omega arith }

end_process-Ends_example :
    Ends (pos 256) leaver 2 (λ f. 0) machine (end_process (pos 256) 2 machine)
end_process-Ends_example =
    end_process-Ends (pos 256) 2 machine leaver (λ f. 0) (omega arith) (omega arith) refl refl
      (λ e. absurd (ground arith)) machine-Counted
