-- ===== src/Exit.antt =====
-- kernel/exit.c: `release`, `tell_father`, `do_exit` and `sys_exit`, up to the calls of `schedule`.
-- `current` is slot `me` of the table, which the loops change too. The segments of the task are a
-- base and a limit each. The page of a task that is released is not in the model. A terminal is
-- here its process group; `put` lists the inodes for `iput` as in Files.
pub mod Adopt
pub mod Closed
pub mod Told
pub mod Finish
pub mod Dropped
pub mod Left
pub mod End
mod Tests
use linux.Prelude.{
  ℕ, zero, suc, ◌+◌, ◌*◌, ◌%◌, List, [], ◌∷◌, Option, none, some, Bool, true, false, not, ◌&&◌,
  ◌||◌, ℤ, pos, negsuc, ltb_ℤ, eqb_ℤ, leb, ◌==◌, if◌then◌else◌, get_or, set, length, pos_part,
}
use linux.Prelude.Outcome.{Outcome, ok, panicked, ◌>>=◌}
use linux.Task.{TaskState, zombie, Task, Table, init_task, sigchld, nr_tasks, nr_open}
use linux.Signal.{raise, send_sig, kill_session}
use linux.Files.{File, Files, filp_at, is_open, sys_close}
use linux.Mm.{Memory}
use linux.Mm.Tables.{free_page_tables}

abbrev pub zombie_state : TaskState → Bool
zombie_state zombie = true
zombie_state _ = false

-- `(void) send_sig(SIGCHLD, task[1], 1)`
abbrev pub tell_init : ℕ → Table → Table
tell_init euid ts = set ts 1 ((send_sig (pos sigchld) euid (get_or ts 1 none) true).1)

-- The loop of `do_exit` over `task`, at slot `i`, and over `n` slots from there on
unfoldable pub adopt_task : ℕ → ℤ → ℕ → Option Task → Table → Table
adopt_task euid pid i none ts = ts
adopt_task euid pid i (some t) ts =
    let ts₁ = set ts i (some (record t { father = pos 1 })) in
    if eqb_ℤ t.father pid then (if zombie_state t.state then tell_init euid ts₁ else ts₁) else ts

unfoldable pub adopt : ℕ → ℤ → ℕ → ℕ → Table → Table
adopt euid pid zero i ts = ts
adopt euid pid (suc n) i ts = adopt euid pid n (i + 1) (adopt_task euid pid i (get_or ts i none) ts)

-- `for (i=0 ; i<NR_OPEN ; i++) if (current->filp[i]) sys_close(i);`
unfoldable pub close_all : ℕ → ℕ → Files → Outcome Files
close_all zero fd s = ok s
close_all (suc n) fd s =
    (if is_open (filp_at s fd) then sys_close fd s >>= (λ (r, s'). ok s') else ok s) >>= λ s'.
    close_all n (fd + 1) s'

pub record Machine : Type 0 where
  pub table : Table
  pub file : ℕ → File
  pub put : List (Option ℕ)
  pub tty_pgrp : ℕ → ℤ
  pub last_task_used_math : Option ℕ
  pub memory : Memory

abbrev pub task_or : Option Task → Task
task_or none = init_task
task_or (some t) = t

abbrev pub current_task : ℕ → Machine → Task
current_task me m = task_or (get_or m.table me none)

abbrev pub set_current : ℕ → Task → Machine → Machine
set_current me t m = record m { table = set m.table me (some t) }

-- From the loop over `filp` to `current->executable=NULL`
unfoldable pub drop_files : ℕ → Machine → Outcome Machine
drop_files me m =
    close_all nr_open 0 (record { current = current_task me m; file = m.file; put = m.put })
    >>= λ f.
        let t = f.current in
        ok (record (set_current me (record t { pwd = none; root = none; executable = none }) m) {
          file = f.file;
          put = t.executable ∷ t.root ∷ t.pwd ∷ f.put;
        })

abbrev pub is_math : ℕ → Option ℕ → Bool
is_math me none = false
is_math me (some k) = k == me

-- The terminal, the mathematical coprocessor and the session
abbrev pub drop_tty : ℕ → Machine → Machine
drop_tty me m =
    let t = current_task me m in
    if not (eqb_ℤ t.leader (pos 0)) && not (ltb_ℤ t.tty (pos 0))
    then record m { tty_pgrp = λ n. if n == pos_part t.tty then pos 0 else m.tty_pgrp n }
    else m

abbrev pub drop_math : ℕ → Machine → Machine
drop_math me m =
    if is_math me m.last_task_used_math then record m { last_task_used_math = none } else m

abbrev pub after_first : (Table → Table) → Table → Table
after_first f [] = []
after_first f (t ∷ ts) = t ∷ f ts

abbrev pub drop_session : ℕ → Machine → Machine
drop_session me m =
    let t = current_task me m in
    if eqb_ℤ t.leader (pos 0)
    then m
    else record m { table = after_first (kill_session t.session) m.table }

-- `task[i]` is `p` for the slot of `p` only.
unfoldable pub release_task : ℕ → Table → Outcome Table
release_task me ts = if me == 0 || leb nr_tasks me then panicked else ok (set ts me none)

abbrev pub put_behind : Option Task → Option Table → Option Table
put_behind o none = none
put_behind o (some ts) = some (o ∷ ts)

-- The loop of `tell_father`: the table, if there is a father
unfoldable pub tell_scan : ℤ → Table → Option Table
tell_scan pid [] = none
tell_scan pid (none ∷ ts) = put_behind none (tell_scan pid ts)
tell_scan pid (some t ∷ ts) =
    let rest = put_behind (some t) (tell_scan pid ts) in
    if eqb_ℤ t.pid pid then some (some (raise sigchld t) ∷ ts) else rest

unfoldable pub told : ℕ → Table → Option Table → Outcome Table
told me ts none = release_task me ts
told me ts (some ts') = ok ts'

unfoldable pub tell_father : ℕ → ℤ → Table → Outcome Table
tell_father me pid ts =
    if eqb_ℤ pid (pos 0) then release_task me ts else told me ts (tell_scan pid ts)

abbrev pub adopt_all : ℕ → Machine → Machine
adopt_all me m =
    let t = current_task me m in record m { table = adopt t.euid t.pid nr_tasks 0 m.table }

-- From the terminal to `tell_father`
unfoldable pub finish : ℤ → ℕ → Machine → Outcome Machine
finish code me m =
    let m₂ : Machine = drop_session me (drop_math me (drop_tty me m)) in
    let m₃ : Machine =
      set_current me (record (current_task me m₂) { state = zombie; exit_code = code }) m₂ in
    tell_father me (current_task me m₃).father m₃.table >>= λ ts. ok (record m₃ { table = ts })

-- `do_exit` after the pages of the task were freed
unfoldable pub end_process : ℤ → ℕ → Machine → Outcome Machine
end_process code me m = drop_files me (adopt_all me m) >>= λ m₁. finish code me m₁

unfoldable pub do_exit : ℤ → ℕ → ℕ × ℕ → ℕ × ℕ → Machine → Outcome Machine
do_exit code me (code_base, code_limit) (data_base, data_limit) m = do
  memory₁ ← free_page_tables code_base code_limit m.memory
  memory₂ ← free_page_tables data_base data_limit memory₁
  end_process code me (record m { memory = memory₂ })

-- `(error_code&0xff)<<8`, where `error_code` is a word
unfoldable pub sys_exit : ℕ → ℕ → ℕ × ℕ → ℕ × ℕ → Machine → Outcome Machine
sys_exit error_code me code data_seg m = do_exit (pos (error_code % 256 * 256)) me code data_seg m
