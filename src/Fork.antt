-- ===== src/Fork.antt =====
-- kernel/fork.c: `find_empty_process`, which numbers a new process and finds it a slot.
-- `last_pid` is a 32-bit signed number that starts at 0 and never stays negative, so it is a
-- natural one below 2 ^ 31; `repeat` runs on fuel.
pub mod Pids
pub mod Fresh
mod Tests
use linux.Prelude.{
  ℕ, zero, suc, ◌+◌, ◌-◌, ◌^◌, List, [], ◌∷◌, Option, none, some, Bool, true, false, ◌||◌, ◌==◌,
  if◌then◌else◌, ℤ, pos, eqb_ℤ,
}
use linux.Task.{Task, Table, nr_tasks, error, eagain}

-- The last `long`
abbrev pub max_pid : ℕ
max_pid = 2 ^ 31 - 1

-- `if ((++last_pid)<0) last_pid=1`
unfoldable pub bump : ℕ → ℕ
bump last_pid = if last_pid == max_pid then 1 else last_pid + 1

-- `task[i] && task[i]->pid == last_pid`
abbrev pub has_pid : ℕ → Option Task → Bool
has_pid p none = false
has_pid p (some t) = eqb_ℤ t.pid (pos p)

unfoldable pub in_use : ℕ → Table → Bool
in_use p [] = false
in_use p (t ∷ ts) = has_pid p t || in_use p ts

-- From `repeat` on; none if the fuel ends.
unfoldable pub next_pid : ℕ → ℕ → Table → Option ℕ
next_pid zero last_pid ts = none
next_pid (suc fuel) last_pid ts =
    let p = bump last_pid in let again = next_pid fuel p ts in if in_use p ts then again else some p

-- `for (i=1 ; i<NR_TASKS ; i++) if (!task[i]) return i`, from slot `i` on
unfoldable pub empty_slot : ℕ → Table → ℤ
empty_slot i [] = error eagain
empty_slot i (none ∷ ts) = pos i
empty_slot i (some t ∷ ts) = empty_slot (i + 1) ts

abbrev pub behind_first : Table → Table
behind_first [] = []
behind_first (t ∷ ts) = ts

-- What it returns and the new `last_pid`
unfoldable pub numbered : Table → Option ℕ → Option (ℤ × ℕ)
numbered ts none = none
numbered ts (some p) = some (empty_slot 1 (behind_first ts), p)

-- There are no more pids in use than tasks.
unfoldable pub find_empty_process : ℕ → Table → Option (ℤ × ℕ)
find_empty_process last_pid ts = numbered ts (next_pid (nr_tasks + 1) last_pid ts)
