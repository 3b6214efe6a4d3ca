-- ===== src/Sched.antt =====
-- kernel/sched.c: `schedule()`, the waking of tasks with alarms and signals, the choice of the
-- next task and the renewal of the time slices; `sys_alarm`, `sys_nice`.
-- A scan of `task[]` from LAST_TASK down to the slot behind FIRST_TASK is a recursion over the
-- slots behind the first that handles the higher slots first. `switch_to(next)` makes `next` the
-- current slot, so the functions return it.
pub mod Pick
pub mod Choice
pub mod Waking
pub mod Slices
mod Tests
use linux.Prelude.{
  ℕ, zero, suc, ◌+◌, ◌-◌, ◌*◌, ◌^◌, List, [], ◌∷◌, map, Option, none, some, Bool, true, false, not,
  ◌&&◌, ℤ, pos, negsuc, ◌+ℤ◌, ◌-ℤ◌, shr1, wrap_long, div_ℤ, ltb_ℤ, eqb_ℤ, ◌==◌, if◌then◌else◌,
}
use linux.Prelude.Bits.{bit_not}
use Prim.Native.Nat.{bit_and, bit_or}
use linux.Task.{Task, TaskState, running, is_running, is_interruptible, Table, hz, sig_bit}
use linux.Task.{sigalrm, sigkill, sigstop}

-- `_BLOCKABLE`
abbrev pub blockable : ℕ
blockable = bit_not 32 (bit_or (sig_bit sigkill) (sig_bit sigstop))

-- An alarm that is over becomes SIGALRM.
pub ring_alarm : ℤ → Task → Task
ring_alarm jiffies t =
    if not (eqb_ℤ t.alarm (pos 0)) && ltb_ℤ t.alarm jiffies
    then record t { signal = bit_or t.signal (sig_bit sigalrm); alarm = pos 0 }
    else t

-- `signal & ~(_BLOCKABLE & blocked)`
abbrev pub pending : Task → ℕ
pending t = bit_and t.signal (bit_not 32 (bit_and blockable t.blocked))

pub wake_signalled : Task → Task
wake_signalled t =
    if not (pending t == 0) && is_interruptible t.state then record t { state = running } else t

pub check_task : ℤ → Task → Task
check_task jiffies t = wake_signalled (ring_alarm jiffies t)

-- The slots behind FIRST_TASK, each task handed to `f`.
pub each_task : (Task → Task) → List (Option Task) → List (Option Task)
each_task f [] = []
each_task f (none ∷ ts) = none ∷ each_task f ts
each_task f (some t ∷ ts) = some (f t) ∷ each_task f ts

pub behind_first : (Task → Task) → Table → Table
behind_first f [] = []
behind_first f (t ∷ ts) = t ∷ each_task f ts

-- One round of `while (--i)`: `c` and `next` after the slot `i`.
pub better : Option Task → ℕ → ℤ × ℕ → ℤ × ℕ
better none i best = best
better (some t) i (c, next) =
    if is_running t.state && ltb_ℤ c t.counter then (t.counter, i) else (c, next)

-- `c` and `next` after the slots of the list, the first of which is slot `i`.
pub scan : List (Option Task) → ℕ → ℤ × ℕ
scan [] i = (negsuc 0, 0)
scan (t ∷ ts) i = better t i (scan ts (suc i))

pub pick : Table → ℤ × ℕ
pick [] = (negsuc 0, 0)
pick (t ∷ ts) = scan ts 1

-- `counter = (counter >> 1) + priority`, a `long`
pub renew : Task → Task
renew t = record t { counter = wrap_long (shr1 t.counter +ℤ t.priority) }

-- `while (1)`, with fuel; `none` means that the fuel ran out.
pub choose : ℕ → Table → Option (ℕ × Table)
choose zero ts = none
choose (suc fuel) ts =
    let (c, next) = pick ts in
    let rest = choose fuel (behind_first renew ts) in
    if eqb_ℤ c (pos 0) then rest else some (next, ts)

-- The slot that runs next, and the table that the function leaves.
pub schedule : ℕ → ℤ → Table → Option (ℕ × Table)
schedule fuel jiffies ts = choose fuel (behind_first (check_task jiffies) ts)

-- What is left of an alarm in seconds, and the task with the new alarm.
pub sys_alarm : ℤ → ℤ → Task → ℤ × Task
sys_alarm jiffies seconds t = (
  (if eqb_ℤ t.alarm (pos 0) then pos 0 else div_ℤ (t.alarm -ℤ jiffies) hz),
  record t { alarm = if ltb_ℤ (pos 0) seconds then jiffies +ℤ scale seconds else pos 0 },
)
  where
    scale : ℤ → ℤ
    scale (pos n) = pos (hz * n)
    scale (negsuc n) = negsuc (hz * suc n - 1)

pub sys_nice : ℤ → Task → ℤ × Task
sys_nice increment t = (
  pos 0,
  if ltb_ℤ (pos 0) (t.priority -ℤ increment)
      then record t { priority = t.priority -ℤ increment }
      else t,
)
