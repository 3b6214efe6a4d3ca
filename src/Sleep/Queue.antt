-- ===== src/Sleep/Queue.antt =====
-- Tasks in `sleep_on`, in any order of sleeping, waking and going on.
use linux.Prelude.{ℕ, Option, none, some, ◌≡◌, ◌⊎◌}
use linux.Prelude.Outcome.{ok}
use linux.Task.{running}
use linux.Sleep.{elsewhere, in_sleep_on, Waits, sleep_on, sleep_on_resumed, wake_up_last}

-- What a task or an interrupt does with the queue.
pub data Step (s : Waits) : Waits → Type 0 where
  sleeps : (i : ℕ) (t : Waits) → s.place i ≡ elsewhere → sleep_on i s ≡ ok t → Step s t
  goes_on :
      (i : ℕ) (tmp : Option ℕ)
      → s.place i ≡ in_sleep_on tmp
      → s.state i ≡ running
      → Step s (sleep_on_resumed i tmp s)
  wakes : Step s (wake_up_last s)

-- At the start nobody sleeps.
abbrev pub IsStart : Waits → Type 0
IsStart s = (s.queue ≡ none) × ((i : ℕ) → s.place i ≡ elsewhere)

pub data Reach (s : Waits) : Waits → Type 0 where
  here : Reach s s
  later : {t u : Waits} → Reach s t → Step t u → Reach s u

-- A task is in reach: it is the last in the queue, or it will be woken by a task that was woken and
-- has yet to go on, or by one that is in reach itself.
pub data InReach (s : Waits) : ℕ → Type 0 where
  last : (i : ℕ) → s.queue ≡ some i → InReach s i
  by_woken : (j i : ℕ) → s.place j ≡ in_sleep_on (some i) → s.state j ≡ running → InReach s i
  by_next : (j i : ℕ) → InReach s j → s.place j ≡ in_sleep_on (some i) → InReach s i

-- Every task in `sleep_on` runs or is in reach.
abbrev pub IsCovered : Waits → Type 0
IsCovered s =
    (i : ℕ) (tmp : Option ℕ) → s.place i ≡ in_sleep_on tmp → (s.state i ≡ running) ⊎ InReach s i
