-- ===== src/Sleep.antt =====
-- kernel/sched.c: `sleep_on`, `interruptible_sleep_on` and `wake_up_last` on one wait queue.
-- A call of `schedule` cuts a function in two: what runs before it, and what runs when the task is
-- current again. Between the two the task stands in the function, with its `tmp` on its kernel
-- stack. `queue` is `*p`; tasks are their slots, and task 0 does not sleep.
pub mod Queue
pub mod Covered
pub mod Woken
pub mod Lost
mod Tests
use linux.Prelude.{
  ℕ, Option, none, some, Bool, true, false, not, ◌&&◌, ◌||◌, ◌==◌, if◌then◌else◌, ◌≡◌, ◌≢◌,
}
use linux.Prelude.Outcome.{Outcome, ok, panicked}
use linux.Task.{TaskState, running, interruptible, uninterruptible}

-- Where a task stands
pub data Place : Type 0 where
  elsewhere : Place
  in_sleep_on : Option ℕ → Place
  in_interruptible : Option ℕ → Place

pub record Waits : Type 0 where
  pub state : ℕ → TaskState
  pub queue : Option ℕ
  pub place : ℕ → Place

abbrev pub assign {ℓ} : {A : Type ℓ} → ℕ → A → (ℕ → A) → ℕ → A
assign i a f j = if i == j then a else f j

-- `if (tmp) tmp->state=0`
abbrev pub wake : Option ℕ → Waits → Waits
wake none s = s
wake (some i) s = record s { state = assign i running s.state }

-- Up to `schedule()`
abbrev pub enqueue : ℕ → TaskState → Place → Waits → Waits
enqueue i t place s = record {
  state = assign i t s.state;
  queue = some i;
  place = assign i place s.place;
}

unfoldable pub sleep_on : ℕ → Waits → Outcome Waits
sleep_on i s = if i == 0 then panicked else ok (enqueue i uninterruptible (in_sleep_on s.queue) s)

unfoldable pub interruptible_sleep_on : ℕ → Waits → Outcome Waits
interruptible_sleep_on i s =
    if i == 0 then panicked else ok (enqueue i interruptible (in_interruptible s.queue) s)

-- From there on
unfoldable pub sleep_on_resumed : ℕ → Option ℕ → Waits → Waits
sleep_on_resumed i tmp s = wake tmp (record s { place = assign i elsewhere s.place })

-- The end of `interruptible_sleep_on`
abbrev pub leave : ℕ → Option ℕ → Waits → Waits
leave i tmp s = wake tmp (record s { queue = none; place = assign i elsewhere s.place })

-- `if (*p && *p != current)`, by what `*p` is
unfoldable pub resume : ℕ → Option ℕ → Option ℕ → Waits → Waits
resume i tmp none s = leave i tmp s
resume i tmp (some j) s =
    if i == j
    then leave i tmp s
    else record s { state = assign i interruptible (assign j running s.state) }

unfoldable pub interruptible_resumed : ℕ → Option ℕ → Waits → Waits
interruptible_resumed i tmp s = resume i tmp s.queue s

unfoldable pub wake_up_last : Waits → Waits
wake_up_last s = record (wake s.queue s) { queue = none }
