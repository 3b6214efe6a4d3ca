-- ===== src/Timer.antt =====
-- kernel/sched.c: the timer requests, `add_timer` and the part of `do_timer` that runs them.
-- The entries of `timer_list` that are in use (`fn` not NULL) are exactly those linked from
-- `next_timer`, so the list in its order stands for the pool; the last of the 64 slots is taken
-- when the list has 64 entries. An entry counts the ticks after the entry before it.
-- Functions are numbers; a function that runs does not itself call `add_timer`.
pub mod Due
pub mod Add
pub mod Tick
mod Tests
use linux.Prelude.{
  ℕ, zero, suc, ◌-◌, List, [], ◌∷◌, Option, none, some, ℤ, pos, negsuc, ltb, leb, if◌then◌else◌,
  length,
}

-- `struct timer_list`, less `next`
pub record Timer : Type 0 where
  pub jiffies : ℕ
  pub fn : ℕ

abbrev pub timer : ℕ → ℕ → Timer
timer d f = record { jiffies = d; fn = f }

abbrev pub time_requests : ℕ
time_requests = 64

-- The loop of `add_timer`: the new entry moves behind the entries that are due earlier. Its
-- exchange of `fn` and `jiffies` with the next slot puts that entry in front.
pub insert : ℕ → ℕ → List Timer → List Timer
insert d f [] = timer d f ∷ []
insert d f (t ∷ ts) =
    let rest = insert (d - t.jiffies) f ts in
    if ltb t.jiffies d then t ∷ rest else timer d f ∷ t ∷ ts

-- What `add_timer` did: nothing for a NULL function, ran the function at once, panicked, or left this list.
pub data Added : Type 0 where
  ignored : Added
  ran : ℕ → Added
  no_more_requests : Added
  linked : List Timer → Added

pub add_timer : ℤ → Option ℕ → List Timer → Added
add_timer d none ts = ignored
add_timer (negsuc d) (some f) ts = ran f
add_timer (pos d) (some f) ts =
    if leb d 0
    then ran f
    else if leb time_requests (length ts)
    then no_more_requests
    else linked (insert d f ts)

-- `while (next_timer && next_timer->jiffies <= 0)`: the functions that run, and what is left.
pub expire : List Timer → List ℕ × List Timer
expire [] = ([], [])
expire (t ∷ ts) =
    let (fs, rest) = expire ts in if leb t.jiffies 0 then (t.fn ∷ fs, rest) else ([], t ∷ ts)

-- `if (next_timer) …` of `do_timer`, one tick. `jiffies--` at 0 gives -1, which counts as 0 does.
pub tick : List Timer → List ℕ × List Timer
tick [] = ([], [])
tick (t ∷ ts) = expire (record t { jiffies = t.jiffies - 1 } ∷ ts)

-- n ticks: what runs at each of them, and what is left.
pub ticks : ℕ → List Timer → List (List ℕ) × List Timer
ticks zero ts = ([], ts)
ticks (suc n) ts =
    let (fs, rest) = tick ts in let (later, last) = ticks n rest in (fs ∷ later, last)
