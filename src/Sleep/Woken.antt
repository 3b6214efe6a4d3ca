-- ===== src/Sleep/Woken.antt =====
-- What the tasks in `sleep_on` wait for.
use linux.Prelude.{ℕ, Option, none, some, ◌≡◌, sym, ap, ◌∙◌, inl, inr, true, false, Bool, arith}
use linux.Task.{running}
use linux.Sleep.{in_sleep_on, Waits}
use linux.Sleep.Queue.{IsStart, Reach, InReach, last, by_woken, by_next}
use linux.Sleep.Covered.{Reach-IsCovered}

-- A woken task that has yet to go on from `sleep_on`
pub record Runner (s : Waits) : Type 0 where
  pub slot : ℕ
  pub tmp : Option ℕ
  pub sleeping : s.place slot ≡ in_sleep_on tmp
  pub woken : s.state slot ≡ running

abbrev is_some : Option ℕ → Bool
is_some none = false
is_some (some i) = true

InReach-Runner : (s : Waits) (i : ℕ) → s.queue ≡ none → InReach s i → Runner s
InReach-Runner s i e (last _ q) =
    absurd (let t : false ≡ true = sym (ap is_some e) ∙ ap is_some q in ground arith)
InReach-Runner s i e (by_woken j _ p r) = record { slot = j; tmp = some i; sleeping = p; woken = r }
InReach-Runner s i e (by_next j _ h p) = InReach-Runner s j e h

-- In a state that tasks reach by sleeping in `sleep_on`, waking the queue and going on, from one in
-- which nobody sleeps: while the queue is empty and some task is in `sleep_on`, a woken task can go
-- on.
pub Reach-Runner :
    (s t : Waits) (i : ℕ) (tmp : Option ℕ)
    → IsStart s
    → Reach s t
    → t.queue ≡ none
    → t.place i ≡ in_sleep_on tmp
    → Runner t
Reach-Runner s t i tmp start r e p = elim (Reach-IsCovered s t start r i tmp p) [
  | inl w ↦ record { slot = i; tmp = tmp; sleeping = p; woken = w }
  | inr h ↦ InReach-Runner t i e h
]
