-- ===== src/Sleep/Tests.antt =====
-- Two sleepers of one queue, and the theorems there.
use linux.Prelude.{none, some, ◌≡◌, refl, arith}
use linux.Prelude.Outcome.{Outcome, ok, panicked}
use linux.Task.{running}
use linux.Sleep.{elsewhere, in_sleep_on, Waits, sleep_on, sleep_on_resumed, wake_up_last}
use linux.Sleep.Queue.{Reach, here, later, sleeps, wakes, IsCovered}
use linux.Sleep.Covered.{Reach-IsCovered}
use linux.Sleep.Woken.{Runner, Reach-Runner}
use linux.Sleep.Lost.{overtaken, Loses, overtaken-Loses}

abbrev start : Waits
start = record { state = λ i. running; queue = none; place = λ i. elsewhere }

after : Outcome Waits → Waits
after (ok s) = s
after _ = start

abbrev one : Waits
one = after (sleep_on 1 start)

abbrev two : Waits
two = after (sleep_on 2 one)

two-Reach : Reach start two
unfolding sleep_on after
two-Reach = later (later here (sleeps 1 one refl refl)) (sleeps 2 two refl refl)

-- The last sleeper goes on and wakes the first.
woken : (sleep_on_resumed 2 (some 1) (wake_up_last two)).state 1 ≡ running
unfolding sleep_on after sleep_on_resumed wake_up_last
woken = refl

idle : sleep_on 0 start ≡ panicked
unfolding sleep_on
idle = refl

Reach-IsCovered_example : IsCovered two
Reach-IsCovered_example = Reach-IsCovered start two (refl, λ i. refl) two-Reach

two_at : (wake_up_last two).place 1 ≡ in_sleep_on none
unfolding sleep_on after wake_up_last
two_at = refl

two_queue : (wake_up_last two).queue ≡ none
unfolding wake_up_last
two_queue = refl

Reach-Runner_example : Runner (wake_up_last two)
Reach-Runner_example =
    Reach-Runner start (wake_up_last two) 1 none (refl, λ i. refl) (later two-Reach wakes) two_queue
      two_at

overtaken-Loses_example : Loses 1 (overtaken 1 2 start)
overtaken-Loses_example =
    overtaken-Loses 1 2 start (omega arith) (omega arith) (omega arith) (refl, λ i. refl)
