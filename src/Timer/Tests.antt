-- ===== src/Timer/Tests.antt =====
-- Requests of 3 and 10 ticks, a third of 5 ticks between them, and the theorems there.
use linux.Prelude.{◌≡◌, refl, [], ◌∷◌, List, some, none, pos, negsuc, get_elem?, arith}
use linux.Timer.{Timer, timer, add_timer, insert, linked, ran, ignored, tick, ticks, expire}
use linux.Timer.Due.{due, runs_at, IsSpaced}
use linux.Timer.Tick.{ticks-runs_at}
use linux.Timer.Add.{Inserts, add_timer-Inserts}

-- due at 3 and at 10
abbrev two : List Timer
two = timer 3 7 ∷ timer 7 8 ∷ []

abbrev three : List Timer
three = timer 3 7 ∷ timer 2 9 ∷ timer 7 8 ∷ []

add_between : add_timer (pos 5) (some 9) two ≡ linked three
unfolding add_timer insert
add_between = refl

add_now :
    (add_timer (negsuc 0) (some 9) two ≡ ran 9)
    × (add_timer (pos 0) (some 9) two ≡ ran 9)
    × (add_timer (pos 5) none two ≡ ignored)
unfolding add_timer
add_now = (refl, refl, refl)

run_three : (ticks 5 three).0 ≡ [] ∷ [] ∷ (7 ∷ []) ∷ [] ∷ (9 ∷ []) ∷ []
unfolding ticks tick expire
run_three = refl

ticks-runs_at_example : get_elem? (ticks 12 three).0 4 ≡ some (runs_at 5 (due 0 three))
ticks-runs_at_example = ticks-runs_at 12 three 4 (omega arith) (omega arith)

add_timer-Inserts_example : Inserts 0 5 9 (due 0 two) (due 0 three) × IsSpaced three
add_timer-Inserts_example = add_timer-Inserts 5 9 two (omega arith) (omega arith) add_between
