-- ===== src/Timer/Tick.antt =====
-- The timer interrupt and the functions that it runs.
use linux.Prelude.{
  ℕ, zero, suc, ◌+◌, ◌-◌, ◌<◌, ◌≡◌, refl, ap, ◌∙◌, List, [], ◌∷◌, some, get_elem?, arith,
}
use linux.Timer.{Timer, expire, tick, ticks}
use linux.Timer.Due.{due, runs_at, IsSpaced, delay-due, runs_at-delay, runs_at_early}

expire_spaced : (ts : List Timer) → IsSpaced ts → expire ts ≡ ([], ts)
unfolding expire
expire_spaced [] s = refl
expire_spaced (t ∷ ts) s = ground arith

runs_at_shift :
    (b b' m m' : ℕ) (ts : List Timer)
    → b' ≡ b + 1
    → m' ≡ m + 1
    → runs_at m' (due b' ts) ≡ runs_at m (due b ts)
runs_at_shift b b' m m' ts e e' = rw (← delay-due 1 b b' ts e) (runs_at-delay 1 m m' (due b ts) e')

-- One tick runs what is due at 1, and everything else is due a tick sooner.
tick-due :
    (ts : List Timer)
    → IsSpaced ts
    → ((tick ts).0 ≡ runs_at 1 (due 0 ts))
      × IsSpaced (tick ts).1
      × ((m : ℕ) → runs_at (suc m) (due 0 (tick ts).1) ≡ runs_at (suc (suc m)) (due 0 ts))
unfolding tick expire
tick-due [] s = (refl, tt, λ m. refl)
tick-due (t ∷ ts) s = (
  ground (arith, expire_spaced ts s.1, runs_at_early 1 (0 + t.jiffies) ts s.1),
  ground (arith, expire_spaced ts s.1),
  λ m. ground (
    arith,
    expire_spaced ts s.1,
    runs_at_shift 0 (0 + t.jiffies) (suc m) (suc (suc m)) ts,
    runs_at_shift (0 + (t.jiffies - 1)) (0 + t.jiffies) (suc m) (suc (suc m)) ts,
  ),
)

-- n ticks run at the tick m + 1, for every m below n, exactly the functions that are due then, in
-- the order of the list, if every entry waits at least one tick after the one before it.
pub ticks-runs_at :
    (n : ℕ) (ts : List Timer) (m : ℕ)
    → IsSpaced ts
    → m < n
    → get_elem? (ticks n ts).0 m ≡ some (runs_at (suc m) (due 0 ts))
unfolding ticks
ticks-runs_at zero ts m s h = absurd (omega arith)
ticks-runs_at (suc n) ts zero s h = ap some (tick-due ts s).0
ticks-runs_at (suc n) ts (suc m) s h =
    ticks-runs_at n (tick ts).1 m (tick-due ts s).1 (omega arith) ∙ ap some ((tick-due ts s).2 m)
