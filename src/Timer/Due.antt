-- ===== src/Timer/Due.antt =====
-- The timer list read as due times, counted in ticks from now.
use linux.Prelude.{ℕ, ◌+◌, ◌≤◌, ◌<◌, ◌≡◌, refl, ap₂, List, [], ◌∷◌, ◌==◌, if◌then◌else◌, arith}
use linux.Timer.{Timer}

-- Each function with the tick at which it is due, the ticks counted from `b`.
abbrev pub due : ℕ → List Timer → List (ℕ × ℕ)
due b [] = []
due b (t ∷ ts) = (b + t.jiffies, t.fn) ∷ due (b + t.jiffies) ts

-- The functions due at tick m, in order.
abbrev pub runs_at : ℕ → List (ℕ × ℕ) → List ℕ
runs_at m [] = []
runs_at m ((n, f) ∷ r) = let rest = runs_at m r in if n == m then f ∷ rest else rest

-- The same functions, c ticks later.
abbrev pub delay : ℕ → List (ℕ × ℕ) → List (ℕ × ℕ)
delay c [] = []
delay c ((n, f) ∷ r) = (n + c, f) ∷ delay c r

-- Every entry waits at least one tick after the one before it.
abbrev pub IsSpaced : List Timer → Type 0
IsSpaced [] = Unit
IsSpaced (t ∷ ts) = (0 < t.jiffies) × IsSpaced ts

pub delay-due : (c b b' : ℕ) (ts : List Timer) → b' ≡ b + c → delay c (due b ts) ≡ due b' ts
delay-due c b b' [] e = refl
delay-due c b b' (t ∷ ts) e =
    ap₂ ◌∷◌ (ground arith) (delay-due c (b + t.jiffies) (b' + t.jiffies) ts (omega arith))

pub runs_at-delay :
    (c m m' : ℕ) (r : List (ℕ × ℕ)) → m' ≡ m + c → runs_at m' (delay c r) ≡ runs_at m r
runs_at-delay c m m' [] e = refl
runs_at-delay c m m' ((n, f) ∷ r) e = ground (arith, runs_at-delay c m m' r e)

-- Nothing runs before the first entry is due.
pub runs_at_early : (m b : ℕ) (ts : List Timer) → IsSpaced ts → m ≤ b → runs_at m (due b ts) ≡ []
runs_at_early m b [] s h = refl
runs_at_early m b (t ∷ ts) s h = ground (arith, runs_at_early m (b + t.jiffies) ts s.1)
