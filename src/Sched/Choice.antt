-- ===== src/Sched/Choice.antt =====
-- The slot that `schedule()` returns.
use linux.Prelude.{
  ℕ, zero, suc, ◌≡◌, refl, ◌⊎◌, inl, inr, [], ◌∷◌, List, Option, none, some, true, false, ℤ, pos,
  negsuc, ◌≤ℤ◌, ◌<ℤ◌, ◌^◌, eqb_ℤ, shr1, eqb_ℤ-eq, +ℤ_parts, subst, Bool-cases, arith,
}
use linux.Task.{Task, Table, is_running}
use linux.Sched.{
  each_task, behind_first, scan, pick, renew, choose, schedule, check_task, ring_alarm,
}
use linux.Sched.{wake_signalled}
use linux.Sched.Pick.{task_at, Found, scan-Found}

-- No runnable task behind the first slot has time left.
abbrev pub NoneReady : Table → Type 0
NoneReady ts =
    (k : ℕ) (t : Task)
    → task_at ts (suc k) ≡ some t
    → is_running t.state ≡ true
    → t.counter ≤ℤ negsuc 0

-- Slot `next` holds a runnable task with time left, and no runnable task has more.
pub record Best (ts : Table) (next : ℕ) : Type 0 where
  pub slot : ℕ
  pub task : Task
  pub behind_idle : next ≡ suc slot
  pub is_there : task_at ts next ≡ some task
  pub runs : is_running task.state ≡ true
  pub positive : pos 1 ≤ℤ task.counter
  pub most :
      (k : ℕ) (t : Task)
      → task_at ts (suc k) ≡ some t
      → is_running t.state ≡ true
      → t.counter ≤ℤ task.counter

abbrev pub Chosen : Table → ℕ → Type 0
Chosen ts next = ((next ≡ 0) × NoneReady ts) ⊎ Best ts next

-- Every task behind the first slot has a positive priority, which is a `long`.
abbrev pub Prioritized : Table → Type 0
Prioritized ts =
    (k : ℕ) (t : Task)
    → task_at ts (suc k) ≡ some t
    → (pos 1 ≤ℤ t.priority) × (t.priority <ℤ pos (2 ^ 31))

-- A table after `each_task f` holds the images of the tasks, in their slots.
pub task_at-each_task :
    (f : Task → Task) (ts : List (Option Task)) (k : ℕ) {u : Task}
    → task_at (each_task f ts) k ≡ some u
    → (t : Task) × (task_at ts k ≡ some t) × (u ≡ f t)
unfolding each_task
task_at-each_task f [] k e = cc
task_at-each_task f (none ∷ ts) zero e = cc
task_at-each_task f (some t ∷ ts) zero e = (t, refl, cc)
task_at-each_task f (none ∷ ts) (suc k) e = task_at-each_task f ts k e
task_at-each_task f (some t ∷ ts) (suc k) e = task_at-each_task f ts k e

pub each_task-task_at :
    (f : Task → Task) (ts : List (Option Task)) (k : ℕ) {t : Task}
    → task_at ts k ≡ some t
    → task_at (each_task f ts) k ≡ some (f t)
unfolding each_task
each_task-task_at f [] k e = cc
each_task-task_at f (none ∷ ts) zero e = cc
each_task-task_at f (some t ∷ ts) zero e = cc
each_task-task_at f (none ∷ ts) (suc k) e = each_task-task_at f ts k e
each_task-task_at f (some t ∷ ts) (suc k) e = each_task-task_at f ts k e

check_priority : (j : ℤ) (t : Task) → (check_task j t).priority ≡ t.priority
unfolding check_task ring_alarm wake_signalled
check_priority j t = ground arith

Prioritized-check :
    (j : ℤ) (ts : Table) → Prioritized ts → Prioritized (behind_first (check_task j) ts)
unfolding behind_first
Prioritized-check j [] h k t e = cc
Prioritized-check j (t₀ ∷ ts) h k u e =
    let (t, p, q) = task_at-each_task (check_task j) ts k e in rw (q, check_priority j t) (h k t p)

-- The choice, once `c` is not 0.
choice :
    (ts : Table) (c : ℤ) (next : ℕ) → pick ts ≡ (c, next) → eqb_ℤ c (pos 0) ≡ false → Chosen ts next
unfolding pick
choice [] c next e ne = inl (cc, λ k t p r. cc)
choice (t₀ ∷ ts) c next e ne = found (rw e at (scan-Found ts 1))
  where
    found : Found ts 1 (c, next) → Chosen (t₀ ∷ ts) next
    found (b, inl z) = inl (z.1, λ k t p r. ground (arith, b k t p r))
    found (b, inr w) = inr (record {
      slot = w.slot;
      task = w.task;
      behind_idle = omega (arith, w.is_next);
      is_there = let p : next ≡ suc w.slot = omega (arith, w.is_next) in rw p w.is_there;
      runs = w.runs;
      positive = ground (arith, w.count, w.nonneg);
      most = λ k t p r. ground (arith, b k t p r, w.count);
    })

-- After a renewal the runnable tasks that were at 0 have time.
renewed :
    (ts : List (Option Task)) (next : ℕ) (c : ℤ) (next' : ℕ)
    → ((k : ℕ) (t : Task)
        → task_at ts k ≡ some t
        → (pos 1 ≤ℤ t.priority) × (t.priority <ℤ pos (2 ^ 31)))
    → Found ts 1 (pos 0, next)
    → Found (each_task renew ts) 1 (c, next')
    → eqb_ℤ c (pos 0) ≡ false
unfolding renew
renewed ts next c next' h (b, inl z) f' = cc (z.0)
renewed ts next c next' h (b, inr w) (b', z) = ground (
  arith,
  b' w.slot (renew w.task) (each_task-task_at renew ts w.slot w.is_there) w.runs,
  (h w.slot w.task w.is_there).0,
  (h w.slot w.task w.is_there).1,
  w.count,
  +ℤ_parts (shr1 w.task.counter) w.task.priority,
)

renewed-pick :
    (t₀ : Option Task) (ts : List (Option Task))
    → Prioritized (t₀ ∷ ts)
    → eqb_ℤ (pick (t₀ ∷ ts)).0 (pos 0) ≡ true
    → eqb_ℤ (pick (behind_first renew (t₀ ∷ ts))).0 (pos 0) ≡ false
unfolding pick behind_first
renewed-pick t₀ ts h e =
    renewed ts _ _ _ h
      (subst (λ c. Found ts 1 (c, (scan ts 1).1)) (eqb_ℤ-eq _ _ e) (scan-Found ts 1))
      (scan-Found (each_task renew ts) 1)

choose-nil : (fuel : ℕ) → choose (suc (suc fuel)) [] ≡ some (0, [])
unfolding choose pick
choose-nil fuel = refl

-- Two rounds are enough.
choose-returns :
    (fuel : ℕ) (ts : Table)
    → Prioritized ts
    → (next : ℕ) × (ts' : Table) × (choose (suc (suc fuel)) ts ≡ some (next, ts'))
      × Chosen ts' next
      × ((ts' ≡ ts) ⊎ (ts' ≡ behind_first renew ts))
unfolding choose
choose-returns fuel [] h = (0, [], choose-nil fuel, inl (refl, λ k t p r. cc), inl refl)
choose-returns fuel (t₀ ∷ ts) h = elim (Bool-cases (eqb_ℤ (pick (t₀ ∷ ts)).0 (pos 0))) [
  | inr ne ↦ ((pick (t₀ ∷ ts)).1, t₀ ∷ ts, rw ne, choice (t₀ ∷ ts) _ _ refl ne, inl refl)
  | inl e ↦
      let ts' = behind_first renew (t₀ ∷ ts) in
      let ne : eqb_ℤ (pick ts').0 (pos 0) ≡ false = renewed-pick t₀ ts h e in
      ((pick ts').1, ts', rw (e, ne), choice ts' _ _ refl ne, inr refl)
]

-- The choice `schedule()` makes, and the table it leaves: the one after the checks of alarms and
-- signals, with every counter renewed or with none.
abbrev pub SchedulesWell : ℕ → ℤ → Table → Type 0
SchedulesWell fuel jiffies ts =
    (next : ℕ) × (ts' : Table) × (schedule fuel jiffies ts ≡ some (next, ts'))
    × Chosen ts' next
    × ((ts' ≡ behind_first (check_task jiffies) ts)
        ⊎ (ts' ≡ behind_first renew (behind_first (check_task jiffies) ts)))

-- `schedule()` returns after at most one renewal of the time slices, when every task behind the
-- first slot has a positive priority, a `long`, whatever the counters. Either it returns slot 0 and no
-- runnable task has time left, or the slot of a runnable task that has time left, and at least as
-- much as any other runnable task, in the table that it leaves. That table is the one after the
-- checks of alarms and signals, with every counter renewed or with none.
pub schedule-Chosen :
    (fuel : ℕ) (jiffies : ℤ) (ts : Table)
    → Prioritized ts
    → SchedulesWell (suc (suc fuel)) jiffies ts
unfolding schedule
schedule-Chosen fuel jiffies ts h =
    choose-returns fuel (behind_first (check_task jiffies) ts) (Prioritized-check jiffies ts h)
