-- ===== src/Sched/Slices.antt =====
-- The time slices, in `schedule()` and `sys_nice`.
use linux.Prelude.{
  ℕ, zero, suc, ◌≡◌, inl, inr, ◌⊎◌, subst, [], ◌∷◌, some, ℤ, pos, ◌≤ℤ◌, ◌<ℤ◌, ◌^◌, ◌+ℤ◌, ◌-ℤ◌, shr1,
  eqb_ℤ, +ℤ_parts, Bool-cases, arith,
}
use linux.Task.{Task, Table}
use linux.Sched.{
  behind_first, pick, renew, choose, schedule, check_task, ring_alarm, wake_signalled, sys_nice,
}
use linux.Sched.Pick.{task_at}
use linux.Sched.Choice.{task_at-each_task, Prioritized, schedule-Chosen}

-- The counter is between 0 and twice the priority, which is positive and below 2^30.
pub record IsSliced (t : Task) : Type 0 where
  pub positive : pos 1 ≤ℤ t.priority
  pub small : t.priority <ℤ pos (2 ^ 30)
  pub nonneg : pos 0 ≤ℤ t.counter
  pub most : t.counter ≤ℤ t.priority +ℤ t.priority

-- It is so for every task behind the first slot.
abbrev pub AllSliced : Table → Type 0
AllSliced ts = (k : ℕ) (t : Task) → task_at ts (suc k) ≡ some t → IsSliced t

check_task-IsSliced : (j : ℤ) (t : Task) → IsSliced t → IsSliced (check_task j t)
unfolding check_task ring_alarm wake_signalled
check_task-IsSliced j t s = ground arith

renew-IsSliced : (t : Task) → IsSliced t → IsSliced (renew t)
unfolding renew
renew-IsSliced t s =
    ground (arith, +ℤ_parts (shr1 t.counter) t.priority, +ℤ_parts t.priority t.priority)

behind_first-AllSliced :
    (f : Task → Task) (ts : Table)
    → ((t : Task) → IsSliced t → IsSliced (f t))
    → AllSliced ts
    → AllSliced (behind_first f ts)
unfolding behind_first
behind_first-AllSliced f [] h s k t e = cc
behind_first-AllSliced f (t₀ ∷ ts) h s k u e =
    let (t, p, q) = task_at-each_task f ts k e in rw q (h t (s k t p))

choose-AllSliced :
    (fuel : ℕ) (ts : Table) {next : ℕ} {ts' : Table}
    → AllSliced ts
    → choose fuel ts ≡ some (next, ts')
    → AllSliced ts'
unfolding choose
choose-AllSliced zero ts s e = cc
choose-AllSliced (suc fuel) ts {next} {ts'} s e = elim (Bool-cases (eqb_ℤ (pick ts).0 (pos 0))) [
  | inl z ↦
      choose-AllSliced fuel (behind_first renew ts)
        (behind_first-AllSliced renew ts renew-IsSliced s) (rw z at e)
  | inr nz ↦
      let q : some ((pick ts).1, ts) ≡ some (next, ts') = rw nz at e in subst AllSliced (cc q) s
]

sliced_after :
    (fuel : ℕ) (jiffies : ℤ) (ts : Table) {next : ℕ} {ts' : Table}
    → AllSliced ts
    → schedule fuel jiffies ts ≡ some (next, ts')
    → AllSliced ts'
unfolding schedule
sliced_after fuel jiffies ts s e =
    choose-AllSliced fuel (behind_first (check_task jiffies) ts)
      (behind_first-AllSliced (check_task jiffies) ts (check_task-IsSliced jiffies) s) e

Prioritized-of_AllSliced : (ts : Table) → AllSliced ts → Prioritized ts
Prioritized-of_AllSliced ts s k t e =
    let r = s k t e in let a = r.positive in let b = r.small in (a, omega (arith, b))

-- If the counter of every task behind the first slot is between 0 and twice its priority, which is
-- positive and below 2^30, then `schedule()` returns after at most one renewal, and so it is in the
-- table that it leaves.
pub schedule-AllSliced :
    (fuel : ℕ) (jiffies : ℤ) (ts : Table)
    → AllSliced ts
    → (next : ℕ) × (ts' : Table) × (schedule (suc (suc fuel)) jiffies ts ≡ some (next, ts'))
      × AllSliced ts'
schedule-AllSliced fuel jiffies ts s =
    let (next, ts', e, c, w) = schedule-Chosen fuel jiffies ts (Prioritized-of_AllSliced ts s) in
    (next, ts', e, sliced_after (suc (suc fuel)) jiffies ts s e)

-- `sys_nice` keeps a positive priority positive, and lowers it by `increment` or not at all.
pub sys_nice_priority :
    (increment : ℤ) (t : Task)
    → pos 1 ≤ℤ t.priority
    → (pos 1 ≤ℤ (sys_nice increment t).1.priority)
      × (((sys_nice increment t).1.priority ≡ t.priority -ℤ increment)
          ⊎ ((sys_nice increment t).1.priority ≡ t.priority))
unfolding sys_nice
sys_nice_priority increment t h = (ground arith, ground arith)
