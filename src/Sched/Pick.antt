-- ===== src/Sched/Pick.antt =====
-- What the scan of `schedule()` finds among the tasks.
use linux.Prelude.{
  ℕ, zero, suc, ◌+◌, ◌≡◌, refl, ◌⊎◌, inl, inr, [], ◌∷◌, Option, none, some, true, false, ℤ, pos,
  negsuc, ◌≤ℤ◌, ◌&&◌, ltb_ℤ, Bool-cases, arith,
}
use linux.Task.{Task, Table, is_running}
use linux.Sched.{better, scan}

-- `*p` of slot `i`, NULL behind the end
abbrev pub task_at : Table → ℕ → Option Task
task_at [] i = none
task_at (t ∷ ts) zero = t
task_at (t ∷ ts) (suc i) = task_at ts i

-- No running task of the slots has a counter above `c`.
abbrev pub Bounds : ℤ → Table → Type 0
Bounds c ts =
    (k : ℕ) (t : Task) → task_at ts k ≡ some t → is_running t.state ≡ true → t.counter ≤ℤ c

-- `next` is a running task with the counter `c`, which is not negative.
pub record Winner (ts : Table) (i : ℕ) (c : ℤ) (next : ℕ) : Type 0 where
  pub slot : ℕ
  pub task : Task
  pub is_next : next ≡ i + slot
  pub is_there : task_at ts slot ≡ some task
  pub runs : is_running task.state ≡ true
  pub count : task.counter ≡ c
  pub nonneg : pos 0 ≤ℤ c

abbrev pub Found : Table → ℕ → ℤ × ℕ → Type 0
Found ts i (c, next) = Bounds c ts × (((c ≡ negsuc 0) × (next ≡ 0)) ⊎ Winner ts i c next)

Winner-cons :
    {ts : Table} {i : ℕ} {c : ℤ} {next : ℕ} (t : Option Task)
    → Winner ts (suc i) c next
    → Winner (t ∷ ts) i c next
Winner-cons t w = record {
  slot = suc w.slot;
  task = w.task;
  is_next = omega (arith, w.is_next);
  is_there = w.is_there;
  runs = w.runs;
  count = w.count;
  nonneg = w.nonneg;
}

Bounds-cons :
    (c : ℤ) (t : Option Task) (ts : Table)
    → ((u : Task) → t ≡ some u → is_running u.state ≡ true → u.counter ≤ℤ c)
    → Bounds c ts
    → Bounds c (t ∷ ts)
Bounds-cons c t ts h b zero u e r = h u e r
Bounds-cons c t ts h b (suc k) u e r = b k u e r

Found-none : (ts : Table) (i : ℕ) (best : ℤ × ℕ) → Found ts (suc i) best → Found (none ∷ ts) i best
Found-none ts i (c, next) (b, inl e) = (Bounds-cons c none ts (λ u e r. cc) b, inl e)
Found-none ts i (c, next) (b, inr w) =
    (Bounds-cons c none ts (λ u e r. cc) b, inr (Winner-cons none w))

Winner-head :
    (t : Task) (ts : Table) (i : ℕ)
    → is_running t.state ≡ true
    → pos 0 ≤ℤ t.counter
    → Winner (some t ∷ ts) i t.counter i
Winner-head t ts i r n = record {
  slot = 0;
  task = t;
  is_next = omega arith;
  is_there = refl;
  runs = r;
  count = refl;
  nonneg = n;
}

-- `c` is never below -1.
Found-ge : {ts : Table} {i : ℕ} {c : ℤ} {next : ℕ} → Found ts i (c, next) → negsuc 0 ≤ℤ c
Found-ge {c} (b, inl e) = ground arith
Found-ge (b, inr w) = let h = w.nonneg in omega arith

Found-better :
    (t : Task) (ts : Table) (i : ℕ) (c : ℤ) (next : ℕ)
    → (is_running t.state && ltb_ℤ c t.counter) ≡ true
    → Found ts (suc i) (c, next)
    → Found (some t ∷ ts) i (t.counter, i)
Found-better t ts i c next e f = (
  Bounds-cons t.counter (some t) ts (λ u p r. ground arith)
      (λ k u p r. ground (arith, f.0 k u p r)),
  inr (Winner-head t ts i (ground arith) (ground (arith, Found-ge f))),
)

Found-kept :
    (t : Task) (ts : Table) (i : ℕ) (c : ℤ) (next : ℕ)
    → (is_running t.state && ltb_ℤ c t.counter) ≡ false
    → Found ts (suc i) (c, next)
    → Found (some t ∷ ts) i (c, next)
Found-kept t ts i c next e (b, inl z) = (Bounds-cons c (some t) ts (λ u p r. ground arith) b, inl z)
Found-kept t ts i c next e (b, inr w) =
    (Bounds-cons c (some t) ts (λ u p r. ground arith) b, inr (Winner-cons (some t) w))

Found-some :
    (t : Task) (ts : Table) (i : ℕ) (best : ℤ × ℕ)
    → Found ts (suc i) best
    → Found (some t ∷ ts) i (better (some t) i best)
unfolding better
Found-some t ts i (c, next) f = elim (Bool-cases (is_running t.state && ltb_ℤ c t.counter)) [
  | inl e ↦ rw e (Found-better t ts i c next e f)
  | inr e ↦ rw e (Found-kept t ts i c next e f)
]

pub scan-Found : (ts : Table) (i : ℕ) → Found ts i (scan ts i)
unfolding scan better
scan-Found [] i = ((λ k u p r. cc), inl (refl, refl))
scan-Found (none ∷ ts) i = Found-none ts i (scan ts (suc i)) (scan-Found ts (suc i))
scan-Found (some t ∷ ts) i = Found-some t ts i (scan ts (suc i)) (scan-Found ts (suc i))
