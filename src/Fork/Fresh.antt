-- ===== src/Fork/Fresh.antt =====
-- The search for a pid ends.
use linux.Prelude.{
  ℕ, zero, suc, ◌+◌, ◌%◌, ◌≤◌, ◌<◌, ◌≡◌, ◌≢◌, refl, sym, ap, subst, ◌∙◌, [], ◌∷◌, Option, none,
  some, false, ℤ, pos, arith, Bool-cases, inl, inr, length, get_elem?,
}
use linux.Task.{Task, Table, nr_tasks, error, eagain}
use linux.Fork.{
  max_pid, bump, in_use, next_pid, empty_slot, behind_first, numbered, find_empty_process,
}
use linux.Fork.Pids.{count, without, Far, bump-mod, in-use_other, count-less}

-- What the search finds: a pid of no task
pub record Fresh (ts : Table) (p : ℕ) : Type 0 where
  pub is_positive : 0 < p
  pub is_long : p ≤ max_pid
  pub unused : in_use p ts ≡ false

bump-Long : (l : ℕ) → l ≤ max_pid → bump l ≤ max_pid
unfolding bump
bump-Long l h = ground arith

bump-positive : (l : ℕ) → 0 < bump l
unfolding bump
bump-positive l = ground arith

-- One more try is one step further.
Far-bump : (p l n : ℕ) → l ≤ max_pid → Far p l (suc n) → Far p (bump l) n
Far-bump p l n h f k kn e =
    let b = bump-mod l h in
    let z : (l + suc k) % max_pid ≡ (bump l + k) % max_pid = omega (arith, b) in
    f (suc k) (omega (arith, kn)) (ap (λ x. x + 1) z ∙ e)

-- A pid that was tried is not tried again soon.
Far-next : (l n : ℕ) → l ≤ max_pid → n < max_pid → Far (bump l) (bump l) n
Far-next l n h m k kn e = let b = bump-mod l h in absurd (omega (arith, b, e, kn, m))

-- Tasks whose pid is not tried may be left out.
next-pid_without :
    (p n l : ℕ) (ts : Table)
    → l ≤ max_pid
    → Far p l n
    → next_pid n l (without p ts) ≡ next_pid n l ts
unfolding next_pid
next-pid_without p zero l ts h f = refl
next-pid_without p (suc n) l ts h f =
    let b = bump-mod l h in
    let d : bump l ≢ p =
      λ e. f 0 (omega arith) (let z : (l + 0) % max_pid + 1 ≡ bump l = omega (arith, b) in z ∙ e) in
    rw
      (
        in-use_other p (bump l) ts d,
        next-pid_without p n (bump l) ts (bump-Long l h) (Far-bump p l n h f),
      )
      refl

-- What is found is no task's.
next-pid-Fresh :
    (n l : ℕ) (ts : Table) (p : ℕ) → l ≤ max_pid → next_pid n l ts ≡ some p → Fresh ts p
unfolding next_pid
next-pid-Fresh zero l ts p h e = absurd (ground arith)
next-pid-Fresh (suc n) l ts p h e = elim (Bool-cases (in_use (bump l) ts)) [
  | inl u ↦ next-pid-Fresh n (bump l) ts p (bump-Long l h) (ground arith)
  | inr u ↦
      let z : bump l ≡ p = ground arith in
      record {
        is_positive = subst (λ q. 0 < q) z (bump-positive l);
        is_long = subst (λ q. q ≤ max_pid) z (bump-Long l h);
        unused = subst (λ q. in_use q ts ≡ false) z u;
      }
]

-- With more tries than tasks, the search ends.
next-pid_ends :
    (n l : ℕ) (ts : Table)
    → l ≤ max_pid
    → n ≤ max_pid
    → count ts < n
    → (p : ℕ) × (next_pid n l ts ≡ some p)
unfolding next_pid
next-pid_ends zero l ts h m c = absurd (omega (arith, c))
next-pid_ends (suc n) l ts h m c = elim (Bool-cases (in_use (bump l) ts)) [
  | inl e ↦
      let less = count-less (bump l) ts e in
      let bl = bump-Long l h in
      let (p, f) = next-pid_ends n (bump l) (without (bump l) ts) bl (omega arith) (omega arith) in
      (
        p,
        rw e (sym (next-pid_without (bump l) n (bump l) ts bl (Far-next l n h (omega arith))) ∙ f),
      )
  | inr e ↦ (bump l, rw e refl)
]

count-length : (ts : Table) → count ts ≤ length ts
count-length [] = ground arith
count-length (none ∷ ts) = let h = count-length ts in omega (arith, h)
count-length (some t ∷ ts) = let h = count-length ts in omega (arith, h)

-- The slot behind the first that is empty, counted from `i` on, or -EAGAIN if none is
pub data Slot (ts : Table) (i : ℕ) : ℤ → Type 0 where
  full : count ts ≡ length ts → Slot ts i (error eagain)
  slot : (k : ℕ) → get_elem? ts k ≡ some none → Slot ts i (pos (i + k))

Slot-cons : (t : Task) (ts : Table) (i : ℕ) (n : ℤ) → Slot ts (i + 1) n → Slot (some t ∷ ts) i n
Slot-cons t ts i _ (full e) = full (ap suc e)
Slot-cons t ts i _ (slot k e) =
    let z : i + suc k ≡ i + 1 + k = omega arith in
    subst (λ n. Slot (some t ∷ ts) i (pos n)) z (slot (suc k) e)

empty_slot-Slot : (i : ℕ) (ts : Table) → Slot ts i (empty_slot i ts)
unfolding empty_slot
empty_slot-Slot i [] = full refl
empty_slot-Slot i (none ∷ ts) =
    let z : i + 0 ≡ i = omega arith in subst (λ n. Slot (none ∷ ts) i (pos n)) z (slot 0 refl)
empty_slot-Slot i (some t ∷ ts) = Slot-cons t ts i _ (empty_slot-Slot (i + 1) ts)

pub data Numbers (ts : Table) : Option (ℤ × ℕ) → Type 0 where
  numbers : (n : ℤ) (p : ℕ) → Slot (behind_first ts) 1 n → Fresh ts p → Numbers ts (some (n, p))

-- `find_empty_process` on a table of at most 64 slots ends, from any `last_pid` that is not
-- negative: the new `last_pid` is positive and no task's pid, and what it returns is an empty slot
-- behind the first, or -EAGAIN if there is none.
pub find_empty_process-Numbers :
    (l : ℕ) (ts : Table) → l ≤ max_pid → length ts ≤ nr_tasks → Numbers ts (find_empty_process l ts)
unfolding find_empty_process numbered
find_empty_process-Numbers l ts h len =
    let c = count-length ts in
    let (p, e) = next-pid_ends (nr_tasks + 1) l ts h (omega arith) (omega (arith, c, len)) in
    subst (λ o. Numbers ts (numbered ts o)) (sym e)
      (numbers _ p (empty_slot-Slot 1 (behind_first ts)) (next-pid-Fresh _ l ts p h e))
