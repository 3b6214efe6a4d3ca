-- ===== src/Fork/Pids.antt =====
-- The pids that `repeat` tries.
use linux.Prelude.{
  ℕ, suc, ◌+◌, ◌%◌, ◌≤◌, ◌<◌, ◌≡◌, ◌≢◌, refl, [], ◌∷◌, Option, none, some, true, false,
  if◌then◌else◌, pos, eqb_ℤ, arith, Bool-cases, inl, inr,
}
use linux.Task.{Task, Table}
use linux.Fork.{max_pid, bump, has_pid, in_use}

-- The tasks of the table
abbrev pub count : Table → ℕ
count [] = 0
count (none ∷ ts) = count ts
count (some t ∷ ts) = suc (count ts)

-- The table without those of pid `p`
abbrev without_slot : ℕ → Option Task → Option Task
without_slot p t = if has_pid p t then none else t

abbrev pub without : ℕ → Table → Table
without p [] = []
without p (t ∷ ts) = without_slot p t ∷ without p ts

pub bump-mod : (l : ℕ) → l ≤ max_pid → bump l ≡ l % max_pid + 1
unfolding bump
bump-mod l h = ground arith

-- The next n tries from `l` on are other than `p`.
abbrev pub Far : ℕ → ℕ → ℕ → Type 0
Far p l n = (k : ℕ) → k < n → (l + k) % max_pid + 1 ≢ p

has-pid_other : (p q : ℕ) (t : Option Task) → q ≢ p → has_pid q (without_slot p t) ≡ has_pid q t
has-pid_other p q none d = refl
has-pid_other p q (some t) d = elim (Bool-cases (eqb_ℤ t.pid (pos p))) [
  | inl e ↦ let z : eqb_ℤ t.pid (pos q) ≡ false = ground arith in rw (e, z) refl
  | inr e ↦ rw e refl
]

pub in-use_other : (p q : ℕ) (ts : Table) → q ≢ p → in_use q (without p ts) ≡ in_use q ts
unfolding in_use
in-use_other p q [] d = refl
in-use_other p q (t ∷ ts) d = rw (has-pid_other p q t d, in-use_other p q ts d) refl

count-without : (p : ℕ) (ts : Table) → count (without p ts) ≤ count ts
count-without p [] = ground arith
count-without p (none ∷ ts) = count-without p ts
count-without p (some t ∷ ts) =
    let h = count-without p ts in
    elim (Bool-cases (eqb_ℤ t.pid (pos p))) [
      | inl e ↦ rw e (omega (arith, h))
      | inr e ↦ rw e (omega (arith, h))
    ]

pub count-less : (p : ℕ) (ts : Table) → in_use p ts ≡ true → count (without p ts) < count ts
unfolding in_use
count-less p [] u = ground arith
count-less p (none ∷ ts) u = count-less p ts u
count-less p (some t ∷ ts) u =
    let h = count-without p ts in
    elim (Bool-cases (eqb_ℤ t.pid (pos p))) [
      | inl e ↦ rw e (omega (arith, h))
      | inr e ↦ let k = count-less p ts (ground arith) in rw e (omega (arith, k))
    ]
