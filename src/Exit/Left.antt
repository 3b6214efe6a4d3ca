-- ===== src/Exit/Left.antt =====
-- The table when `do_exit` has closed the files, and what is left of it.
use linux.Prelude.{
  ℕ, zero, suc, ◌+◌, ◌<◌, ◌≡◌, ◌≢◌, refl, sym, ap, ◌∙◌, subst, inl, inr, Option, none, some, Bool,
  true, false, ◌&&◌, ◌==◌, if◌then◌else◌, ℤ, pos, eqb_ℤ, eqb_ℤ-eq, set, length, length-set, arith,
  Bool-cases,
}
use linux.Task.{Task, Table}
use linux.Files.{Files}
use linux.Files.Calls.{bare}
use linux.Exit.{adopt, Machine}
use linux.Exit.Told.{has_pid}
use linux.Exit.Finish.{hangs_up, IsLeft, gone, father_told}
use linux.Exit.Dropped.{hangs_up-some, hangs_up-none, IsLeft-of}
use linux.Exit.Adopt.{
  slot, slot-set, to_init, adopted, notified, dead_children, length-adopt_task, adopt_lem,
}

pub has_father : ℤ → Option Task → Bool
has_father pid none = false
has_father pid (some t) = eqb_ℤ t.father pid

new_father : (pid f : ℤ) → pid ≢ pos 1 → eqb_ℤ (if eqb_ℤ f pid then pos 1 else f) pid ≡ false
new_father pid f n = elim (Bool-cases (eqb_ℤ f pid)) [
  | inr e ↦ rw (e, e) refl
  | inl e ↦ rw e (elim (Bool-cases (eqb_ℤ (pos 1) pid)) [
    | inl h ↦ absurd (n (sym (eqb_ℤ-eq (pos 1) pid h)))
    | inr h ↦ h
  ])
]

-- Process 1 has them now.
moved :
    (pid : ℤ) (b : Bool) (o : Option Task)
    → pid ≢ pos 1
    → has_father pid (notified b (adopted pid true o)) ≡ false
unfolding has_father
moved pid b none n = refl
moved pid true (some t) n = new_father pid t.father n
moved pid false (some t) n = new_father pid t.father n

pub length-adopt :
    (euid : ℕ) (pid : ℤ) (n i : ℕ) (ts : Table) → length (adopt euid pid n i ts) ≡ length ts
unfolding adopt
length-adopt euid pid zero i ts = refl
length-adopt euid pid (suc n) i ts =
    length-adopt euid pid n (i + 1) _ ∙ length-adopt_task euid pid i (slot ts i) ts

pub notified-some :
    (b : Bool) (pid : ℤ) (t : Task)
    → (n : ℕ) × (notified b (adopted pid true (some t))
        ≡ some (record (to_init pid t) { signal = n }))
notified-some true pid t = (_, refl)
notified-some false pid t = (t.signal, refl)

has_pid-notified :
    (pid : ℤ) (b : Bool) (child : ℤ) (o : Option Task)
    → has_pid pid (notified b (adopted child true o)) ≡ has_pid pid o
unfolding has_pid
has_pid-notified pid b child none = refl
has_pid-notified pid true child (some t) = refl
has_pid-notified pid false child (some t) = refl

has_father-notified :
    (pid : ℤ) (b : Bool) (o : Option Task) → has_father pid (notified b o) ≡ has_father pid o
unfolding has_father
has_father-notified pid b none = refl
has_father-notified pid true (some t) = refl
has_father-notified pid false (some t) = refl

has_father-hangs_up :
    (t : Task) (pid : ℤ) (k : ℕ) (o : Option Task)
    → has_father pid (hangs_up t k o) ≡ has_father pid o
unfolding has_father
has_father-hangs_up t pid k none = ap (has_father pid) (hangs_up-none t k)
has_father-hangs_up t pid k (some u) = let (n, e) = hangs_up-some t u k in ap (has_father pid) e

-- Slot `k` of another task before the father is told: the children of `t` are with process 1 now,
-- which knows of the dead ones, and a leader's session hangs up.
pub remains : Task → Table → ℕ → Option Task
remains t ts k =
    hangs_up t k
      (notified ((k == 1) && dead_children t.pid 64 0 ts) (adopted t.pid true (slot ts k)))

-- Nobody else is a child of `t`.
pub IsLeft-orphaned :
    (code father : ℤ) (t : Task) (me : ℕ) (ts after : Table) (k : ℕ)
    → t.pid ≢ pos 1
    → IsLeft code father me (remains t ts) ts after
    → k < 64
    → k ≢ me
    → has_father t.pid (slot after k) ≡ false
unfolding remains
IsLeft-orphaned code father t me ts after k n (gone f e s) l ne =
    ap (has_father t.pid) (s k l ne)
    ∙ has_father-hangs_up t t.pid k _
    ∙ moved t.pid ((k == 1) && dead_children t.pid 64 0 ts) (slot ts k) n
IsLeft-orphaned code father t me ts after k n (father_told j z jl y f e i s) l ne =
    ap (has_father t.pid) (s k l ne)
    ∙ has_father-notified t.pid (k == j) _
    ∙ has_father-hangs_up t t.pid k _
    ∙ moved t.pid ((k == 1) && dead_children t.pid 64 0 ts) (slot ts k) n

module _ (code : ℤ) (me : ℕ) (m : Machine) (t : Task) (others : ℕ → ℕ) (n : ℕ) (f : Files)
    (h : me < 64) (l : length m.table ≡ 64) (s : slot m.table me ≡ some t)
    (same : bare f.current ≡ bare (record (to_init t.pid t) { signal = n })) where
  -- The table before `finish`
  abbrev pub bare_task : Task
  bare_task = record (f.current) { pwd = none; root = none; executable = none }

  abbrev pub dropped_table : Table
  dropped_table = set (adopt t.euid t.pid 64 0 m.table) me (some bare_task)

  pub length-dropped_table : length dropped_table ≡ 64
  length-dropped_table = length-set _ me _ ∙ length-adopt t.euid t.pid 64 0 m.table ∙ l

  dropped_slot :
      (k : ℕ)
      → slot dropped_table k
        ≡ (if k == me then some bare_task else slot (adopt t.euid t.pid 64 0 m.table) k)
  dropped_slot k =
      let size = length-adopt t.euid t.pid 64 0 m.table in
      slot-set (adopt t.euid t.pid 64 0 m.table) me k (some bare_task) (omega (arith, l, h, size))

  pub dropped_me : slot dropped_table me ≡ some bare_task
  dropped_me =
      let e : (me == me) ≡ true = ground arith in
      dropped_slot me
      ∙ ap (λ c. if c then some bare_task else slot (adopt t.euid t.pid 64 0 m.table) me) e

  dropped_other :
      (k : ℕ)
      → k < 64
      → k ≢ me
      → slot dropped_table k
        ≡ notified
            ((k == 1) && dead_children t.pid 64 0 m.table)
            (adopted t.pid true (slot m.table k))
  dropped_other k kl ne =
      let e : (k == me) ≡ false = ground arith in
      dropped_slot k
      ∙ ap (λ c. if c then some bare_task else slot (adopt t.euid t.pid 64 0 m.table) k) e
      ∙ adopt_lem t.euid t.pid m.table k l kl

  dropped_pid :
      (pid : ℤ) (k : ℕ) → k < 64 → has_pid pid (slot dropped_table k) ≡ has_pid pid (slot m.table k)
  unfolding has_pid
  dropped_pid pid k kl = elim (Bool-cases (k == me)) [
    | inl e ↦
        let w : k ≡ me = ground arith in
        ap (λ k. has_pid pid (slot dropped_table k)) w
        ∙ ap (has_pid pid) dropped_me
        ∙ ap (λ x. eqb_ℤ x.pid pid) same
        ∙ ap (has_pid pid) (sym s)
        ∙ ap (λ k. has_pid pid (slot m.table k)) (sym w)
    | inr e ↦
        ap (has_pid pid) (dropped_other k kl (λ w. ground arith))
        ∙ has_pid-notified pid _ t.pid (slot m.table k)
  ]

  pub dropped_left :
      (after : Table)
      → IsLeft code bare_task.father me
          (λ k. hangs_up bare_task k (slot dropped_table k))
          dropped_table
          after
      → IsLeft code (to_init t.pid t).father me (remains t m.table) m.table after
  unfolding remains hangs_up
  dropped_left after x =
      subst (λ p. IsLeft code p me (remains t m.table) m.table after) (ap (λ x. x.father) same)
        (IsLeft-of code f.current.father me _ _ m.table dropped_table after
          (λ k kl. dropped_pid f.current.father k kl)
          (λ k kl ne.
            ap (hangs_up bare_task k) (dropped_other k kl ne)
            ∙ ap
                (λ x. hangs_up x k (
                  notified ((k == 1) && dead_children t.pid 64 0 m.table)
                    (adopted t.pid true (slot m.table k))))
                same)
          x)
