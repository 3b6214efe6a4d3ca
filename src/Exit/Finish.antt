-- ===== src/Exit/Finish.antt =====
-- What `do_exit` does after the files were closed.
use linux.Prelude.{
  ℕ, ◌<◌, ◌≡◌, ◌≢◌, refl, ap, ◌∙◌, inl, inr, Option, none, some, Bool, true, false, not, ◌&&◌, ◌||◌,
  ◌==◌, leb, if◌then◌else◌, ◌⊎◌, ℤ, pos, ltb_ℤ, eqb_ℤ, eqb_ℤ-eq, set, length, length-set, get_or,
  pos_part, arith, Bool-cases,
}
use linux.Prelude.Outcome.{Outcome, ok}
use linux.Task.{zombie, Task, Table}
use linux.Exit.{Machine, release_task, tell_scan, told, tell_father}
use linux.Exit.Adopt.{slot, slot-set, notified}
use linux.Exit.Told.{has_pid, hung, Finds, nobody, found, tell_scan-Finds}

-- What the end of the leader `t` of a session does to slot `k`
unfoldable pub hangs_up : Task → ℕ → Option Task → Option Task
hangs_up t k o = if eqb_ℤ t.leader (pos 0) || (k == 0) then o else hung t.session o

-- The terminal of a leader has no process group any more, and the coprocessor is nobody's if it was
-- that of slot `me`.
pub record IsReleased (t : Task) (me : ℕ) (m m' : Machine) : Type 0 where
  pub terminal :
      (n : ℕ)
      → m'.tty_pgrp n ≡ (
          if not (eqb_ℤ t.leader (pos 0)) && not (ltb_ℤ t.tty (pos 0))
          then (if n == pos_part t.tty then pos 0 else m.tty_pgrp n)
          else m.tty_pgrp n)
  pub math : m.last_task_used_math ≡ some me → m'.last_task_used_math ≡ none
  pub other_math : m.last_task_used_math ≢ some me → m'.last_task_used_math ≡ m.last_task_used_math

-- A dead task, with what it returned and with no inode or file
pub record IsZombie (code : ℤ) (t : Task) : Type 0 where
  pub state : t.state ≡ zombie
  pub exit_code : t.exit_code ≡ code
  pub pwd : t.pwd ≡ none
  pub root : t.root ≡ none
  pub executable : t.executable ≡ none
  pub filp : (k : ℕ) → k < 20 → get_or t.filp k none ≡ none

-- Slot `me` gives itself up if no task has the id `father`, and is a zombie if one has, the first of
-- which gets SIGCHLD. Otherwise slot `k` is `w k`.
pub data IsLeft (code father : ℤ) (me : ℕ) (w : ℕ → Option Task) (before after : Table)
    : Type 0 where
  gone :
      (father ≡ pos 0) ⊎ ((k : ℕ) → k < 64 → has_pid father (slot before k) ≡ false)
      → slot after me ≡ none
      → ((k : ℕ) → k < 64 → k ≢ me → slot after k ≡ w k)
      → IsLeft code father me w before after
  father_told :
      (j : ℕ) (z : Task)
      → j < 64
      → has_pid father (slot before j) ≡ true
      → ((k : ℕ) → k < j → has_pid father (slot before k) ≡ false)
      → slot after me ≡ some z
      → IsZombie code z
      → ((k : ℕ) → k < 64 → k ≢ me → slot after k ≡ notified (k == j) (w k))
      → IsLeft code father me w before after

pub record Leaves (code father : ℤ) (me : ℕ) (w : ℕ → Option Task) (before : Table)
    (r : Outcome Table) : Type 0 where
  pub after : Table
  pub ends : r ≡ ok after
  pub full : length after ≡ 64
  pub left : IsLeft code father me w before after

released :
    (code father : ℤ) (me : ℕ) (ts : Table)
    → 0 < me
    → me < 64
    → length ts ≡ 64
    → (father ≡ pos 0) ⊎ ((k : ℕ) → k < 64 → has_pid father (slot ts k) ≡ false)
    → Leaves code father me (slot ts) ts (release_task me ts)
unfolding release_task
released code father me ts p h l f =
    let a : ((me == 0) || leb 64 me) ≡ false = ground arith in
    let b : (me == me) ≡ true = ground arith in
    rw a (record {
      after = set ts me none;
      ends = refl;
      full = length-set ts me none ∙ l;
      left =
          gone f
            (slot-set ts me me none (omega (arith, l, h))
              ∙ ap (λ c. if c then none else slot ts me) b)
            (λ k kl n.
              let e : (k == me) ≡ false = ground arith in
              slot-set ts me k none (omega (arith, l, h))
              ∙ ap (λ c. if c then none else slot ts k) e);
    })

notified-IsZombie :
    (code : ℤ) (b : Bool) (z : Task)
    → IsZombie code z
    → (z' : Task) × (notified b (some z) ≡ some z') × IsZombie code z'
notified-IsZombie code false z i = (z, refl, i)
notified-IsZombie code true z i = (
  _,
  refl,
  record {
    state = i.state;
    exit_code = i.exit_code;
    pwd = i.pwd;
    root = i.root;
    executable = i.executable;
    filp = i.filp;
  },
)

pub tell_father-Leaves :
    (code father : ℤ) (me : ℕ) (z : Task) (ts : Table)
    → 0 < me
    → me < 64
    → length ts ≡ 64
    → slot ts me ≡ some z
    → IsZombie code z
    → Leaves code father me (slot ts) ts (tell_father me father ts)
unfolding tell_father told
tell_father-Leaves code father me z ts p h l s i = elim (Bool-cases (eqb_ℤ father (pos 0))) [
  | inl e ↦ rw e (released code father me ts p h l (inl (eqb_ℤ-eq father (pos 0) e)))
  | inr e ↦ rw e (scanned (tell_scan father ts) (tell_scan-Finds father ts))
]
  where
    scanned :
        (r : Option Table) → Finds father ts r → Leaves code father me (slot ts) ts (told me ts r)
    scanned _ (nobody n) = released code father me ts p h l (inr (λ k kl. n k))
    scanned _ (found j ts' jl y first n each) =
        let (z', e, i') = notified-IsZombie code (me == j) z i in
        record {
          after = ts';
          ends = refl;
          full = n ∙ l;
          left =
              father_told j z' (omega (arith, jl, l)) y first
                (each me ∙ ap (notified (me == j)) s ∙ e) i' (λ k kl ne. each k);
        }
