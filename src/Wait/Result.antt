-- ===== src/Wait/Result.antt =====
-- What `sys_waitpid` returns.
use linux.Prelude.{
  ℕ, suc, ◌≡◌, ◌⊎◌, refl, List, ◌∷◌, Option, none, some, Bool, true, false, not, ℤ, pos,
  if◌then◌else◌, set, arith, inl, inr,
}
use linux.Prelude.{◌+ℤ◌}
use linux.Task.{TaskState, zombie, stopped, Task, error, echild}
use linux.Wait.{
  Scan, stopped_child, zombie_child, scanned, wait_scan, Waited, returned, sleeps, wait_end,
  sys_waitpid, no_hang, untraced,
}
use linux.Wait.Child.{Child, Found, NoneEnds, is_stopped, is_live, wait_scan-Found}

-- The four ways a call goes: a zombie, a stopped child, one to wait for, or none.
abbrev pub Outcomes : ℕ → Task → ℤ → ℕ → Option Task → List (Option Task) → Waited → Type 0
Outcomes me current pid options t₀ ts r =
    ((k : ℕ) × (t : Task) × Child me current pid 1 ts k t
      × (t.state ≡ zombie)
      × (r
          ≡ returned t.pid (some t.exit_code) (set (t₀ ∷ ts) (suc k) none) (record current {
            cutime = current.cutime +ℤ t.utime;
            cstime = current.cstime +ℤ t.stime;
          })))
    ⊎ (((k : ℕ) × (t : Task) × Child me current pid 1 ts k t
          × (t.state ≡ stopped)
          × (untraced options ≡ true)
          × (r ≡ returned t.pid (some (pos 0x7f)) (t₀ ∷ ts) current))
        ⊎ ((NoneEnds me current pid (untraced options) 1 ts
              × ((k : ℕ) × (t : Task) × Child me current pid 1 ts k t × (is_live t.state ≡ true))
              × (r ≡ (if no_hang options then returned (pos 0) none (t₀ ∷ ts) current else sleeps)))
            ⊎ (((k : ℕ) (t : Task)
                  → Child me current pid 1 ts k t
                  → (is_stopped t.state ≡ true) × (untraced options ≡ false))
                × (r ≡ returned (error echild) none (t₀ ∷ ts) current))))

if_not : (b : Bool) (x y : Waited) → (if not b then x else y) ≡ (if b then y else x)
if_not true x y = refl
if_not false x y = refl

wait_end-Outcomes :
    (me : ℕ) (current : Task) (pid : ℤ) (options : ℕ) (t₀ : Option Task) (ts : List (Option Task))
    (r : Scan)
    → Found me current pid (untraced options) 1 ts r
    → Outcomes me current pid options t₀ ts (wait_end (not (no_hang options)) (t₀ ∷ ts) current r)
wait_end-Outcomes me current pid options t₀ ts (zombie_child n t) (k, e, c, z) =
    let p : n ≡ suc k = omega arith in inl (k, t, c, z, rw p refl)
wait_end-Outcomes me current pid options t₀ ts (stopped_child p) (k, t, c, s, u, e) =
    inr (inl (k, t, c, s, u, rw e refl))
wait_end-Outcomes me current pid options t₀ ts (scanned true) (none_ends, (k, t, c, l)) = inr (
    inr (
      inl (
        none_ends,
        (k, t, c, l),
        if_not (no_hang options) sleeps (returned (pos 0) none (t₀ ∷ ts) current),
      )))
wait_end-Outcomes me current pid options t₀ ts (scanned false) f = inr (inr (inr (f, refl)))

-- `sys_waitpid` on the children that it is asked for, in the slots behind the first: those whose
-- father is the caller, with the pid `pid` if that is positive, of the caller's group if it is 0, any
-- if it is -1, or of group -pid if it is less. It returns a
-- zombie with its exit code, gives its slot free and adds its times to the caller's; or with
-- WUNTRACED a stopped one with 0x7f; or, with no child of these kinds but one that lives, 0 under
-- WNOHANG and else it sleeps; or -ECHILD, if every such child is stopped and WUNTRACED is not set.
pub sys_waitpid-Outcomes :
    (me : ℕ) (current : Task) (pid : ℤ) (options : ℕ) (t₀ : Option Task) (ts : List (Option Task))
    → Outcomes me current pid options t₀ ts (sys_waitpid me current pid options (t₀ ∷ ts))
unfolding sys_waitpid
sys_waitpid-Outcomes me current pid options t₀ ts =
    wait_end-Outcomes me current pid options t₀ ts
      (wait_scan me current pid (untraced options) 1 ts)
      (wait_scan-Found me current pid (untraced options) 1 ts)

alive : {s : TaskState} → s ≡ stopped → is_live s ≡ true → ⊥
alive e l = let f : false ≡ true = (rw e at l) in cc

-- Without WUNTRACED, a wait for children that are all stopped fails with -ECHILD, even if there is
-- one.
pub sys_waitpid_stopped_fails :
    (me : ℕ) (current : Task) (pid : ℤ) (options : ℕ) (t₀ : Option Task) (ts : List (Option Task))
    → untraced options ≡ false
    → ((k : ℕ) (t : Task) → Child me current pid 1 ts k t → t.state ≡ stopped)
    → sys_waitpid me current pid options (t₀ ∷ ts) ≡ returned (error echild) none (t₀ ∷ ts) current
sys_waitpid_stopped_fails me current pid options t₀ ts u all =
    elim (sys_waitpid-Outcomes me current pid options t₀ ts) [
      | inl (k, t, c, z, e) ↦ let p = all k t c in cc
      | inr (inl (k, t, c, s, v, e)) ↦ cc
      | inr (inr (inl (n, (k, t, c, l), e))) ↦ absurd (alive (all k t c) l)
      | inr (inr (inr (f, e))) ↦ e
    ]
