-- ===== src/Cred/Group.antt =====
-- Sessions and process groups: `sys_setpgid` and `sys_setsid`.
use linux.Prelude.{
  ◌≡◌, ◌≢◌, refl, ap, ◌⊎◌, inl, inr, [], ◌∷◌, Option, none, some, false, not, ℤ, pos, negsuc, eqb_ℤ,
  eqb_ℤ-eq, Bool-cases, if◌then◌else◌, arith,
}
use linux.Task.{Task, Table, error, eperm, esrch, suser}
use linux.Cred.{set_pgrp, sys_setpgid, sys_setsid}

-- A leader's session and group bear its pid.
abbrev pub LeadsOwn : Task → Type 0
LeadsOwn t = (t.leader ≡ pos 0) ⊎ ((t.session ≡ t.pid) × (t.pgrp ≡ t.pid))

abbrev pub AllTasks : (Task → Type 0) → Table → Type 0
AllTasks P [] = Unit
AllTasks P (none ∷ ts) = AllTasks P ts
AllTasks P (some t ∷ ts) = P t × AllTasks P ts

-- The first task with the pid.
abbrev pub first_pid : ℤ → Table → Option Task
first_pid pid [] = none
first_pid pid (none ∷ ts) = first_pid pid ts
first_pid pid (some t ∷ ts) = let r = first_pid pid ts in if eqb_ℤ t.pid pid then some t else r

set_pgrp-LeadsOwn :
    (session pid pgid : ℤ) (ts : Table)
    → AllTasks LeadsOwn ts
    → AllTasks LeadsOwn (set_pgrp session pid pgid ts).1
unfolding set_pgrp
set_pgrp-LeadsOwn session pid pgid [] h = tt
set_pgrp-LeadsOwn session pid pgid (none ∷ ts) h = set_pgrp-LeadsOwn session pid pgid ts h
set_pgrp-LeadsOwn session pid pgid (some t ∷ ts) h =
    ground (arith, set_pgrp-LeadsOwn session pid pgid ts h.1, eqb_ℤ-eq t.leader (pos 0))

-- What the caller is told of the first task with the pid.
abbrev pub setpgid_reply : ℤ → Option Task → ℤ
setpgid_reply session none = error esrch
setpgid_reply session (some t) =
    if not (eqb_ℤ t.leader (pos 0))
    then error eperm
    else if eqb_ℤ t.session session
    then pos 0
    else error eperm

set_pgrp-reply :
    (session pid pgid : ℤ) (ts : Table)
    → (set_pgrp session pid pgid ts).0 ≡ setpgid_reply session (first_pid pid ts)
unfolding set_pgrp
set_pgrp-reply session pid pgid [] = refl
set_pgrp-reply session pid pgid (none ∷ ts) = set_pgrp-reply session pid pgid ts
set_pgrp-reply session pid pgid (some t ∷ ts) = ground (arith, set_pgrp-reply session pid pgid ts)

-- Every failure leaves the table as it was.
set_pgrp_failed :
    (session pid pgid : ℤ) (ts : Table)
    → (set_pgrp session pid pgid ts).0 ≢ pos 0
    → (set_pgrp session pid pgid ts).1 ≡ ts
unfolding set_pgrp
set_pgrp_failed session pid pgid [] ne = refl
set_pgrp_failed session pid pgid (none ∷ ts) ne =
    ap (λ l. none ∷ l) (set_pgrp_failed session pid pgid ts ne)
set_pgrp_failed session pid pgid (some t ∷ ts) ne =
    ground (arith, set_pgrp_failed session pid pgid ts)

-- `sys_setpgid` keeps every session leader in its own group and session. What it returns depends on
-- the first task with the pid (the caller's for 0): -ESRCH if there is none, -EPERM for a session
-- leader or a task of another session, and 0 otherwise; unless it returns 0 the table is unchanged.
pub sys_setpgid-LeadsOwn :
    (current : Task) (pid pgid : ℤ) (ts : Table)
    → AllTasks LeadsOwn ts
    → let (r, ts') = sys_setpgid current pid pgid ts in
      AllTasks LeadsOwn ts'
      × (r
          ≡ setpgid_reply current.session
              (first_pid (if eqb_ℤ pid (pos 0) then current.pid else pid) ts))
      × ((r ≡ pos 0) ⊎ (ts' ≡ ts))
unfolding sys_setpgid
sys_setpgid-LeadsOwn current pid pgid ts h =
    let p = if eqb_ℤ pid (pos 0) then current.pid else pid in
    let g = if eqb_ℤ pgid (pos 0) then current.pid else pgid in
    (
      set_pgrp-LeadsOwn current.session p g ts h,
      set_pgrp-reply current.session p g ts,
      elim (Bool-cases (eqb_ℤ (set_pgrp current.session p g ts).0 (pos 0))) [
        | inl z ↦ inl (eqb_ℤ-eq _ _ z)
        | inr nz ↦ inr (set_pgrp_failed current.session p g ts (λ e. ground arith))
      ],
    )

-- `sys_setsid` refuses a leader that is not root; anyone else then leads a session and a group of
-- its own without a terminal, and is told the group.
pub sys_setsid-LeadsOwn :
    (t : Task)
    → LeadsOwn t
    → LeadsOwn (sys_setsid t).1
      × (((sys_setsid t ≡ (error eperm, t)) × (t.leader ≢ pos 0) × (suser t ≡ false))
          ⊎ (((sys_setsid t).0 ≡ (sys_setsid t).1.pgrp)
              × ((sys_setsid t).1.leader ≡ pos 1)
              × ((sys_setsid t).1.session ≡ t.pid)
              × ((sys_setsid t).1.tty ≡ negsuc 0)))
unfolding sys_setsid
sys_setsid-LeadsOwn t h = (ground arith, ground arith)
