-- ===== src/Cred/Tests.antt =====
-- Calls of an ordinary task and of a session leader, and the theorems there.
use linux.Prelude.{
  ◌≡◌, ◌⊎◌, inl, inr, refl, [], ◌∷◌, none, some, pos, negsuc, if◌then◌else◌, eqb_ℤ, arith,
}
use linux.Task.{Task, Table, init_task, error, esrch}
use linux.Cred.{sys_setreuid, sys_setpgid, set_pgrp, sys_umask}
use linux.Cred.Uid.{HasShorts, setreuids, IsConfined, setreuids-IsConfined}
use linux.Cred.Group.{LeadsOwn, AllTasks, setpgid_reply, first_pid, sys_setpgid-LeadsOwn}

-- root's program run for user 7
abbrev user : Task
user = record init_task { pid = pos 5; uid = 0; euid = 7; gid = 2; egid = 3; sgid = 4 }

abbrev leader : Task
leader = record init_task { pid = pos 9; leader = pos 1; session = pos 9; pgrp = pos 9 }

abbrev table : Table
table = some init_task ∷ none ∷ some leader ∷ some user ∷ []

user-HasShorts : HasShorts user
user-HasShorts = omega arith

swap_ids : sys_setreuid (pos 7) (negsuc 0) user ≡ (pos 0, record user { uid = 7 })
unfolding sys_setreuid
swap_ids = refl

umask_old : (sys_umask 0o1027 user).0 ≡ 0o22
unfolding sys_umask
umask_old = refl

no_such_pid : (sys_setpgid user (pos 77) (pos 0) table).0 ≡ error esrch
unfolding sys_setpgid set_pgrp
no_such_pid = refl

setreuids-IsConfined_example :
    IsConfined user (setreuids ((pos 7, pos 0) ∷ (pos 0, pos 12) ∷ []) user)
setreuids-IsConfined_example =
    setreuids-IsConfined ((pos 7, pos 0) ∷ (pos 0, pos 12) ∷ []) user user-HasShorts
      (λ e. absurd (omega arith))

table-LeadsOwn : AllTasks LeadsOwn table
table-LeadsOwn = (inl refl, (inr (refl, refl), (inl refl, tt)))

sys_setpgid-LeadsOwn_example :
    let (r, ts') = sys_setpgid leader (pos 5) (pos 9) table in
    AllTasks LeadsOwn ts'
    × (r ≡ setpgid_reply (pos 9) (first_pid (if eqb_ℤ (pos 5) (pos 0) then pos 9 else pos 5) table))
    × ((r ≡ pos 0) ⊎ (ts' ≡ table))
sys_setpgid-LeadsOwn_example = sys_setpgid-LeadsOwn leader (pos 5) (pos 9) table table-LeadsOwn
