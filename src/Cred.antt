-- ===== src/Cred.antt =====
-- kernel/sys.c: the system calls that change who a task is: user and group ids, session and process
-- group, break and file mask. `current` is the task they are handed and return.
pub mod Uid
pub mod Group
mod Tests
use linux.Prelude.{
  ℕ, ◌+◌, ◌-◌, ◌%◌, ◌^◌, List, [], ◌∷◌, Option, none, some, Bool, true, false, not, ◌&&◌, ◌||◌, ℤ,
  pos, negsuc, neg_ℤ, ltb_ℤ, eqb_ℤ, ltb, leb, ◌==◌, if◌then◌else◌,
}
use Prim.Native.Nat.{bit_and}
use linux.Task.{Task, Table, suser, error, eperm, esrch}

-- `field == id`, an unsigned short with an int
abbrev pub is_id : ℕ → ℤ → Bool
is_id n z = eqb_ℤ (pos n) z

-- The int as an unsigned short.
abbrev pub short : ℤ → ℕ
short (pos n) = n % 2 ^ 16
short (negsuc n) = 2 ^ 16 - 1 - n % 2 ^ 16

-- The second half of `sys_setregid`, on the effective id.
set_egid : ℤ → Task → ℤ × Task
set_egid egid t =
    if ltb_ℤ (pos 0) egid
    then (if is_id t.gid egid || is_id t.egid egid || is_id t.sgid egid || suser t
        then (pos 0, record t { egid = short egid })
        else (error eperm, t))
    else (pos 0, t)

pub sys_setregid : ℤ → ℤ → Task → ℤ × Task
unfolding set_egid
sys_setregid rgid egid t =
    if ltb_ℤ (pos 0) rgid
    then (if is_id t.gid rgid || suser t
        then set_egid egid (record t { gid = short rgid })
        else (error eperm, t))
    else set_egid egid t

pub sys_setgid : ℤ → Task → ℤ × Task
sys_setgid gid t = sys_setregid gid gid t

-- The second half of `sys_setreuid`, where `old_ruid` is the real id at the call.
set_euid : ℕ → ℤ → Task → ℤ × Task
set_euid old_ruid euid t =
    if ltb_ℤ (pos 0) euid
    then (if is_id old_ruid euid || is_id t.euid euid || suser t
        then (pos 0, record t { euid = short euid })
        else (error eperm, record t { uid = old_ruid }))
    else (pos 0, t)

pub sys_setreuid : ℤ → ℤ → Task → ℤ × Task
unfolding set_euid
sys_setreuid ruid euid t =
    if ltb_ℤ (pos 0) ruid
    then (if is_id t.euid ruid || is_id t.uid ruid || suser t
        then set_euid t.uid euid (record t { uid = short ruid })
        else (error eperm, t))
    else set_euid t.uid euid t

pub sys_setuid : ℤ → Task → ℤ × Task
sys_setuid uid t = sys_setreuid uid uid t

-- `end_data_seg < start_stack - 16384` compares unsigned longs.
pub sys_brk : ℕ → Task → ℕ × Task
sys_brk end_data_seg t =
    if leb t.end_code end_data_seg && ltb end_data_seg ((t.start_stack + 2 ^ 32 - 16384) % 2 ^ 32)
    then (end_data_seg, record t { brk = end_data_seg })
    else (t.brk, t)

pub sys_umask : ℕ → Task → ℕ × Task
sys_umask mask t = (t.umask, record t { umask = bit_and mask 0o777 })

pub sys_setsid : Task → ℤ × Task
sys_setsid t =
    if not (eqb_ℤ t.leader (pos 0)) && not (suser t)
    then (error eperm, t)
    else (t.pid, record t { leader = pos 1; session = t.pid; pgrp = t.pid; tty = negsuc 0 })

-- The loop of `sys_setpgid`: the first task with this pid, the caller being in `session`.
pub set_pgrp : ℤ → ℤ → ℤ → Table → ℤ × Table
set_pgrp session pid pgid [] = (error esrch, [])
set_pgrp session pid pgid (none ∷ ts) =
    let (r, rest) = set_pgrp session pid pgid ts in (r, none ∷ rest)
set_pgrp session pid pgid (some t ∷ ts) =
    let (r, rest) = set_pgrp session pid pgid ts in
    if eqb_ℤ t.pid pid
    then (if not (eqb_ℤ t.leader (pos 0))
        then (error eperm, some t ∷ ts)
        else if not (eqb_ℤ t.session session)
        then (error eperm, some t ∷ ts)
        else (pos 0, some (record t { pgrp = pgid }) ∷ ts))
    else (r, some t ∷ rest)

-- A pid or a group of 0 is the caller's pid.
pub sys_setpgid : Task → ℤ → ℤ → Table → ℤ × Table
sys_setpgid current pid pgid ts =
    set_pgrp current.session (if eqb_ℤ pid (pos 0) then current.pid else pid)
      (if eqb_ℤ pgid (pos 0) then current.pid else pgid) ts
