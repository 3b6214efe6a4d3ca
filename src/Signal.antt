-- ===== src/Signal.antt =====
-- kernel/exit.c and kernel/signal.c: sending signals, and the signal masks.
-- A scan of `task[]` is a recursion on the slots. The scans that go from the last slot down to the
-- one behind FIRST_TASK handle the higher slots first.
pub mod Kill
pub mod Mask
mod Tests
use linux.Prelude.{
  ℕ, zero, suc, ◌-◌, ◌^◌, List, [], ◌∷◌, Option, none, some, Bool, true, false, not, ◌&&◌, ◌||◌, ℤ,
  pos, negsuc, neg_ℤ, ltb_ℤ, eqb_ℤ, ltb, leb, ◌==◌, if◌then◌else◌,
}
use linux.Prelude.Bits.{bit_not}
use Prim.Native.Nat.{bit_and, bit_or}
use linux.Task.{Task, Table, suser, error, eperm, einval, sig_bit, sighup, sigkill}

-- `p->signal |= 1<<(sig-1)`
abbrev pub raise : ℕ → Task → Task
raise sig t = record t { signal = bit_or t.signal (sig_bit sig) }

-- `1<<(sig-1)` is asked for with sig from 1 to 32 only.
abbrev pub sig_number : ℤ → ℕ
sig_number (pos n) = n
sig_number (negsuc n) = 0

-- The error, 0 if there is none, and the task; `euid` is the sender's.
unfoldable pub send_sig : ℤ → ℕ → Option Task → Bool → ℤ × Option Task
send_sig sig euid none priv = (error einval, none)
send_sig sig euid (some t) priv =
    if ltb_ℤ sig (pos 1) || ltb_ℤ (pos 32) sig
    then (error einval, some t)
    else if priv || euid == t.euid || euid == 0
    then (pos 0, some (raise (sig_number sig) t))
    else (error eperm, some t)

-- `kill_session` on the slots behind FIRST_TASK
unfoldable pub kill_session : ℤ → List (Option Task) → List (Option Task)
kill_session session [] = []
kill_session session (none ∷ ts) = none ∷ kill_session session ts
kill_session session (some t ∷ ts) =
    (if eqb_ℤ t.session session then some (raise sighup t) else some t) ∷ kill_session session ts

-- Which slots a call of `sys_kill` looks at, and whether it may signal any task there.
pub kill_target : ℤ → Task → Option Task → Bool
kill_target pid current none = eqb_ℤ pid (negsuc 0)
kill_target pid current (some t) =
    if eqb_ℤ pid (pos 0)
    then eqb_ℤ t.pgrp current.pid
    else if ltb_ℤ (pos 0) pid
    then eqb_ℤ t.pid pid
    else if eqb_ℤ pid (negsuc 0)
    then true
    else eqb_ℤ t.pgrp (neg_ℤ pid)

-- The four loops of `sys_kill`: `retval` is the error of the lowest slot that had one, since the
-- scan goes down and each error replaces the one before.
pub kill_from : ℤ → ℤ → Task → List (Option Task) → ℤ × List (Option Task)
kill_from pid sig current [] = (pos 0, [])
kill_from pid sig current (t ∷ ts) =
    let (retval, rest) = kill_from pid sig current ts in
    let (err, t') = send_sig sig current.euid t (eqb_ℤ pid (pos 0)) in
    if kill_target pid current t
    then ((if eqb_ℤ err (pos 0) then retval else err), t' ∷ rest)
    else (retval, t ∷ rest)

pub sys_kill : ℤ → ℤ → Task → Table → ℤ × Table
sys_kill pid sig current [] = (pos 0, [])
sys_kill pid sig current (t₀ ∷ ts) =
    let (retval, rest) = kill_from pid sig current ts in (retval, t₀ ∷ rest)

pub sys_sgetmask : Task → ℕ
sys_sgetmask t = t.blocked

-- The old mask, and the task with the new one: SIGKILL cannot be blocked.
pub sys_ssetmask : ℕ → Task → ℕ × Task
sys_ssetmask newmask t =
    (t.blocked, record t { blocked = bit_and newmask (bit_not 32 (sig_bit sigkill)) })
