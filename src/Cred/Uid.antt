-- ===== src/Cred/Uid.antt =====
-- `sys_setreuid` and `sys_setregid`: the user and group ids of a task.
use linux.Prelude.{
  ℕ, ◌^◌, ◌<◌, ◌≡◌, ◌≢◌, refl, ◌⊎◌, inl, inr, List, [], ◌∷◌, Bool, not, ◌&&◌, ◌||◌, ℤ, pos, ltb_ℤ,
  if◌then◌else◌, arith,
}
use linux.Task.{Task, suser, error, eperm}
use linux.Cred.{is_id, short, sys_setreuid, sys_setregid}

-- The ids are unsigned shorts.
pub record HasShorts (t : Task) : Type 0 where
  pub uid_in : t.uid < 2 ^ 16
  pub euid_in : t.euid < 2 ^ 16
  pub gid_in : t.gid < 2 ^ 16
  pub egid_in : t.egid < 2 ^ 16
  pub sgid_in : t.sgid < 2 ^ 16

-- An id that is not positive asks for no change.
abbrev pub asked : ℤ → ℕ → ℕ
asked id old = if ltb_ℤ (pos 0) id then short id else old

-- May the task take on these user ids? Each is its real or its effective id, or it is super-user.
abbrev pub may_setreuid : ℤ → ℤ → Task → Bool
may_setreuid ruid euid t =
    suser t
    || ((not (ltb_ℤ (pos 0) ruid) || is_id t.uid ruid || is_id t.euid ruid)
        && (not (ltb_ℤ (pos 0) euid) || is_id t.uid euid || is_id t.euid euid))

-- These group ids? The real one is its real id, the effective one its real, effective or saved id.
abbrev pub may_setregid : ℤ → ℤ → Task → Bool
may_setregid rgid egid t =
    suser t
    || ((not (ltb_ℤ (pos 0) rgid) || is_id t.gid rgid)
        && (not (ltb_ℤ (pos 0) egid) || is_id t.gid egid || is_id t.egid egid || is_id t.sgid egid))

-- `sys_setreuid` changes both ids as asked and returns 0 if the super-user asks or each positive id
-- asked for is the caller's real or effective one; otherwise it returns -EPERM and changes nothing.
-- An id that is 0 or negative asks for no change.
pub sys_setreuid_lem :
    (ruid euid : ℤ) (t : Task)
    → HasShorts t
    → sys_setreuid ruid euid t ≡ (
        if may_setreuid ruid euid t
        then (pos 0, record t { uid = asked ruid t.uid; euid = asked euid t.euid })
        else (error eperm, t))
unfolding sys_setreuid
sys_setreuid_lem ruid euid t s = ground arith

-- `sys_setregid` changes both ids as asked and returns 0 if the super-user asks, or the real id asked
-- for is the caller's real one and the effective id asked for its real, effective or saved one,
-- as far as they are positive; otherwise it returns -EPERM and changes nothing.
pub sys_setregid_lem :
    (rgid egid : ℤ) (t : Task)
    → HasShorts t
    → sys_setregid rgid egid t ≡ (
        if may_setregid rgid egid t
        then (pos 0, record t { gid = asked rgid t.gid; egid = asked egid t.egid })
        else (error eperm, t))
unfolding sys_setregid
sys_setregid_lem rgid egid t s = ground arith

-- A sequence of `sys_setreuid` calls; `sys_setuid` is one with both ids equal.
pub setreuids : List (ℤ × ℤ) → Task → Task
setreuids [] t = t
setreuids ((ruid, euid) ∷ cs) t = setreuids cs (sys_setreuid ruid euid t).1

-- The user ids of `t` are among those of `from`, and the effective one is not root's.
pub record IsConfined (from t : Task) : Type 0 where
  pub uid_from : (t.uid ≡ from.uid) ⊎ (t.uid ≡ from.euid)
  pub euid_from : (t.euid ≡ from.uid) ⊎ (t.euid ≡ from.euid)
  pub not_root : t.euid ≢ 0
  pub uid_word : t.uid < 2 ^ 16
  pub euid_word : t.euid < 2 ^ 16

sys_setreuid-IsConfined :
    (ruid euid : ℤ) (from t : Task)
    → IsConfined from t
    → IsConfined from (sys_setreuid ruid euid t).1
unfolding sys_setreuid
sys_setreuid-IsConfined ruid euid from t c = ground arith

setreuids-from :
    (cs : List (ℤ × ℤ)) (from t : Task) → IsConfined from t → IsConfined from (setreuids cs t)
unfolding setreuids
setreuids-from [] from t c = c
setreuids-from ((ruid, euid) ∷ cs) from t c =
    setreuids-from cs from (sys_setreuid ruid euid t).1 (sys_setreuid-IsConfined ruid euid from t c)

-- Whatever sequence of `sys_setreuid` calls a task makes whose effective user is not root, its real
-- and its effective id stay among the two that it had, and it never becomes root, not even if root
-- is its real user, since an id of 0 asks for no change.
pub setreuids-IsConfined :
    (cs : List (ℤ × ℤ)) (t : Task) → HasShorts t → t.euid ≢ 0 → IsConfined t (setreuids cs t)
setreuids-IsConfined cs t s ne = setreuids-from cs t t (record {
  uid_from = inl refl;
  euid_from = inr refl;
  not_root = ne;
  uid_word = s.uid_in;
  euid_word = s.euid_in;
})
