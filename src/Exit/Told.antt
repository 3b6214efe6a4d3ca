-- ===== src/Exit/Told.antt =====
-- Whom `kill_session` and `tell_father` signal.
use linux.Prelude.{
  ℕ, zero, suc, ◌<◌, ◌≡◌, refl, ap, inl, inr, [], ◌∷◌, Option, none, some, Bool, true, false, ◌==◌,
  if◌then◌else◌, ℤ, eqb_ℤ, length, arith, Bool-cases,
}
use linux.Task.{Task, Table, sighup, sigchld}
use linux.Signal.{raise, kill_session}
use linux.Exit.{after_first, put_behind, tell_scan}
use linux.Exit.Adopt.{slot, notified}

unfoldable pub has_pid : ℤ → Option Task → Bool
has_pid pid none = false
has_pid pid (some t) = eqb_ℤ t.pid pid

-- SIGHUP for a task of session `s`
unfoldable pub hung : ℤ → Option Task → Option Task
hung s none = none
hung s (some t) = if eqb_ℤ t.session s then some (raise sighup t) else some t

kill_session_lem : (s : ℤ) (ts : Table) (k : ℕ) → slot (kill_session s ts) k ≡ hung s (slot ts k)
unfolding kill_session hung
kill_session_lem s [] k = refl
kill_session_lem s (none ∷ ts) zero = refl
kill_session_lem s (some t ∷ ts) zero = refl
kill_session_lem s (none ∷ ts) (suc k) = kill_session_lem s ts k
kill_session_lem s (some t ∷ ts) (suc k) = kill_session_lem s ts k

length-kill_session : (s : ℤ) (ts : Table) → length (kill_session s ts) ≡ length ts
unfolding kill_session
length-kill_session s [] = refl
length-kill_session s (none ∷ ts) = ap suc (length-kill_session s ts)
length-kill_session s (some t ∷ ts) = ap suc (length-kill_session s ts)

pub after_first_lem :
    (s : ℤ) (ts : Table) (k : ℕ)
    → slot (after_first (kill_session s) ts) k ≡ (if k == 0 then slot ts k else hung s (slot ts k))
unfolding hung
after_first_lem s [] zero = refl
after_first_lem s [] (suc k) = let e : (suc k == 0) ≡ false = ground arith in rw e refl
after_first_lem s (o ∷ ts) zero = refl
after_first_lem s (o ∷ ts) (suc k) =
    let e : (suc k == 0) ≡ false = ground arith in rw e (kill_session_lem s ts k)

pub length-after_first : (s : ℤ) (ts : Table) → length (after_first (kill_session s) ts) ≡ length ts
length-after_first s [] = refl
length-after_first s (o ∷ ts) = ap suc (length-kill_session s ts)

-- No task has the id, or the first one that has it gets SIGCHLD.
pub data Finds (pid : ℤ) (ts : Table) : Option Table → Type 0 where
  nobody : ((k : ℕ) → has_pid pid (slot ts k) ≡ false) → Finds pid ts none
  found :
      (j : ℕ) (ts' : Table)
      → j < length ts
      → has_pid pid (slot ts j) ≡ true
      → ((k : ℕ) → k < j → has_pid pid (slot ts k) ≡ false)
      → length ts' ≡ length ts
      → ((k : ℕ) → slot ts' k ≡ notified (k == j) (slot ts k))
      → Finds pid ts (some ts')

slot_nobody :
    (pid : ℤ) (o : Option Task) (ts : Table)
    → has_pid pid o ≡ false
    → ((k : ℕ) → has_pid pid (slot ts k) ≡ false)
    → (k : ℕ) → has_pid pid (slot (o ∷ ts) k) ≡ false
slot_nobody pid o ts e h zero = e
slot_nobody pid o ts e h (suc k) = h k

same_task : (o : Option Task) → o ≡ notified false o
same_task none = refl
same_task (some t) = refl

Finds-put_behind :
    (pid : ℤ) (o : Option Task) (ts : Table) (r : Option Table)
    → has_pid pid o ≡ false
    → Finds pid ts r
    → Finds pid (o ∷ ts) (put_behind o r)
Finds-put_behind pid o ts _ e (nobody h) = nobody (slot_nobody pid o ts e h)
Finds-put_behind pid o ts _ e (found j ts' l y h n s) =
    found (suc j) (o ∷ ts') (omega arith) y first (ap suc n) each
  where
    first : (k : ℕ) → k < suc j → has_pid pid (slot (o ∷ ts) k) ≡ false
    first zero u = e
    first (suc k) u = h k (omega arith)

    each : (k : ℕ) → slot (o ∷ ts') k ≡ notified (k == suc j) (slot (o ∷ ts) k)
    each zero = let z : (0 == suc j) ≡ false = ground arith in rw z (same_task o)
    each (suc k) = let z : (suc k == suc j) ≡ (k == j) = ground arith in rw z (s k)

found_first :
    (pid : ℤ) (t : Task) (ts : Table) (k : ℕ)
    → slot (some (raise sigchld t) ∷ ts) k ≡ notified (k == 0) (slot (some t ∷ ts) k)
found_first pid t ts zero = refl
found_first pid t ts (suc k) =
    let z : (suc k == 0) ≡ false = ground arith in rw z (same_task (slot ts k))

pub tell_scan-Finds : (pid : ℤ) (ts : Table) → Finds pid ts (tell_scan pid ts)
unfolding tell_scan has_pid
tell_scan-Finds pid [] = nobody (λ k. refl)
tell_scan-Finds pid (none ∷ ts) = Finds-put_behind pid none ts _ refl (tell_scan-Finds pid ts)
tell_scan-Finds pid (some t ∷ ts) = elim (Bool-cases (eqb_ℤ t.pid pid)) [
  | inl e ↦
      rw e (found 0 _ (omega arith) e (λ k u. absurd (omega arith)) refl (found_first pid t ts))
  | inr e ↦ rw e (Finds-put_behind pid (some t) ts _ e (tell_scan-Finds pid ts))
]
