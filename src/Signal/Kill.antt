-- ===== src/Signal/Kill.antt =====
-- Whom `sys_kill` signals, and what it returns.
use linux.Prelude.{
  ℕ, zero, suc, ◌-◌, ◌^◌, ◌≡◌, ◌≢◌, ◌∙◌, ap, refl, inl, inr, List, [], ◌∷◌, Option, none, some,
  Bool, not, ◌&&◌, ◌||◌, ℤ, pos, negsuc, neg_ℤ, ltb_ℤ, eqb_ℤ, ◌==◌, if◌then◌else◌, Bool-cases,
  arith,
}
use linux.Prelude.Bits.{test_bit, test_bit-bit_or, test_bit-pow}
use linux.Task.{Task, Table}
use linux.Sched.Pick.{task_at}
use linux.Signal.{raise, sig_number, send_sig, kill_target, kill_from, sys_kill}

-- May a task of this effective user get the signal from `current`, who asked for `pid`?
abbrev pub may_kill : ℤ → Task → Task → Bool
may_kill pid current t = eqb_ℤ pid (pos 0) || current.euid == t.euid || current.euid == 0

-- Does `pid` mean the task? The one with that pid if it is positive, those whose group is the pid of
-- `current` for 0, all for -1, those of group -pid if it is less.
abbrev pub is_meant : ℤ → Task → Task → Bool
is_meant pid current t =
    (ltb_ℤ (pos 0) pid && eqb_ℤ t.pid pid)
    || (eqb_ℤ pid (pos 0) && eqb_ℤ t.pgrp current.pid)
    || eqb_ℤ pid (negsuc 0)
    || (ltb_ℤ pid (negsuc 0) && eqb_ℤ t.pgrp (neg_ℤ pid))

kill_target_lem :
    (pid : ℤ) (current t : Task) → kill_target pid current (some t) ≡ is_meant pid current t
unfolding kill_target
kill_target_lem pid current t = ground arith

-- The task gets the signal: it is meant by `pid`, the sender may, and the signal exists.
abbrev pub gets : ℤ → ℤ → Task → Task → Bool
gets pid sig current t =
    is_meant pid current t
    && ltb_ℤ (pos 0) sig
    && not (ltb_ℤ (pos 32) sig)
    && may_kill pid current t

abbrev pub after_kill : ℤ → ℤ → Task → Task → Task
after_kill pid sig current t = if gets pid sig current t then raise (sig_number sig) t else t

kill_from-slots :
    (pid sig : ℤ) (current : Task) (ts : List (Option Task)) (k : ℕ) {t : Task}
    → task_at ts k ≡ some t
    → task_at (kill_from pid sig current ts).1 k ≡ some (after_kill pid sig current t)
unfolding kill_from send_sig
kill_from-slots pid sig current [] k e = cc
kill_from-slots pid sig current (none ∷ ts) zero e = cc
kill_from-slots pid sig current (some u ∷ ts) zero {t} e =
    let p : u ≡ t = cc in rw p (ground (arith, kill_target_lem pid current t))
kill_from-slots pid sig current (none ∷ ts) (suc k) e =
    ground (arith, kill_from-slots pid sig current ts k e)
kill_from-slots pid sig current (some u ∷ ts) (suc k) e =
    ground (arith, kill_from-slots pid sig current ts k e)

-- The bits of the signal word after `raise`.
raise_bits :
    (sig : ℕ) (t : Task) (i : ℕ)
    → test_bit (raise sig t).signal i ≡ (test_bit t.signal i || (sig - 1 == i))
raise_bits sig t i =
    test_bit-bit_or t.signal (2 ^ (sig - 1)) i
    ∙ ap (λ b. test_bit t.signal i || b) (test_bit-pow (sig - 1) i)

-- What became of the task in a slot.
pub record Signalled (pid sig : ℤ) (current t t' : Task) : Type 0 where
  pub bits :
      (i : ℕ)
      → test_bit t'.signal i
        ≡ (test_bit t.signal i || (gets pid sig current t && (sig_number sig - 1 == i)))
  pub rest : record t' { signal = t.signal } ≡ t

after_kill-Signalled :
    (pid sig : ℤ) (current t : Task) → Signalled pid sig current t (after_kill pid sig current t)
after_kill-Signalled pid sig current t = elim (Bool-cases (gets pid sig current t)) [
  | inl yes_gets ↦
      rw yes_gets
        (record { bits = λ i. rw yes_gets (raise_bits (sig_number sig) t i); rest = refl })
  | inr not_gets ↦ rw not_gets (record { bits = λ i. rw not_gets (ground arith); rest = refl })
]

-- `sys_kill` on the slot k + 1 with a task: the signal's bit is set exactly if the task is meant by
-- `pid`, which is its pid, minus its group, -1, or 0 if its group is the pid of the caller, the signal is one of 1 to 32, and `pid` is 0 or the caller has the same effective user or
-- is root. No other bit and nothing else of the task changes, and it keeps its slot.
pub sys_kill-Signalled :
    (pid sig : ℤ) (current : Task) (ts : Table) (k : ℕ) (t : Task)
    → task_at ts (suc k) ≡ some t
    → (t' : Task) × (task_at (sys_kill pid sig current ts).1 (suc k) ≡ some t')
      × Signalled pid sig current t t'
unfolding sys_kill
sys_kill-Signalled pid sig current [] k t e = cc
sys_kill-Signalled pid sig current (t₀ ∷ ts) k t e = (
  after_kill pid sig current t,
  kill_from-slots pid sig current ts k e,
  after_kill-Signalled pid sig current t,
)

-- One of the slots is free.
abbrev pub HasFree : List (Option Task) → Type 0
HasFree [] = ⊥
HasFree (none ∷ ts) = Unit
HasFree (some t ∷ ts) = HasFree ts

kill_from_error :
    (sig : ℤ) (current : Task) (ts : List (Option Task))
    → HasFree ts
    → (kill_from (negsuc 0) sig current ts).0 ≢ pos 0
unfolding kill_from send_sig kill_target
kill_from_error sig current [] h = absurd h
kill_from_error sig current (none ∷ ts) h = λ e. ground arith
kill_from_error sig current (some t ∷ ts) h = λ e. ground (arith, kill_from_error sig current ts h)

-- `kill(-1, sig)` fails whenever a slot behind the first is free, although the signals are sent.
pub sys_kill_all_fails :
    (sig : ℤ) (current : Task) (t₀ : Option Task) (ts : List (Option Task))
    → HasFree ts
    → (sys_kill (negsuc 0) sig current (t₀ ∷ ts)).0 ≢ pos 0
unfolding sys_kill
sys_kill_all_fails sig current t₀ ts h = kill_from_error sig current ts h
