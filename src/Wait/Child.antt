-- ===== src/Wait/Child.antt =====
-- Which child `sys_waitpid` finds.
use linux.Prelude.{
  ℕ, zero, suc, ◌+◌, ◌≡◌, refl, List, [], ◌∷◌, Option, none, some, Bool, true, false, not, ◌&&◌,
  ◌||◌, ℤ, pos, negsuc, neg_ℤ, eqb_ℤ, ltb_ℤ, ◌==◌, arith, Bool-cases, inl, inr,
}
use linux.Task.{TaskState, running, interruptible, uninterruptible, zombie, stopped, Task}
use linux.Sched.Pick.{task_at}
use linux.Wait.{is_wanted, Scan, stopped_child, zombie_child, scanned, look, wait_slot, wait_scan}

abbrev pub is_stopped : TaskState → Bool
is_stopped stopped = true
is_stopped s = false

abbrev pub is_zombie : TaskState → Bool
is_zombie zombie = true
is_zombie s = false

-- A wanted child in this state ends the wait.
abbrev pub ends_wait : Bool → TaskState → Bool
ends_wait traced s = is_zombie s || (traced && is_stopped s)

abbrev pub is_live : TaskState → Bool
is_live s = not (is_zombie s) && not (is_stopped s)

-- The children of `current` but itself, as the call asks for them: the one with the pid, those of
-- the caller's group for 0, all for -1, or those of group -pid.
abbrev pub is_asked : ℕ → Task → ℤ → ℕ → Task → Bool
is_asked me current pid i t =
    eqb_ℤ t.father current.pid
    && not (i == me)
    && ((ltb_ℤ (pos 0) pid && eqb_ℤ t.pid pid)
        || (eqb_ℤ pid (pos 0) && eqb_ℤ t.pgrp current.pgrp)
        || eqb_ℤ pid (negsuc 0)
        || (ltb_ℤ pid (negsuc 0) && eqb_ℤ t.pgrp (neg_ℤ pid)))

is_wanted_lem :
    (me : ℕ) (current : Task) (pid : ℤ) (i : ℕ) (t : Task)
    → is_wanted me current pid i t ≡ is_asked me current pid i t
unfolding is_wanted
is_wanted_lem me current pid i t = ground arith

-- A wanted child in the slot k of those from the slot i on.
pub record Child (me : ℕ) (current : Task) (pid : ℤ) (i : ℕ) (ts : List (Option Task)) (k : ℕ)
    (t : Task) : Type 0 where
  pub there : task_at ts k ≡ some t
  pub wanted : is_asked me current pid (i + k) t ≡ true

-- No wanted child ends the wait.
abbrev pub NoneEnds : ℕ → Task → ℤ → Bool → ℕ → List (Option Task) → Type 0
NoneEnds me current pid traced i ts =
    (k : ℕ) (t : Task) → Child me current pid i ts k t → ends_wait traced t.state ≡ false

-- What the result of a scan says of the slots.
abbrev pub Found : ℕ → Task → ℤ → Bool → ℕ → List (Option Task) → Scan → Type 0
Found me current pid traced i ts (stopped_child p) =
    (k : ℕ) × (t : Task) × Child me current pid i ts k t
    × (t.state ≡ stopped)
    × (traced ≡ true)
    × (p ≡ t.pid)
Found me current pid traced i ts (zombie_child n t) =
    (k : ℕ) × (n ≡ i + k) × Child me current pid i ts k t × (t.state ≡ zombie)
Found me current pid traced i ts (scanned true) =
    NoneEnds me current pid traced i ts
    × ((k : ℕ) × (t : Task) × Child me current pid i ts k t × (is_live t.state ≡ true))
Found me current pid traced i ts (scanned false) =
    (k : ℕ) (t : Task)
    → Child me current pid i ts k t
    → (is_stopped t.state ≡ true) × (traced ≡ false)

-- The slots behind the first, seen from it.
Child-cons :
    {me : ℕ} {current : Task} {pid : ℤ} {i : ℕ} {ts : List (Option Task)} {k : ℕ} {t : Task}
    (o : Option Task)
    → Child me current pid (suc i) ts k t
    → Child me current pid i (o ∷ ts) (suc k) t
Child-cons {i} {k} o c =
    let e : i + suc k ≡ suc i + k = omega arith in
    record { there = c.there; wanted = rw e c.wanted }

Child-tail :
    {me : ℕ} {current : Task} {pid : ℤ} {i : ℕ} {ts : List (Option Task)} {k : ℕ} {t : Task}
    (o : Option Task)
    → Child me current pid i (o ∷ ts) (suc k) t
    → Child me current pid (suc i) ts k t
Child-tail {i} {k} o c =
    let e : suc i + k ≡ i + suc k = omega arith in
    record { there = c.there; wanted = rw e c.wanted }

-- A property of the wanted children of all slots, from that of the first and that of the others.
children_cons :
    (me : ℕ) (current : Task) (pid : ℤ) (i : ℕ) (o : Option Task) (ts : List (Option Task))
    (P : Task → Type 0)
    → ((t : Task) → o ≡ some t → is_asked me current pid i t ≡ true → P t)
    → ((k : ℕ) (t : Task) → Child me current pid (suc i) ts k t → P t)
    → (k : ℕ) (t : Task) → Child me current pid i (o ∷ ts) k t
    → P t
children_cons me current pid i o ts P h hs zero t c =
    let e : i + zero ≡ i = omega arith in h t c.there (rw e at c.wanted)
children_cons me current pid i o ts P h hs (suc k) t c = hs k t (Child-tail o c)

-- The first slot
Child-zero :
    (me : ℕ) (current : Task) (pid : ℤ) (i : ℕ) (t : Task) (ts : List (Option Task))
    → is_asked me current pid i t ≡ true
    → Child me current pid i (some t ∷ ts) zero t
Child-zero me current pid i t ts w =
    let e : i + zero ≡ i = omega arith in record { there = refl; wanted = rw e w }

ne : {b : Bool} → b ≡ false → b ≡ true → ⊥
ne e w = cc

-- A slot without a wanted child changes nothing.
scanned-Found :
    (me : ℕ) (current : Task) (pid : ℤ) (traced : Bool) (i : ℕ) (o : Option Task)
    (ts : List (Option Task)) (flag : Bool)
    → ((t : Task) → o ≡ some t → is_asked me current pid i t ≡ false)
    → Found me current pid traced (suc i) ts (scanned flag)
    → Found me current pid traced i (o ∷ ts) (scanned flag)
scanned-Found me current pid traced i o ts true h (none_ends, (k, t, c, l)) = (
  children_cons me current pid i o ts (λ u. ends_wait traced u.state ≡ false)
      (λ u e w. absurd (ne (h u e) w)) none_ends,
  (suc k, t, Child-cons o c, l),
)
scanned-Found me current pid traced i o ts false h f =
    children_cons me current pid i o ts (λ u. (is_stopped u.state ≡ true) × (traced ≡ false))
      (λ u e w. absurd (ne (h u e) w)) f

none_ends_of_stopped :
    (traced : Bool) (s : TaskState)
    → is_stopped s ≡ true
    → traced ≡ false
    → ends_wait traced s ≡ false
none_ends_of_stopped traced stopped h e = rw e refl
none_ends_of_stopped traced running h e = cc
none_ends_of_stopped traced interruptible h e = cc
none_ends_of_stopped traced uninterruptible h e = cc
none_ends_of_stopped traced zombie h e = cc

none_ends_of_live : (traced : Bool) (s : TaskState) → is_live s ≡ true → ends_wait traced s ≡ false
none_ends_of_live traced s h = ground (arith, h)

NoneEnds-of_scanned :
    (me : ℕ) (current : Task) (pid : ℤ) (traced : Bool) (i : ℕ) (ts : List (Option Task))
    (flag : Bool)
    → Found me current pid traced i ts (scanned flag)
    → NoneEnds me current pid traced i ts
NoneEnds-of_scanned me current pid traced i ts true f = f.0
NoneEnds-of_scanned me current pid traced i ts false f =
    λ k t c. none_ends_of_stopped traced t.state (f k t c).0 (f k t c).1

-- A wanted child that still runs
live-Found :
    (me : ℕ) (current : Task) (pid : ℤ) (traced : Bool) (i : ℕ) (t : Task) (ts : List (Option Task))
    (flag : Bool)
    → is_live t.state ≡ true
    → is_asked me current pid i t ≡ true
    → Found me current pid traced (suc i) ts (scanned flag)
    → Found me current pid traced i (some t ∷ ts) (scanned true)
live-Found me current pid traced i t ts flag l w f = (
  children_cons me current pid i (some t) ts (λ u. ends_wait traced u.state ≡ false)
      (λ u e v. let p : u ≡ t = cc in rw p (none_ends_of_live traced t.state l))
      (NoneEnds-of_scanned me current pid traced (suc i) ts flag f),
  (zero, t, Child-zero me current pid i t ts w, l),
)

-- A stopped child that is not asked for
untraced-Found :
    (me : ℕ) (current : Task) (pid : ℤ) (i : ℕ) (t : Task) (ts : List (Option Task)) (flag : Bool)
    → t.state ≡ stopped
    → Found me current pid false (suc i) ts (scanned flag)
    → Found me current pid false i (some t ∷ ts) (scanned flag)
untraced-Found me current pid i t ts true e (none_ends, (k, u, c, l)) = (
  children_cons me current pid i (some t) ts (λ u. ends_wait false u.state ≡ false)
      (λ u q v. let p : u ≡ t = cc in rw (p, e) refl) none_ends,
  (suc k, u, Child-cons (some t) c, l),
)
untraced-Found me current pid i t ts false e f =
    children_cons me current pid i (some t) ts (λ u. (is_stopped u.state ≡ true) × (false ≡ false))
      (λ u q v. let p : u ≡ t = cc in rw (p, e) (refl, refl)) f

-- A wanted child in the slot
look-Found :
    (me : ℕ) (current : Task) (pid : ℤ) (traced : Bool) (i : ℕ) (t : Task) (ts : List (Option Task))
    (flag : Bool) (s : TaskState)
    → t.state ≡ s
    → is_asked me current pid i t ≡ true
    → Found me current pid traced (suc i) ts (scanned flag)
    → Found me current pid traced i (some t ∷ ts) (look traced s i t flag)
unfolding look
look-Found me current pid true i t ts flag stopped e w f =
    (zero, t, Child-zero me current pid i t ts w, e, refl, refl)
look-Found me current pid false i t ts flag stopped e w f =
    untraced-Found me current pid i t ts flag e f
look-Found me current pid traced i t ts flag zombie e w f =
    (zero, omega arith, Child-zero me current pid i t ts w, e)
look-Found me current pid traced i t ts flag running e w f =
    live-Found me current pid traced i t ts flag (rw e refl) w f
look-Found me current pid traced i t ts flag interruptible e w f =
    live-Found me current pid traced i t ts flag (rw e refl) w f
look-Found me current pid traced i t ts flag uninterruptible e w f =
    live-Found me current pid traced i t ts flag (rw e refl) w f

wait_slot-Found :
    (me : ℕ) (current : Task) (pid : ℤ) (traced : Bool) (i : ℕ) (o : Option Task)
    (ts : List (Option Task)) (r : Scan)
    → Found me current pid traced (suc i) ts r
    → Found me current pid traced i (o ∷ ts) (wait_slot me current pid traced i o r)
unfolding wait_slot
wait_slot-Found me current pid traced i o ts (stopped_child p) (k, t, c, s, tr, e) =
    (suc k, t, Child-cons o c, s, tr, e)
wait_slot-Found me current pid traced i o ts (zombie_child n t) (k, e, c, s) =
    (suc k, omega arith, Child-cons o c, s)
wait_slot-Found me current pid traced i none ts (scanned flag) f =
    scanned-Found me current pid traced i none ts flag (λ t e. cc) f
wait_slot-Found me current pid traced i (some t) ts (scanned flag) f =
    elim (Bool-cases (is_asked me current pid i t)) [
      | inl w ↦
          rw (is_wanted_lem me current pid i t, w)
            (look-Found me current pid traced i t ts flag t.state refl w f)
      | inr w ↦
          rw (is_wanted_lem me current pid i t, w)
            (scanned-Found me current pid traced i (some t) ts flag
              (λ u e. let p : u ≡ t = cc in rw p w) f)
    ]

pub wait_scan-Found :
    (me : ℕ) (current : Task) (pid : ℤ) (traced : Bool) (i : ℕ) (ts : List (Option Task))
    → Found me current pid traced i ts (wait_scan me current pid traced i ts)
unfolding wait_scan
wait_scan-Found me current pid traced i [] = λ k t c. let e = c.there in cc
wait_scan-Found me current pid traced i (o ∷ ts) =
    wait_slot-Found me current pid traced i o ts (wait_scan me current pid traced (suc i) ts)
      (wait_scan-Found me current pid traced (suc i) ts)
