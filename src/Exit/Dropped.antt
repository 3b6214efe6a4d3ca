-- ===== src/Exit/Dropped.antt =====
-- What `do_exit` does from the terminal to `tell_father`.
use linux.Prelude.{
  ℕ, ◌<◌, ◌≡◌, ◌≢◌, refl, sym, ap, ◌∙◌, subst, inl, inr, Option, none, some, true, false, not, ◌&&◌,
  ◌||◌, ◌==◌, if◌then◌else◌, ℤ, pos, ltb_ℤ, eqb_ℤ, set, length, length-set, pos_part, arith,
  Bool-cases,
}
use linux.Prelude.Outcome.{Outcome, ok, ◌>>=◌}
use linux.Task.{zombie, Task, Table}
use linux.Exit.{
  Machine, current_task, task_or, set_current, is_math, drop_tty, drop_math, after_first,
  drop_session, finish, tell_father,
}
use linux.Exit.Adopt.{slot, slot-set}
use linux.Exit.Told.{has_pid, hung, after_first_lem, length-after_first}
use linux.Exit.Finish.{
  hangs_up, IsReleased, IsZombie, IsLeft, gone, father_told, tell_father-Leaves,
}

-- The step keeps the table, and of the rest what the task does not give up.
record IsDropped (t : Task) (me : ℕ) (m m' : Machine) : Type 0 where
  table : m'.table ≡ m.table
  file : m'.file ≡ m.file
  put : m'.put ≡ m.put
  released : IsReleased t me m m'

is_math-some : (me : ℕ) (o : Option ℕ) → is_math me o ≡ true → o ≡ some me
is_math-some me none e = absurd (ground arith)
is_math-some me (some k) e = let z : k ≡ me = ground arith in ap some z

not_math : (me : ℕ) (o : Option ℕ) → is_math me o ≡ false → o ≢ some me
not_math me none e q = cc
not_math me (some k) e q = let z : k ≡ me = cc in absurd (ground arith)

drop_math-IsDropped :
    (t : Task) (me : ℕ) (m m₁ : Machine)
    → m₁.table ≡ m.table
    → m₁.file ≡ m.file
    → m₁.put ≡ m.put
    → m₁.last_task_used_math ≡ m.last_task_used_math
    → ((n : ℕ)
        → m₁.tty_pgrp n ≡ (
            if not (eqb_ℤ t.leader (pos 0)) && not (ltb_ℤ t.tty (pos 0))
            then (if n == pos_part t.tty then pos 0 else m.tty_pgrp n)
            else m.tty_pgrp n))
    → IsDropped t me m (drop_math me m₁)
drop_math-IsDropped t me m m₁ a b c d e = elim (Bool-cases (is_math me m₁.last_task_used_math)) [
  | inl f ↦
      let z = is_math-some me m₁.last_task_used_math f in
      rw f (record {
        table = a;
        file = b;
        put = c;
        released = record {
          terminal = e;
          math = λ q. refl;
          other_math = λ q. absurd (q (sym d ∙ z));
        };
      })
  | inr f ↦
      let z = not_math me m₁.last_task_used_math f in
      rw f (record {
        table = a;
        file = b;
        put = c;
        released = record { terminal = e; math = λ q. absurd (z (d ∙ q)); other_math = λ q. d };
      })
]

dropped :
    (t : Task) (me : ℕ) (m : Machine)
    → slot m.table me ≡ some t
    → IsDropped t me m (drop_math me (drop_tty me m))
dropped t me m s = elim (Bool-cases (not (eqb_ℤ t.leader (pos 0)) && not (ltb_ℤ t.tty (pos 0)))) [
  | inl e ↦
      rw (s, e)
        (drop_math-IsDropped t me m
          (record m { tty_pgrp = λ n. if n == pos_part t.tty then pos 0 else m.tty_pgrp n }) refl
          refl refl refl (λ n. rw e refl))
  | inr e ↦ rw (s, e) (drop_math-IsDropped t me m m refl refl refl refl (λ n. rw e refl))
]

-- The session of a leader is told.
record IsTold (t : Task) (m m' : Machine) : Type 0 where
  same : (ts : Table) → record m { table = ts } ≡ record m' { table = ts }
  size : length m'.table ≡ length m.table
  slots : (k : ℕ) → slot m'.table k ≡ hangs_up t k (slot m.table k)

drop_session-IsTold :
    (t : Task) (me : ℕ) (m : Machine) → slot m.table me ≡ some t → IsTold t m (drop_session me m)
unfolding hangs_up
drop_session-IsTold t me m s = elim (Bool-cases (eqb_ℤ t.leader (pos 0))) [
  | inl e ↦ rw (s, e) (record { same = λ ts. refl; size = refl; slots = λ k. rw e refl })
  | inr e ↦
      rw (s, e)
        (record {
          same = λ ts. refl;
          size = length-after_first t.session m.table;
          slots = λ k. rw e (after_first_lem t.session m.table k);
        })
]

-- SIGHUP leaves the rest of a task.
pub hangs_up-some :
    (t u : Task) (k : ℕ) → (n : ℕ) × (hangs_up t k (some u) ≡ some (record u { signal = n }))
unfolding hangs_up hung
hangs_up-some t u k = elim (Bool-cases (eqb_ℤ t.leader (pos 0) || (k == 0))) [
  | inl e ↦ rw e (u.signal, refl)
  | inr e ↦ elim (Bool-cases (eqb_ℤ u.session t.session)) [
    | inl f ↦ rw (e, f) (_, refl)
    | inr f ↦ rw (e, f) (u.signal, refl)
  ]
]

pub hangs_up-none : (t : Task) (k : ℕ) → hangs_up t k none ≡ none
unfolding hangs_up hung
hangs_up-none t k = elim (Bool-cases (eqb_ℤ t.leader (pos 0) || (k == 0))) [
  | inl e ↦ rw e refl
  | inr e ↦ rw e refl
]

pub has_pid-hangs_up :
    (t : Task) (pid : ℤ) (k : ℕ) (o : Option Task) → has_pid pid (hangs_up t k o) ≡ has_pid pid o
unfolding has_pid
has_pid-hangs_up t pid k none = ap (has_pid pid) (hangs_up-none t k)
has_pid-hangs_up t pid k (some u) = let (n, e) = hangs_up-some t u k in ap (has_pid pid) e

-- Another table before, and another rest
pub IsLeft-of :
    (code father : ℤ) (me : ℕ) (w w' : ℕ → Option Task) (b b' after : Table)
    → ((k : ℕ) → k < 64 → has_pid father (slot b' k) ≡ has_pid father (slot b k))
    → ((k : ℕ) → k < 64 → k ≢ me → w' k ≡ w k)
    → IsLeft code father me w' b' after
    → IsLeft code father me w b after
IsLeft-of code father me w w' b b' after p q (gone (inl z) n s) =
    gone (inl z) n (λ k l ne. s k l ne ∙ q k l ne)
IsLeft-of code father me w w' b b' after p q (gone (inr z) n s) =
    gone (inr (λ k l. sym (p k l) ∙ z k l)) n (λ k l ne. s k l ne ∙ q k l ne)
IsLeft-of code father me w w' b b' after p q (father_told j z l y f n i s) =
    father_told j z l (sym (p j l) ∙ y) (λ k h. sym (p k (omega arith)) ∙ f k h) n i
      (λ k h ne. s k h ne ∙ ap (linux.Exit.Adopt.notified (k == j)) (q k h ne))

-- `finish` on a task without files
pub record IsFinished (code : ℤ) (t : Task) (me : ℕ) (m : Machine) (r : Outcome Machine)
    : Type 0 where
  pub after : Machine
  pub ends : r ≡ ok after
  pub file : after.file ≡ m.file
  pub put : after.put ≡ m.put
  pub released : IsReleased t me m after
  pub full : length after.table ≡ 64
  pub left : IsLeft code t.father me (λ k. hangs_up t k (slot m.table k)) m.table after.table

pub finish-IsFinished :
    (code : ℤ) (t : Task) (me : ℕ) (m : Machine)
    → 0 < me
    → me < 64
    → length m.table ≡ 64
    → slot m.table me ≡ some t
    → IsZombie code (record t { state = zombie; exit_code = code })
    → IsFinished code t me m (finish code me m)
unfolding finish has_pid
finish-IsFinished code t me m p h l s i =
    let m₁ : Machine = drop_math me (drop_tty me m) in
    let d = dropped t me m s in
    let s₁ : slot m₁.table me ≡ some t = ap (λ ts. slot ts me) d.table ∙ s in
    let m₂ : Machine = drop_session me m₁ in
    let a = drop_session-IsTold t me m₁ s₁ in
    let (n, g) = hangs_up-some t t me in
    let s₂ : slot m₂.table me ≡ some (record t { signal = n }) =
      a.slots me ∙ ap (hangs_up t me) s₁ ∙ g in
    let z : Task = record t { signal = n; state = zombie; exit_code = code } in
    let l₂ : length m₂.table ≡ 64 = a.size ∙ ap length d.table ∙ l in
    let y : (me == me) ≡ true = ground arith in
    let at : (k : ℕ)
        → slot (set m₂.table me (some z)) k ≡ (if k == me then some z else slot m₂.table k) =
      λ k. slot-set m₂.table me k (some z) (omega (arith, l₂, h)) in
    let e = ap (λ c. if c then some z else slot m₂.table me) y in
    let self : slot (set m₂.table me (some z)) me ≡ some z = at me ∙ e in
    let zombie_z : IsZombie code z = record {
      state = refl;
      exit_code = refl;
      pwd = i.pwd;
      root = i.root;
      executable = i.executable;
      filp = i.filp;
    } in
    let r =
      tell_father-Leaves code t.father me z (set m₂.table me (some z)) p h
        (length-set m₂.table me (some z) ∙ l₂) self zombie_z in
    let each : (k : ℕ) → slot m₂.table k ≡ hangs_up t k (slot m.table k) =
      λ k. a.slots k ∙ ap (λ ts. hangs_up t k (slot ts k)) d.table in
    let others : (k : ℕ)
        → k < 64
        → k ≢ me
        → slot (set m₂.table me (some z)) k ≡ hangs_up t k (slot m.table k) =
      λ k kl ne.
        let y : (k == me) ≡ false = ground arith in
        at k ∙ ap (λ c. if c then some z else slot m₂.table k) y ∙ each k in
    let pids : (k : ℕ)
        → k < 64
        → has_pid t.father (slot (set m₂.table me (some z)) k) ≡ has_pid t.father (slot m.table k) =
      λ k kl. elim (Bool-cases (k == me)) [
        | inl y ↦
            let w : k ≡ me = ground arith in
            ap (λ k. has_pid t.father (slot (set m₂.table me (some z)) k)) w
            ∙ ap (has_pid t.father) self
            ∙ ap (has_pid t.father) (sym s)
            ∙ ap (λ k. has_pid t.father (slot m.table k)) (sym w)
        | inr y ↦
            ap (has_pid t.father) (others k kl (λ w. ground arith))
            ∙ has_pid-hangs_up t t.father k (slot m.table k)
      ] in
    let rest : Outcome Table → Outcome Machine = λ o. o >>= λ ts. ok (record m₂ { table = ts }) in
    rw (s₂, self)
      (record {
        after = record m₂ { table = r.after };
        ends = ap rest r.ends;
        file = ap (λ m'. m'.file) (sym (a.same r.after)) ∙ d.file;
        put = ap (λ m'. m'.put) (sym (a.same r.after)) ∙ d.put;
        released = subst (IsReleased t me m) (a.same r.after) (record {
          terminal = d.released.terminal;
          math = d.released.math;
          other_math = d.released.other_math;
        });
        full = r.full;
        left =
            IsLeft-of code t.father me (λ k. hangs_up t k (slot m.table k))
              (slot (set m₂.table me (some z))) m.table (set m₂.table me (some z)) r.after pids
              others r.left;
      })
