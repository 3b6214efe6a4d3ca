-- ===== src/Exit/End.antt =====
-- The end of a process.
use linux.Prelude.{
  ℕ, ◌<◌, ◌≡◌, ◌≢◌, refl, ap, ◌∙◌, ◌∷◌, List, Option, none, some, Bool, true, false, not, ◌&&◌,
  ◌==◌, if◌then◌else◌, ℤ, pos, ltb_ℤ, eqb_ℤ, set, length, pos_part, arith,
}
use linux.Prelude.Outcome.{Outcome, ok}
use linux.Task.{Task}
use linux.Files.Count.{Counted}
use linux.Exit.{adopt, Machine, drop_files, end_process}
use linux.Exit.Closed.{close_all-Closes, refs-none}
use linux.Exit.Finish.{IsReleased, IsLeft}
use linux.Exit.Dropped.{finish-IsFinished}
use linux.Exit.Adopt.{slot, to_init, adopted, notified, dead_children, adopt_lem}
use linux.Exit.Left.{
  has_father, notified-some, remains, IsLeft-orphaned, length-dropped_table, dropped_me,
  dropped_left,
}

-- What `end_process` of task `t` in slot `me` leaves
pub record Ends (code : ℤ) (t : Task) (me : ℕ) (others : ℕ → ℕ) (m : Machine) (r : Outcome Machine)
    : Type 0 where
  pub after : Machine
  pub ends : r ≡ ok after
  pub files : (f : ℕ) → (after.file f).count ≡ others f
  pub inodes : (l : List (Option ℕ)) × (after.put ≡ t.executable ∷ t.root ∷ t.pwd ∷ l)
  pub released : IsReleased t me m after
  pub full : length after.table ≡ 64
  pub left : IsLeft code (to_init t.pid t).father me (remains t m.table) m.table after.table
  pub orphaned : (k : ℕ) → k < 64 → k ≢ me → has_father t.pid (slot after.table k) ≡ false

-- `do_exit` of task `t` in slot `me` behind the first, a process other than process 1, on a full
-- table, after its pages were freed and with the counts of all files right: it comes to its end.
-- Then the count of each file is that of the others' descriptors, the executable, the root and the
-- current directory were put, the terminal of a leader has no process group, and the coprocessor is
-- not the task's. The children of the task are with process 1, which gets SIGCHLD if one of them is
-- a zombie, the others in a leader's session behind the first slot get SIGHUP, and nothing else of the other tasks
-- changes, but for the SIGCHLD of the first task that has the id of the father: if there is one, the
-- task is a zombie with its exit code and without open files, and if there is none, its slot is
-- empty.
pub end_process-Ends :
    (code : ℤ) (me : ℕ) (m : Machine) (t : Task) (others : ℕ → ℕ)
    → 0 < me
    → me < 64
    → length m.table ≡ 64
    → slot m.table me ≡ some t
    → t.pid ≢ pos 1
    → Counted others t.filp m.file
    → Ends code t me others m (end_process code me m)
unfolding end_process drop_files
end_process-Ends code me m t others p h l s ne c =
    let b : Bool = (me == 1) && dead_children t.pid 64 0 m.table in
    let (n, e) = notified-some b t.pid t in
    let t₀ : Task = record (to_init t.pid t) { signal = n } in
    let s₀ : slot (adopt t.euid t.pid 64 0 m.table) me ≡ some t₀ =
      adopt_lem t.euid t.pid m.table me l h ∙ ap (λ o. notified b (adopted t.pid true o)) s ∙ e in
    let C =
      close_all-Closes others 20 0 (record { current = t₀; file = m.file; put = m.put })
        (omega arith) c in
    let f = C.after in
    let t₂ : Task = record (f.current) { pwd = none; root = none; executable = none } in
    let m₁ : Machine = record m {
      table = set (adopt t.euid t.pid 64 0 m.table) me (some t₂);
      file = f.file;
      put = f.current.executable ∷ f.current.root ∷ f.current.pwd ∷ f.put;
    } in
    let F =
      finish-IsFinished code t₂ me m₁ p h (length-dropped_table code me m t others n f h l s C.same)
        (dropped_me code me m t others n f h l s C.same)
        (record {
          state = refl;
          exit_code = refl;
          pwd = refl;
          root = refl;
          executable = refl;
          filp = λ k kl. C.closed k (omega arith) kl;
        }) in
    let left = dropped_left code me m t others n f h l s C.same F.after.table F.left in
    rw (s, s₀, C.ends)
      (record {
        after = F.after;
        ends = F.ends;
        files = λ g.
            let r = refs-none g f.current.filp (λ k kl.
              let size = C.counted.open_files in
              C.closed k (omega arith) (omega (arith, size, kl))) in
            let k = C.counted.counted g in ap (λ w. (w g).count) F.file ∙ omega (arith, k, r);
        inodes = (f.put, F.put ∙ ap (λ x. x.executable ∷ x.root ∷ x.pwd ∷ f.put) C.same);
        released = record {
          terminal = λ n.
              F.released.terminal n
              ∙ ap
                  (λ x.
                    if not (eqb_ℤ x.leader (pos 0)) && not (ltb_ℤ x.tty (pos 0))
                    then (if n == pos_part x.tty then pos 0 else m.tty_pgrp n)
                    else m.tty_pgrp n)
                  C.same;
          math = F.released.math;
          other_math = F.released.other_math;
        };
        full = F.full;
        left = left;
        orphaned = λ k kl kn.
            IsLeft-orphaned code (to_init t.pid t).father t me m.table F.after.table k ne left kl
              kn;
      })
