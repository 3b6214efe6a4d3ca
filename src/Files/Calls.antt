-- ===== src/Files/Calls.antt =====
-- Any calls of one task on its descriptors.
use linux.Prelude.{
  ℕ, ◌-◌, ◌%◌, ◌<◌, ◌≡◌, refl, List, [], ◌∷◌, Option, none, some, Bool, true, false, ℤ, pos, set,
  leb, ◌==◌, if◌then◌else◌, arith, Bool-cases, Option-cases, inl, inr,
}
use linux.Prelude.Outcome.{Outcome, ok, ◌>>=◌}
use linux.Task.{Task}
use linux.Files.{
  File, Files, with_file, filp_at, keep_on_exec, close_file, sys_close, sys_dup2, sys_dup,
  file_control, sys_fcntl,
}
use linux.Files.Count.{Counted, IsCounted, recount, count_bounds, count_down, dupfd-IsCounted}

-- The call returns, and the counts are right.
abbrev pub Returns : (ℕ → ℕ) → Outcome (ℤ × Files) → Type 0
Returns others o = (r : ℤ) × (s : Files) × (o ≡ ok (r, s)) × IsCounted others s

-- The same task but for its descriptors
abbrev pub bare : Task → Task
bare t = record t { filp = []; close_on_exec = 0 }

-- Descriptor `fd` was given up.
pub record IsClosed (others : ℕ → ℕ) (fd : ℕ) (s : Files) (o : Outcome (ℤ × Files)) : Type 0 where
  pub after : Files
  pub ends : o ≡ ok (pos 0, after)
  pub counted : IsCounted others after
  pub same : bare after.current ≡ bare s.current
  pub filp : after.current.filp ≡ set s.current.filp fd none

close_file-IsClosed :
    (others : ℕ → ℕ) (s : Files) (fd f : ℕ)
    → IsCounted others s
    → fd < 20
    → filp_at s fd ≡ some f
    → IsClosed others fd s (close_file fd (some f) s)
close_file-IsClosed others s fd f c h e =
    let (lo, hi) = count_bounds others s.current.filp s.file fd f c e in
    let file' = with_file f (record (s.file f) { count = (s.file f).count - 1 }) s.file in
    let c' =
      recount others s.current.filp s.file file' fd none c h
        (λ g. let d = count_down s.file f g lo in rw e (omega arith)) in
    let some_user : ((s.file f).count == 0) ≡ false = ground arith in
    rw some_user (elim (Bool-cases ((s.file f).count == 1)) [
      | inl one ↦ rw one (record { after = _; ends = refl; counted = c'; same = refl; filp = refl })
      | inr more ↦
          rw more (record { after = _; ends = refl; counted = c'; same = refl; filp = refl })
    ])

pub sys_close-IsClosed :
    (others : ℕ → ℕ) (s : Files) (fd f : ℕ)
    → IsCounted others s
    → fd < 20
    → filp_at s fd ≡ some f
    → IsClosed others fd s (sys_close fd s)
unfolding sys_close
sys_close-IsClosed others s fd f c h e =
    let in_range : leb 20 fd ≡ false = ground arith in
    let r = close_file-IsClosed others (keep_on_exec fd s) fd f c h e in
    rw (in_range, e)
      (record { after = r.after; ends = r.ends; counted = r.counted; same = r.same; filp = r.filp })

close_file-Returns :
    (others : ℕ → ℕ) (s : Files) (fd : ℕ)
    → IsCounted others s
    → fd < 20
    → Returns others (close_file fd (filp_at s fd) s)
close_file-Returns others s fd c h = elim (Option-cases (filp_at s fd)) [
  | inl e ↦ rw e (_, _, refl, c)
  | inr (f, e) ↦
      let r = close_file-IsClosed others s fd f c h e in rw e (_, r.after, r.ends, r.counted)
]

pub sys_close-Returns :
    (others : ℕ → ℕ) (s : Files) (fd : ℕ) → IsCounted others s → Returns others (sys_close fd s)
unfolding sys_close
sys_close-Returns others s fd c = elim (Bool-cases (leb 20 fd)) [
  | inl out ↦ rw out (_, _, refl, c)
  | inr in_range ↦ rw in_range (close_file-Returns others (keep_on_exec fd s) fd c (ground arith))
]

with_file-IsCounted :
    (others : ℕ → ℕ) (filp : List (Option ℕ)) (file : ℕ → File) (f flags : ℕ)
    → Counted others filp file
    → Counted others filp (with_file f (record (file f) { flags = flags }) file)
with_file-IsCounted others filp file f flags c = record {
  open_files = c.open_files;
  counted = λ g. elim (Bool-cases (f == g)) [
    | inl e ↦ let p : g ≡ f = ground arith in rw p (let k = c.counted f in ground arith)
    | inr e ↦ rw e (c.counted g)
  ];
  few = c.few;
}

either-IsCounted :
    (others : ℕ → ℕ) (b : Bool) (x y : ℤ × Files)
    → IsCounted others x.1
    → IsCounted others y.1
    → IsCounted others (if b then x else y).1
either-IsCounted others true x y h k = h
either-IsCounted others false x y h k = k

file_control-IsCounted :
    (others : ℕ → ℕ) (s : Files) (fd cmd arg f : ℕ)
    → IsCounted others s
    → IsCounted others (file_control fd cmd arg (some f) s).1
file_control-IsCounted others s fd cmd arg f c =
    let either = either-IsCounted others in
    either (cmd == 0) _ _ (dupfd-IsCounted others s fd arg c) (
      either (cmd == 1) _ _ c (
        either (cmd == 2) _ _ (either (arg % 2 == 1) _ _ c c) (
          either (cmd == 3) _ _ c
            (either (cmd == 4) _ _ (with_file-IsCounted others s.current.filp s.file f _ c) c))))

sys_fcntl-IsCounted :
    (others : ℕ → ℕ) (s : Files) (fd cmd arg : ℕ)
    → IsCounted others s
    → IsCounted others (sys_fcntl fd cmd arg s).1
unfolding sys_fcntl
sys_fcntl-IsCounted others s fd cmd arg c = elim (Bool-cases (leb 20 fd)) [
  | inl out ↦ rw out c
  | inr in_range ↦ rw in_range (elim (Option-cases (filp_at s fd)) [
    | inl e ↦ rw e c
    | inr (f, e) ↦ rw e (file_control-IsCounted others s fd cmd arg f c)
  ])
]

-- A system call on descriptors.
pub data Call : Type 0 where
  close : ℕ → Call
  dup2 : ℕ → ℕ → Call
  dup : ℕ → Call
  fcntl : ℕ → ℕ → ℕ → Call

unfoldable pub call : Call → Files → Outcome (ℤ × Files)
call (close fd) s = sys_close fd s
call (dup2 oldfd newfd) s = sys_dup2 oldfd newfd s
call (dup fd) s = ok (sys_dup fd s)
call (fcntl fd cmd arg) s = ok (sys_fcntl fd cmd arg s)

unfoldable pub run : List Call → Files → Outcome Files
run [] s = ok s
run (c ∷ cs) s = call c s >>= λ (r, s'). run cs s'

call-Returns :
    (others : ℕ → ℕ) (c : Call) (s : Files) → IsCounted others s → Returns others (call c s)
unfolding call sys_dup2 sys_dup
call-Returns others (close fd) s i = sys_close-Returns others s fd i
call-Returns others (dup2 oldfd newfd) s i =
    let (r, s', e, i') = sys_close-Returns others s newfd i in
    rw e (_, _, refl, dupfd-IsCounted others s' oldfd newfd i')
call-Returns others (dup fd) s i = (_, _, refl, dupfd-IsCounted others s fd 0 i)
call-Returns others (fcntl fd cmd arg) s i = (_, _, refl, sys_fcntl-IsCounted others s fd cmd arg i)

-- Any sequence of `close`, `dup2`, `dup` and `fcntl` calls of a task with 20 descriptors, of whose
-- files other tasks have no more than 60000 descriptors each, runs without a panic, and keeps every
-- file's count the number of descriptors that stand for it.
pub run-IsCounted :
    (others : ℕ → ℕ) (cs : List Call) (s : Files)
    → IsCounted others s
    → (s' : Files) × (run cs s ≡ ok s') × IsCounted others s'
unfolding run
run-IsCounted others [] s i = (s, refl, i)
run-IsCounted others (c ∷ cs) s i =
    let (r, s', e, i') = call-Returns others c s i in rw e (run-IsCounted others cs s' i')
