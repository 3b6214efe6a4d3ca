-- ===== src/Files/Tests.antt =====
-- A task with standard input and output on one terminal and a log, and the theorems there.
use linux.Prelude.{
  ℕ, ◌≤◌, ◌<◌, ◌≡◌, ◌⊎◌, refl, List, [], ◌∷◌, Option, none, some, true, pos, ◌==◌, if◌then◌else◌,
  arith, replicate,
}
use linux.Prelude.Outcome.{Outcome, ok}
use linux.Task.{init_task, error}
use linux.Files.{
  Files, ebadf, emfile, filp_at, is_open, first_free, dupfd, sys_close, sys_dup, sys_fcntl,
}
use linux.Files.Count.{IsCounted, refs}
use linux.Files.Calls.{close, dup2, dup, fcntl, call, run, run-IsCounted}
use linux.Files.Dup.{Given, dupfd-Given}

abbrev shell : Files
shell = record {
  current = record init_task {
    filp = some 7 ∷ some 7 ∷ none ∷ some 9 ∷ replicate 16 none;
    close_on_exec = 8;
  };
  file = λ f. record {
    mode = 0;
    flags = 0;
    count = if f == 7 then 2 else if f == 9 then 3 else 0;
    inode = some f;
    f_pos = pos 0;
  };
  put = [];
}

-- Two descriptors of other tasks stand for the log.
abbrev others : ℕ → ℕ
others f = if f == 9 then 2 else 0

shell-IsCounted : IsCounted others shell
unfolding refs
shell-IsCounted = record { open_files = refl; counted = λ f. ground arith; few = λ f. ground arith }

dup_lowest : (sys_dup 0 shell).0 ≡ pos 2
unfolding sys_dup dupfd first_free
dup_lowest = refl

put_by : Outcome Files → List (Option ℕ)
put_by (ok s) = s.put
put_by o = []

-- The last `close` of a file puts its inode back.
closed_twice : put_by (run (close 3 ∷ close 0 ∷ close 1 ∷ []) shell) ≡ some 7 ∷ []
unfolding put_by run call sys_close
closed_twice = refl

bad_descriptor : (sys_fcntl 25 0 0 shell).0 ≡ error ebadf
unfolding sys_fcntl
bad_descriptor = refl

run-IsCounted_example :
    (s' : Files) × (run (dup 3 ∷ dup2 1 3 ∷ fcntl 0 2 1 ∷ close 3 ∷ []) shell ≡ ok s')
    × IsCounted others s'
run-IsCounted_example =
    run-IsCounted others (dup 3 ∷ dup2 1 3 ∷ fcntl 0 2 1 ∷ close 3 ∷ []) shell shell-IsCounted

dupfd-Given_example :
    Given shell (dupfd 3 1 shell).1 9 1 (dupfd 3 1 shell).0
    ⊎ (((k : ℕ) → 1 ≤ k → k < 20 → is_open (filp_at shell k) ≡ true)
        × (dupfd 3 1 shell ≡ (error emfile, shell)))
dupfd-Given_example =
    dupfd-Given others shell 3 9 1 shell-IsCounted (omega arith) refl (omega arith)
