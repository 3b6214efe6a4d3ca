-- ===== src/Files/Dup.antt =====
-- The descriptor that `dupfd` gives, and `dup2` of a descriptor and itself.
use linux.Prelude.{
  ℕ, zero, suc, ◌+◌, ◌-◌, ◌%◌, ◌^◌, ◌≤◌, ◌<◌, ◌≡◌, ◌⊎◌, ◌∙◌, refl, List, Option, none, some, true,
  false, ℤ, pos, leb, ◌==◌, get_or, length, get_or-set_self, get_or-set_ne, arith, Bool-cases,
  Option-cases, inl, inr,
}
use linux.Prelude.Outcome.{ok}
use linux.Task.{error}
use linux.Files.{
  Files, ebadf, emfile, filp_at, keep_on_exec, is_open, first_free, share_file, dupfd, sys_close,
  sys_dup2,
}
use linux.Files.Count.{IsCounted, count_bounds, count_at, first_free_lem}

-- Every descriptor before the one found is in use.
first_free_before :
    (n arg : ℕ) (os : List (Option ℕ)) (k : ℕ)
    → arg ≤ k
    → k < first_free n arg os
    → is_open (get_or os k none) ≡ true
unfolding first_free
first_free_before zero arg os k h l = absurd (omega arith)
first_free_before (suc n) arg os k h l = elim (Option-cases (get_or os arg none)) [
  | inl e ↦ let m : k < arg = (rw e at l) in absurd (omega arith)
  | inr (f, e) ↦
      let m : k < first_free n (suc arg) os = (rw e at l) in
      elim (Bool-cases (arg == k)) [
        | inl q ↦ let p : k ≡ arg = ground arith in rw (p, e) refl
        | inr q ↦ first_free_before n (suc arg) os k (ground arith) m
      ]
]

first_free_ge : (n arg : ℕ) (os : List (Option ℕ)) → arg ≤ first_free n arg os
unfolding first_free
first_free_ge zero arg os = omega arith
first_free_ge (suc n) arg os = let ih = first_free_ge n (suc arg) os in ground arith

-- The descriptor that `dupfd` gives for the file f, asked for one from `arg` on.
pub record Given (s s' : Files) (f arg : ℕ) (r : ℤ) : Type 0 where
  pub fd : ℕ
  pub result : r ≡ pos fd
  pub in_range : fd < 20
  pub asked : arg ≤ fd
  pub was_free : filp_at s fd ≡ none
  pub first : (k : ℕ) → arg ≤ k → k < fd → is_open (filp_at s k) ≡ true
  pub there : filp_at s' fd ≡ some f
  pub elsewhere : (k : ℕ) → (k ≡ fd) ⊎ (filp_at s' k ≡ filp_at s k)
  pub kept_on_exec : s'.current.close_on_exec ≡ (keep_on_exec fd s).current.close_on_exec
  pub count : (s'.file f).count ≡ (s.file f).count + 1

share_file-Given :
    (s : Files) (f arg a : ℕ)
    → length s.current.filp ≡ 20
    → (s.file f).count ≤ 60020
    → arg ≤ a
    → a < 20
    → filp_at s a ≡ none
    → ((k : ℕ) → arg ≤ k → k < a → is_open (filp_at s k) ≡ true)
    → Given s (share_file f a s).1 f arg (share_file f a s).0
share_file-Given s f arg a n c ge lt free before =
    let small : leb 20 a ≡ false = ground arith in
    rw small (record {
      fd = a;
      result = refl;
      in_range = lt;
      asked = ge;
      was_free = free;
      first = before;
      there = get_or-set_self s.current.filp a (some f) none (omega arith);
      elsewhere = λ k. elim (Bool-cases (k == a)) [
        | inl e ↦ inl (ground arith)
        | inr e ↦ inr (get_or-set_ne s.current.filp a k (some f) none (ground arith))
      ];
      kept_on_exec = refl;
      count = count_at s.file f (((s.file f).count + 1) % 2 ^ 16) f ∙ ground arith;
    })

-- `dupfd` of an open descriptor, asked for one from `arg` below 20 on: the first empty one from
-- there, which then stands for the same file, has one user more and stays open over `exec`, with
-- every other descriptor as before; or, if all from there on are in use, -EMFILE and no change.
pub dupfd-Given :
    (others : ℕ → ℕ) (s : Files) (fd f arg : ℕ)
    → IsCounted others s
    → fd < 20
    → filp_at s fd ≡ some f
    → arg < 20
    → Given s (dupfd fd arg s).1 f arg (dupfd fd arg s).0
      ⊎ (((k : ℕ) → arg ≤ k → k < 20 → is_open (filp_at s k) ≡ true)
          × (dupfd fd arg s ≡ (error emfile, s)))
unfolding dupfd
dupfd-Given others s fd f arg c h e l =
    let a = first_free (20 - arg) arg s.current.filp in
    let fd_in : leb 20 fd ≡ false = ground arith in
    let arg_in : leb 20 arg ≡ false = ground arith in
    let (lo, hi) = count_bounds others s.current.filp s.file fd f c e in
    let before = first_free_before (20 - arg) arg s.current.filp in
    rw (fd_in, e, arg_in)
      (elim (first_free_lem (20 - arg) arg s.current.filp) [
        | inl p ↦
            let full : a ≡ 20 = omega arith in
            inr ((λ k g b. before k g (omega arith)), rw full refl)
        | inr (b, free) ↦ inl (
            share_file-Given s f arg a c.open_files hi (first_free_ge (20 - arg) arg s.current.filp)
              (omega arith) free before)
      ])

close_open :
    (others : ℕ → ℕ) (s : Files) (fd f : ℕ)
    → IsCounted others s
    → fd < 20
    → filp_at s fd ≡ some f
    → (s' : Files) × (sys_close fd s ≡ ok (pos 0, s')) × (filp_at s' fd ≡ none)
unfolding sys_close
close_open others s fd f c h e =
    let (lo, hi) = count_bounds others s.current.filp s.file fd f c e in
    let n = c.open_files in
    let fd_in : leb 20 fd ≡ false = ground arith in
    let some_user : ((s.file f).count == 0) ≡ false = ground arith in
    let gone = get_or-set_self s.current.filp fd none none (omega arith) in
    rw (fd_in, e, some_user)
      (elim (Bool-cases ((s.file f).count == 1)) [
        | inl one ↦ rw one (_, refl, gone)
        | inr more ↦ rw more (_, refl, gone)
      ])

dupfd_of_closed :
    (s : Files) (fd arg : ℕ) → fd < 20 → filp_at s fd ≡ none → dupfd fd arg s ≡ (error ebadf, s)
unfolding dupfd
dupfd_of_closed s fd arg h e = let fd_in : leb 20 fd ≡ false = ground arith in rw (fd_in, e) refl

-- `dup2` of an open descriptor to itself closes it and fails with -EBADF.
pub sys_dup2_same_fails :
    (others : ℕ → ℕ) (s : Files) (fd f : ℕ)
    → IsCounted others s
    → fd < 20
    → filp_at s fd ≡ some f
    → (s' : Files) × (sys_dup2 fd fd s ≡ ok (error ebadf, s')) × (filp_at s' fd ≡ none)
unfolding sys_dup2
sys_dup2_same_fails others s fd f c h e =
    let (s', r, gone) = close_open others s fd f c h e in
    (s', rw (r, dupfd_of_closed s' fd fd h gone) refl, gone)
