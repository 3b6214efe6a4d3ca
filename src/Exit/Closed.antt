-- ===== src/Exit/Closed.antt =====
-- The loop of `do_exit` over the descriptors.
use linux.Prelude.{
  ℕ, zero, suc, ◌+◌, ◌<◌, ◌≤◌, ◌≡◌, refl, ap, ◌∙◌, inl, inr, List, [], ◌∷◌, Option, none, some,
  ◌==◌, get_or, length, get_or-set_self, get_or-set_ne, arith, Bool-cases, Option-cases,
}
use linux.Prelude.Outcome.{Outcome, ok}
use linux.Files.{Files, filp_at}
use linux.Files.Count.{IsCounted, refs}
use linux.Files.Calls.{bare, sys_close-IsClosed}
use linux.Exit.{close_all}

-- The `n` descriptors from `fd` on are closed, and the task is the same but for them.
pub record Closes (others : ℕ → ℕ) (n fd : ℕ) (s : Files) (r : Outcome Files) : Type 0 where
  pub after : Files
  pub ends : r ≡ ok after
  pub counted : IsCounted others after
  pub same : bare after.current ≡ bare s.current
  pub closed : (k : ℕ) → fd ≤ k → k < fd + n → filp_at after k ≡ none
  pub kept : (k : ℕ) → k < fd → filp_at after k ≡ filp_at s k

-- One descriptor and then the others
Closes-cons :
    (others : ℕ → ℕ) (n fd : ℕ) (s s₁ : Files) (r : Outcome Files)
    → bare s₁.current ≡ bare s.current
    → filp_at s₁ fd ≡ none
    → ((k : ℕ) → k < fd → filp_at s₁ k ≡ filp_at s k)
    → Closes others n (fd + 1) s₁ r
    → Closes others (suc n) fd s r
Closes-cons others n fd s s₁ r b e h c = record {
  after = c.after;
  ends = c.ends;
  counted = c.counted;
  same = c.same ∙ b;
  closed = λ k l u. elim (Bool-cases (fd == k)) [
    | inl z ↦ let w : k ≡ fd = ground arith in ap (filp_at c.after) w ∙ c.kept fd (omega arith) ∙ e
    | inr z ↦ c.closed k (ground arith) (omega arith)
  ];
  kept = λ k l. c.kept k (omega arith) ∙ h k l;
}

pub close_all-Closes :
    (others : ℕ → ℕ) (n fd : ℕ) (s : Files)
    → fd + n ≤ 20
    → IsCounted others s
    → Closes others n fd s (close_all n fd s)
unfolding close_all
close_all-Closes others zero fd s h c = record {
  after = s;
  ends = refl;
  counted = c;
  same = refl;
  closed = λ k l u. absurd (omega arith);
  kept = λ k l. refl;
}
close_all-Closes others (suc n) fd s h c = elim (Option-cases (filp_at s fd)) [
  | inl e ↦ rw e (
      Closes-cons others n fd s s _ refl e (λ k l. refl)
        (close_all-Closes others n (fd + 1) s (omega arith) c))
  | inr (f, e) ↦
      let r = sys_close-IsClosed others s fd f c (omega arith) e in
      let size = c.open_files in
      rw (e, r.ends)
        (Closes-cons others n fd s r.after _ r.same
          (ap (λ os. get_or os fd none) r.filp
            ∙ get_or-set_self s.current.filp fd none none (omega (arith, size, h)))
          (λ k l.
            ap (λ os. get_or os k none) r.filp
            ∙ get_or-set_ne s.current.filp fd k none none (λ z. omega arith))
          (close_all-Closes others n (fd + 1) r.after (omega arith) r.counted))
]

-- A task that has no file open has no share in any count.
pub refs-none :
    (f : ℕ) (os : List (Option ℕ))
    → ((k : ℕ) → k < length os → get_or os k none ≡ none)
    → refs f os ≡ 0
unfolding refs
refs-none f [] h = refl
refs-none f (none ∷ os) h =
    let r = refs-none f os (λ k l. h (suc k) (omega arith)) in omega (arith, r)
refs-none f (some g ∷ os) h = let e : some g ≡ none = h 0 (omega arith) in cc
