-- ===== src/Mm/Tables/Copied.antt =====
-- What the loop of `copy_page_tables` over one page table leaves.
use linux.Prelude.{
  ℕ, zero, suc, ◌+◌, ◌*◌, ◌≤◌, ◌<◌, ◌≡◌, ◌≢◌, refl, sym, ◌∙◌, subst, subst₂, true, false, ◌==◌,
  length, arith, Bool-cases, inl, inr,
}
use linux.Mm.{Memory, is_present}
use linux.Mm.Free.{IsMapped}
use linux.Mm.Tables.{copy_entry, copy_entries}
use linux.Mm.Tables.Users.{users, sum, refs, sum_ext, IsBelow}
use linux.Mm.Tables.Shared.{IsAlike, IsAlike-refl, points-IsAlike, Shares, copy_entry-Shares}

pub IsAlike-trans : (a b c : ℕ) → IsAlike a b → IsAlike b c → IsAlike a c
IsAlike-trans a b c h k = record {
  presence = k.presence ∙ h.presence;
  shown = λ p. k.shown (h.presence ∙ p) ∙ h.shown p;
}

pub record Copies (n f g o : ℕ) (m m' : Memory) : Type 0 where
  pub more :
      (i : ℕ)
      → users m i + refs (m.page f) o n i ≤ 255
      → users m' i ≡ users m i + refs (m.page f) o n i
  pub top : m'.high_memory ≡ m.high_memory
  pub size : length m'.mem_map ≡ length m.mem_map
  pub source : (p : ℕ) → IsAlike (m.page f p) (m'.page f p)
  pub copied :
      (p : ℕ)
      → o ≤ p
      → p < o + n
      → is_present (m.page f p) ≡ true
      → IsAlike (m.page f p) (m'.page g p)
  pub skipped :
      (p : ℕ) → o ≤ p → p < o + n → is_present (m.page f p) ≡ false → m'.page g p ≡ m.page g p
  pub before : (p : ℕ) → p < o → m'.page g p ≡ m.page g p
  pub behind : (p : ℕ) → o + n ≤ p → m'.page g p ≡ m.page g p
  pub words : (h p : ℕ) → h ≢ f → h ≢ g → m'.page h p ≡ m.page h p

pub IsBelow-alike :
    (m m' : Memory) (e e' : ℕ)
    → m'.high_memory ≡ m.high_memory
    → IsAlike e e'
    → IsBelow m e
    → IsBelow m' e'
IsBelow-alike m m' e e' t a b p =
    let q : is_present e ≡ true = sym a.presence ∙ p in
    subst₂ (λ v top. v * 4096 < top) (sym (a.shown q)) (sym t) (b q)

pub refs-alike :
    (w v : ℕ → ℕ) (o n i : ℕ) → ((p : ℕ) → IsAlike (w p) (v p)) → refs v o n i ≡ refs w o n i
refs-alike w v o n i a = sum_ext _ _ o n (λ p l u. points-IsAlike (w p) (v p) i (a p))

Copies-none : (f g o : ℕ) (m : Memory) → Copies 0 f g o m m
unfolding sum
Copies-none f g o m = record {
  more = λ i u. omega arith;
  top = refl;
  size = refl;
  source = λ p. IsAlike-refl (m.page f p);
  copied = λ p l u q. absurd (omega arith);
  skipped = λ p l u q. absurd (omega arith);
  before = λ p l. refl;
  behind = λ p l. refl;
  words = λ h p d d'. refl;
}

Copies-cons :
    (n f g o : ℕ) (m m₁ m' : Memory)
    → Shares f g o m m₁
    → Copies n f g (o + 1) m₁ m'
    → Copies (suc n) f g o m m'
unfolding sum
Copies-cons n f g o m m₁ m' s c = record {
  more = λ i u.
      let r = refs-alike (m.page f) (m₁.page f) (o + 1) n i s.source in
      let a = s.more i (omega (arith, u)) in
      let b = c.more i (omega (arith, u, r, a)) in omega (arith, r, a, b);
  top = c.top ∙ s.top;
  size = c.size ∙ s.size;
  source = λ p. IsAlike-trans _ _ _ (s.source p) (c.source p);
  copied = λ p l u q. elim (Bool-cases (o == p)) [
    | inl e ↦
        let z : o ≡ p = ground arith in
        let q' : is_present (m.page f o) ≡ true =
          subst (λ k. is_present (m.page f k) ≡ true) (sym z) q in
        subst (λ k. IsAlike (m.page f k) (m'.page g k)) z
          (subst (IsAlike (m.page f o)) (sym (c.before o (omega arith))) (s.copied q'))
    | inr e ↦
        IsAlike-trans _ _ _ (s.source p)
          (c.copied p (ground arith) (omega arith) ((s.source p).presence ∙ q))
  ];
  skipped = λ p l u q. elim (Bool-cases (o == p)) [
    | inl e ↦
        let z : o ≡ p = ground arith in
        let q' : is_present (m.page f o) ≡ false =
          subst (λ k. is_present (m.page f k) ≡ false) (sym z) q in
        subst (λ k. m'.page g k ≡ m.page g k) z (c.before o (omega arith) ∙ s.skipped q')
    | inr e ↦
        c.skipped p (ground arith) (omega arith) ((s.source p).presence ∙ q)
        ∙ s.target p (λ k. ground arith)
  ];
  before = λ p l. c.before p (omega arith) ∙ s.target p (λ e. omega arith);
  behind = λ p l. c.behind p (omega arith) ∙ s.target p (λ e. omega arith);
  words = λ h p d d'. c.words h p d d' ∙ s.words h p d d';
}

pub copy_entries-Copies :
    (n f g o : ℕ) (m : Memory)
    → f ≢ g
    → IsMapped m
    → ((p : ℕ) → o ≤ p → p < o + n → IsBelow m (m.page f p))
    → Copies n f g o m (copy_entries n f g o m)
unfolding copy_entries
copy_entries-Copies zero f g o m ne mm b = Copies-none f g o m
copy_entries-Copies (suc n) f g o m ne mm b =
    let m₁ = copy_entry f g o m in
    let s = copy_entry-Shares f g o m ne mm (b o (omega arith) (omega arith)) in
    let t = s.top in
    let z = s.size in
    Copies-cons n f g o m m₁ _ s (
      copy_entries-Copies n f g (o + 1) m₁ ne (omega (arith, t, z, mm)) (λ p l u.
        IsBelow-alike m m₁ (m.page f p) (m₁.page f p) t (s.source p)
          (b p (omega arith) (omega arith))))
