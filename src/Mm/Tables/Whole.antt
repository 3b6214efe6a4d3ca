-- ===== src/Mm/Tables/Whole.antt =====
-- What `copy_page_tables` leaves.
use linux.Prelude.{
  ℕ, suc, ◌+◌, ◌≤◌, ◌<◌, ◌≡◌, sym, ap, ◌∙◌, subst, subst₂, ◌⊎◌, true, false, ◌==◌, arith,
  Bool-cases, inl, inr,
}
use linux.Mm.{Memory, frame, is_present}
use linux.Mm.Tables.Shared.{IsAlike}
use linux.Mm.Tables.Copied.{IsAlike-trans}
use linux.Mm.Tables.Added.{IsAdded}
use linux.Mm.Tables.Sharing.{IsOutside, Extends, same_number}

-- A block `t` from `to` on is there if the block `s` that it is copied from was, with like entries.
pub record IsSharing (n d to : ℕ) (m m' : Memory) : Type 0 where
  pub present :
      (s t : ℕ)
      → d ≤ s
      → s < d + n
      → s + to ≡ t + d
      → is_present (m'.page 0 t) ≡ is_present (m.page 0 s)
  pub entries :
      (s t q : ℕ)
      → d ≤ s
      → s < d + n
      → s + to ≡ t + d
      → q < 1024
      → is_present (m.page 0 s) ≡ true
      → IsAlike (m.page (frame (m.page 0 s)) q) (m'.page (frame (m'.page 0 t)) q)

one_block : (d s to t : ℕ) → d ≤ s → s < d + 1 → s + to ≡ t + d → (d ≡ s) × (to ≡ t)
one_block d s to t l u e = (omega arith, omega arith)

pub nothing-IsSharing :
    (d to : ℕ) (m : Memory)
    → is_present (m.page 0 d) ≡ false
    → is_present (m.page 0 to) ≡ false
    → IsSharing 1 d to m m
nothing-IsSharing d to m a b = record {
  present = λ s t l u e.
      let (x, y) = one_block d s to t l u e in
      subst₂ (λ s t. is_present (m.page 0 t) ≡ is_present (m.page 0 s)) x y (b ∙ sym a);
  entries = λ s t q l u e ql p.
      let (x, y) = one_block d s to t l u e in
      let w : true ≡ false = sym p ∙ ap (λ s. is_present (m.page 0 s)) (sym x) ∙ a in
      absurd (ground arith);
}

pub added-IsSharing :
    (d to k : ℕ) (m m' : Memory)
    → is_present (m.page 0 d) ≡ true
    → IsAdded d to k m m'
    → IsSharing 1 d to m m'
added-IsSharing d to k m m' p a = record {
  present = λ s t l u e.
      let (x, y) = one_block d s to t l u e in
      subst₂ (λ s t. is_present (m'.page 0 t) ≡ is_present (m.page 0 s)) x y (a.presence ∙ sym p);
  entries = λ s t q l u e ql pq.
      let (x, y) = one_block d s to t l u e in
      subst₂ (λ s t. IsAlike (m.page (frame (m.page 0 s)) q) (m'.page (frame (m'.page 0 t)) q)) x y
        (subst (λ f. IsAlike (m.page (frame (m.page 0 d)) q) (m'.page f q)) (sym a.shown)
          (a.table q ql));
}

abbrev pub AreApart : ℕ → ℕ → ℕ → Type 0
AreApart n d to = (d + n ≤ to) ⊎ (to + n ≤ d)

-- The first block and then the others
module _ (n d to : ℕ) (m m₁ m' : Memory) (ld : 4 ≤ d) (lt : 4 ≤ to) (hd : d + suc n ≤ 1024)
    (ht : to + suc n ≤ 1024) (ap : AreApart (suc n) d to) (x : Extends 1 to m m₁)
    (y : Extends n (to + 1) m₁ m') (a : IsSharing 1 d to m m₁)
    (b : IsSharing n (d + 1) (to + 1) m₁ m') where
  first_present :
      (s t : ℕ) → (d ≡ s) → s + to ≡ t + d → is_present (m'.page 0 t) ≡ is_present (m.page 0 s)
  first_present s t z e =
      subst (λ v. is_present v ≡ is_present (m.page 0 s)) (sym (y.directory t (inl (omega arith))))
        (a.present s t (omega arith) (omega arith) e)

  first_entries :
      (s t q : ℕ)
      → (d ≡ s)
      → s + to ≡ t + d
      → q < 1024
      → is_present (m.page 0 s) ≡ true
      → IsAlike (m.page (frame (m.page 0 s)) q) (m'.page (frame (m'.page 0 t)) q)
  first_entries s t q z e ql p =
      let i = a.present s t (omega arith) (omega arith) e ∙ p in
      let w = a.entries s t q (omega arith) (omega arith) e ql p in
      let v = y.tables t q (omega arith) (inl (omega arith)) i in
      subst (λ u. IsAlike (m.page (frame (m.page 0 s)) q) (m'.page (frame u) q))
        (sym (y.directory t (inl (omega arith)))) (IsAlike-trans _ _ _ w v)

  outside : (s : ℕ) → d ≤ s → s < d + suc n → IsOutside s to 1
  outside s l u = ground arith

  later_present :
      (s t : ℕ)
      → d < s
      → s < d + suc n
      → s + to ≡ t + d
      → is_present (m'.page 0 t) ≡ is_present (m.page 0 s)
  later_present s t l u e =
      subst (λ v. is_present (m'.page 0 t) ≡ is_present v)
        (x.directory s (outside s (omega arith) u))
        (b.present s t (omega arith) (omega arith) (omega arith))

  later_entries :
      (s t q : ℕ)
      → d < s
      → s < d + suc n
      → s + to ≡ t + d
      → q < 1024
      → is_present (m.page 0 s) ≡ true
      → IsAlike (m.page (frame (m.page 0 s)) q) (m'.page (frame (m'.page 0 t)) q)
  later_entries s t q l u e ql p =
      let o = outside s (omega arith) u in
      let z = x.directory s o in
      let p' = subst (λ v. is_present v ≡ true) (sym z) p in
      let w = b.entries s t q (omega arith) (omega arith) (omega arith) ql p' in
      let v = x.tables s q (omega arith) o p in
      IsAlike-trans _ _ _ v
        (subst (λ u. IsAlike (m₁.page (frame u) q) (m'.page (frame (m'.page 0 t)) q)) z w)

  pub IsSharing-cons : IsSharing (suc n) d to m m'
  IsSharing-cons = record {
    present = λ s t l u e. elim (Bool-cases (d == s)) [
      | inl z ↦ first_present s t (same_number d s z) e
      | inr z ↦ later_present s t (ground arith) u e
    ];
    entries = λ s t q l u e ql p. elim (Bool-cases (d == s)) [
      | inl z ↦ first_entries s t q (same_number d s z) e ql p
      | inr z ↦ later_entries s t q (ground arith) u e ql p
    ];
  }
