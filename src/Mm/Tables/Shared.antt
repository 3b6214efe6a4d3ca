-- ===== src/Mm/Tables/Shared.antt =====
-- What the loop of `copy_page_tables` over one page table leaves: entries and users.
use linux.Prelude.{
  ℕ, ◌+◌, ◌*◌, ◌%◌, ◌≤◌, ◌<◌, ◌≡◌, ◌≢◌, refl, sym, ap, ◌∙◌, subst, Bool, true, false, ltb, leb,
  ◌==◌, if◌then◌else◌, get_or, length, leb→le, ltb→lt, length-set, get_or-set_self, get_or-set_ne,
  arith, Bool-cases, inl, inr, ◌⊎◌,
}
use linux.Mm.{Memory, low_mem, map_nr, store, frame, is_present}
use linux.Mm.Free.{IsMapped}
use linux.Mm.Tables.{read_only, add_user, copy_entry}
use linux.Mm.Tables.Users.{users, points, IsBelow}

-- Two entries are both absent, or show the same frame.
pub record IsAlike (e e' : ℕ) : Type 0 where
  pub presence : is_present e' ≡ is_present e
  pub shown : is_present e ≡ true → frame e' ≡ frame e

pub IsAlike-refl : (e : ℕ) → IsAlike e e
IsAlike-refl e = record { presence = refl; shown = λ p. refl }

read_only-IsAlike : (e : ℕ) → IsAlike e (read_only e)
unfolding read_only
read_only-IsAlike e = record { presence = ground arith; shown = λ p. ground arith }

pub points-IsAlike : (e e' i : ℕ) → IsAlike e e' → points e' i ≡ points e i
points-IsAlike e e' i a = elim (Bool-cases (is_present e)) [
  | inl p ↦ let q = a.presence in let f = a.shown p in rw (q, p, f) refl
  | inr p ↦ let q = a.presence in rw (q, p) refl
]

-- A word of table `f` is copied to table `g`.
pub record Shares (f g o : ℕ) (m m' : Memory) : Type 0 where
  pub more :
      (i : ℕ)
      → users m i + points (m.page f o) i ≤ 255
      → users m' i ≡ users m i + points (m.page f o) i
  pub top : m'.high_memory ≡ m.high_memory
  pub size : length m'.mem_map ≡ length m.mem_map
  pub source : (p : ℕ) → IsAlike (m.page f p) (m'.page f p)
  pub copied : is_present (m.page f o) ≡ true → IsAlike (m.page f o) (m'.page g o)
  pub skipped : is_present (m.page f o) ≡ false → m'.page g o ≡ m.page g o
  pub target : (p : ℕ) → p ≢ o → m'.page g p ≡ m.page g p
  pub words : (h p : ℕ) → h ≢ f → h ≢ g → m'.page h p ≡ m.page h p

users-add_user :
    (k : ℕ) (m : Memory) (i : ℕ)
    → k < length m.mem_map
    → users m i + (if k == i then 1 else 0) ≤ 255
    → users (add_user k m) i ≡ users m i + (if k == i then 1 else 0)
users-add_user k m i h u = elim (Bool-cases (k == i)) [
  | inl e ↦
      let z : k ≡ i = ground arith in
      let q = get_or-set_self m.mem_map k ((get_or m.mem_map k 0 + 1) % 256) 0 h in
      let t : ◌≡◌ {A = ℕ} (if k == i then 1 else 0) 1 = rw e refl in
      let w : users m k ≡ users m i = ap (users m) z in
      let y : users (add_user k m) k ≡ users (add_user k m) i = ap (users (add_user k m)) z in
      omega (arith, q, t, w, y, u)
  | inr e ↦
      let q =
        get_or-set_ne m.mem_map k i ((get_or m.mem_map k 0 + 1) % 256) 0 (λ z. ground arith) in
      rw (e, q) (omega arith)
]

at_word : (f o v : ℕ) (m : Memory) → (store f o v m).page f o ≡ v
at_word f o v m = ground arith

off_word : (f o v h p : ℕ) (m : Memory) → (h ≢ f) ⊎ (p ≢ o) → (store f o v m).page h p ≡ m.page h p
off_word f o v h p m d = ground arith

-- The memory with the word `t` in both tables, or in the new one alone
both : ℕ → ℕ → ℕ → ℕ → Memory → Memory
both f g o t m = store f o t (store g o t m)

both-source :
    (f g o t q : ℕ) (m : Memory)
    → f ≢ g
    → IsAlike (m.page f o) t
    → IsAlike (m.page f q) ((both f g o t m).page f q)
unfolding both
both-source f g o t q m ne a = elim (Bool-cases (q == o)) [
  | inl e ↦
      let z : o ≡ q = ground arith in
      subst (λ k. IsAlike (m.page f k) ((both f g o t m).page f k)) z
        (subst (IsAlike (m.page f o)) (sym (at_word f o t (store g o t m))) a)
  | inr e ↦
      let d : q ≢ o = λ k. ground arith in
      subst (IsAlike (m.page f q))
        (sym (off_word f o t f q (store g o t m) (inr d) ∙ off_word g o t f q m (inr d)))
        (IsAlike-refl (m.page f q))
]

both_target :
    (f g o t q : ℕ) (m : Memory) → f ≢ g → (both f g o t m).page g q ≡ (store g o t m).page g q
unfolding both
both_target f g o t q m ne = off_word f o t g q (store g o t m) (inl (λ e. ne (sym e)))

both_words : (f g o t h p : ℕ) (m : Memory) → h ≢ f → h ≢ g → (both f g o t m).page h p ≡ m.page h p
unfolding both
both_words f g o t h p m d d' =
    off_word f o t h p (store g o t m) (inl d) ∙ off_word g o t h p m (inl d')

false≢ : {b : Bool} → b ≡ true → b ≡ false → ⊥
false≢ p z = let w : true ≡ false = sym p ∙ z in ground arith

-- A managed frame gets one user more.
managed-Shares :
    (f g o : ℕ) (m : Memory)
    → f ≢ g
    → IsMapped m
    → is_present (m.page f o) ≡ true
    → IsBelow m (m.page f o)
    → ltb low_mem (read_only (m.page f o)) ≡ true
    → Shares f g o m
        (add_user (map_nr (read_only (m.page f o))) (both f g o (read_only (m.page f o)) m))
unfolding both
managed-Shares f g o m ne mm p b l =
    let e = m.page f o in
    let t = read_only e in
    let a = read_only-IsAlike e in
    let fr : frame t ≡ frame e = a.shown p in
    let lt : low_mem < t = ltb→lt _ _ l in
    let lo : leb low_mem (frame e * 4096) ≡ true = ground arith in
    let k : map_nr t ≡ map_nr (frame e * 4096) = omega arith in
    let hb : frame e * 4096 < m.high_memory = b p in
    let le : low_mem ≤ frame e * 4096 = leb→le _ _ lo in
    let kl : map_nr (frame e * 4096) < length m.mem_map = omega (arith, mm, hb, le) in
    record {
      more = λ i. rw (p, lo, k) (λ u. users-add_user (map_nr (frame e * 4096)) m i kl u);
      top = refl;
      size = length-set m.mem_map _ _;
      source = λ q. both-source f g o t q m ne a;
      copied = λ z. subst (IsAlike e) (sym (both_target f g o t o m ne ∙ at_word g o t m)) a;
      skipped = λ z. absurd (false≢ p z);
      target = λ q d. both_target f g o t q m ne ∙ off_word g o t g q m (inr d);
      words = λ h q d d'. both_words f g o t h q m d d';
    }

-- A frame below LOW_MEM is not counted.
low-Shares :
    (f g o : ℕ) (m : Memory)
    → f ≢ g
    → is_present (m.page f o) ≡ true
    → ltb low_mem (read_only (m.page f o)) ≡ false
    → Shares f g o m (store g o (read_only (m.page f o)) m)
low-Shares f g o m ne p l =
    let e = m.page f o in
    let t = read_only e in
    let a = read_only-IsAlike e in
    let fr : frame t ≡ frame e = a.shown p in
    let pr : is_present t ≡ true = a.presence ∙ p in
    let lo : leb low_mem (frame e * 4096) ≡ false = ground arith in
    record {
      more = λ i. rw (p, lo) (λ u. omega arith);
      top = refl;
      size = refl;
      source = λ q.
          subst (IsAlike (m.page f q)) (sym (off_word g o t f q m (inl ne)))
            (IsAlike-refl (m.page f q));
      copied = λ z. subst (IsAlike e) (sym (at_word g o t m)) a;
      skipped = λ z. absurd (false≢ p z);
      target = λ q d. off_word g o t g q m (inr d);
      words = λ h q d d'. off_word g o t h q m (inl d');
    }

pub copy_entry-Shares :
    (f g o : ℕ) (m : Memory)
    → f ≢ g
    → IsMapped m
    → IsBelow m (m.page f o)
    → Shares f g o m (copy_entry f g o m)
unfolding copy_entry both
copy_entry-Shares f g o m ne mm b = elim (Bool-cases (is_present (m.page f o))) [
  | inl p ↦ elim (Bool-cases (ltb low_mem (read_only (m.page f o)))) [
    | inl l ↦ rw (p, l) (managed-Shares f g o m ne mm p b l)
    | inr l ↦ rw (p, l) (low-Shares f g o m ne p l)
  ]
  | inr p ↦ rw p (record {
    more = λ i. rw p (λ u. omega arith);
    top = refl;
    size = refl;
    source = λ q. IsAlike-refl (m.page f q);
    copied = λ z. absurd (false≢ z p);
    skipped = λ z. refl;
    target = λ q d. refl;
    words = λ h q d d'. refl;
  })
]
