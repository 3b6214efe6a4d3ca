-- ===== src/Mm/Tables/Freed.antt =====
-- What `free_entry` and the loop over a page table take from the users of the frames.
use linux.Prelude.{
  ℕ, zero, suc, ◌+◌, ◌-◌, ◌*◌, ◌≤◌, ◌<◌, ◌≡◌, ◌≢◌, refl, sym, ap, ◌∙◌, fun_ext, subst, subst₂, true,
  false, ltb, leb, ◌==◌, if◌then◌else◌, get_or, length, leb→le, length-set, get_or-set_self,
  get_or-set_ne, arith, Bool-cases, inl, inr,
}
use linux.Prelude.Outcome.{Outcome, ok, ◌>>=◌}
use linux.Mm.{Memory, low_mem, map_nr, store, frame, is_present, free_page, drop_user}
use linux.Mm.Free.{IsMapped}
use linux.Mm.Tables.{free_entry, free_entries}
use linux.Mm.Tables.Users.{users, points, sum, refs, sum_ext, IsBelow}

-- A function ends, with `d` users fewer, and no frame but `f` has other words.
pub record Frees (d : ℕ → ℕ) (f : ℕ) (m : Memory) (r : Outcome Memory) : Type 0 where
  pub after : Memory
  pub ends : r ≡ ok after
  pub fewer : (i : ℕ) → users after i + d i ≡ users m i
  pub top : after.high_memory ≡ m.high_memory
  pub size : length after.mem_map ≡ length m.mem_map
  pub words : (g p : ℕ) → g ≢ f → after.page g p ≡ m.page g p

-- The same, with no other words
pub record Drops (d : ℕ → ℕ) (m : Memory) (r : Outcome Memory) : Type 0 where
  pub after : Memory
  pub ends : r ≡ ok after
  pub fewer : (i : ℕ) → users after i + d i ≡ users m i
  pub top : after.high_memory ≡ m.high_memory
  pub size : length after.mem_map ≡ length m.mem_map
  pub words : after.page ≡ m.page

-- Nothing is freed.
Drops-none : (d : ℕ → ℕ) (m : Memory) → ((i : ℕ) → d i ≡ 0) → Drops d m (ok m)
Drops-none d m z = record {
  after = m;
  ends = refl;
  fewer = λ i. let k = z i in omega (arith, k);
  top = refl;
  size = refl;
  words = refl;
}

users-drop_user :
    (k : ℕ) (m : Memory) (i : ℕ)
    → k < length m.mem_map
    → users m k ≢ 0
    → users (drop_user k m) i + (if k == i then 1 else 0) ≡ users m i
users-drop_user k m i h u = elim (Bool-cases (k == i)) [
  | inl e ↦
      let z : k ≡ i = ground arith in
      let q = get_or-set_self m.mem_map k (get_or m.mem_map k 0 - 1) 0 h in
      rw (e, sym z, q) (omega (arith, u))
  | inr e ↦
      let q = get_or-set_ne m.mem_map k i (get_or m.mem_map k 0 - 1) 0 (λ z. ground arith) in
      rw (e, q) (omega arith)
]

-- A frame with users is freed.
pub free_page-Drops :
    (e : ℕ) (m : Memory)
    → IsMapped m
    → is_present e ≡ true
    → IsBelow m e
    → ((i : ℕ) → points e i ≤ users m i)
    → Drops (points e) m (free_page (frame e * 4096) m)
unfolding free_page
free_page-Drops e m mm p b u = elim (Bool-cases (ltb (frame e * 4096) low_mem)) [
  | inl l ↦
      let lb : leb low_mem (frame e * 4096) ≡ false = ground arith in
      rw l (Drops-none (points e) m (λ i. rw (p, lb) refl))
  | inr l ↦
      let k = map_nr (frame e * 4096) in
      let lb : leb low_mem (frame e * 4096) ≡ true = ground arith in
      let lo : low_mem ≤ frame e * 4096 = leb→le _ _ lb in
      let hb : frame e * 4096 < m.high_memory = b p in
      let mp : m.high_memory ≤ low_mem + 4096 * length m.mem_map = mm in
      let kl : k < length m.mem_map = omega (arith, lo, hb, mp) in
      let h : leb m.high_memory (frame e * 4096) ≡ false = ground arith in
      let kk : (k == k) ≡ true = ground arith in
      let one : points e k ≡ 1 = rw (p, lb, kk) refl in
      let uk = u k in
      let z : (users m k == 0) ≡ false = ground arith in
      rw (l, h, z)
        (record {
          after = drop_user k m;
          ends = refl;
          fewer = λ i. rw (p, lb) (users-drop_user k m i kl (λ q. omega (arith, q, one, uk)));
          top = refl;
          size = length-set m.mem_map k _;
          words = refl;
        })
]

pub free_entry-Drops :
    (e : ℕ) (m : Memory)
    → IsMapped m
    → IsBelow m e
    → ((i : ℕ) → points e i ≤ users m i)
    → Drops (points e) m (free_entry e m)
unfolding free_entry
free_entry-Drops e m mm b u = elim (Bool-cases (is_present e)) [
  | inl p ↦ rw p (free_page-Drops e m mm p b u)
  | inr p ↦ rw p (Drops-none (points e) m (λ i. rw p refl))
]

-- One entry is freed, and then the rest of the table.
Frees-cons :
    (n f o : ℕ) (m : Memory) (r : Outcome Memory) (d : Drops (points (m.page f o)) m r)
    → Frees
        (refs (m.page f) (o + 1) n)
        f
        (store f o 0 d.after)
        (free_entries n f (o + 1) (store f o 0 d.after))
    → Frees (refs (m.page f) o (suc n)) f m (r >>= λ m₁. free_entries n f (o + 1) (store f o 0 m₁))
unfolding sum
Frees-cons n f o m r d s = record {
  after = s.after;
  ends = ap (λ q. q >>= λ m₁. free_entries n f (o + 1) (store f o 0 m₁)) d.ends ∙ s.ends;
  fewer = λ i. let a = s.fewer i in let b = d.fewer i in omega (arith, a, b);
  top = s.top ∙ d.top;
  size = s.size ∙ d.size;
  words = λ g p ne.
      let z : (g == f) ≡ false = ground arith in
      s.words g p ne ∙ (let w = ap (λ h. h g p) d.words in rw z w);
}

-- The rest of the table is as it was.
rest_same :
    (f o : ℕ) (m : Memory) (r : Outcome Memory) (d : Drops (points (m.page f o)) m r)
    → (p : ℕ) → o + 1 ≤ p
    → (store f o 0 d.after).page f p ≡ m.page f p
rest_same f o m r d p l =
    let z : (p == o) ≡ false = ground arith in
    let ff : (f == f) ≡ true = ground arith in rw (ff, z) (ap (λ h. h f p) d.words)

refs_same :
    (n f o : ℕ) (m : Memory) (r : Outcome Memory) (d : Drops (points (m.page f o)) m r) (i : ℕ)
    → refs ((store f o 0 d.after).page f) (o + 1) n i ≡ refs (m.page f) (o + 1) n i
refs_same n f o m r d i =
    sum_ext _ _ (o + 1) n (λ p l h. ap (λ e. points e i) (rest_same f o m r d p l))

free_nothing : (f o : ℕ) (m : Memory) → Frees (refs (m.page f) o 0) f m (ok m)
unfolding sum
free_nothing f o m = record {
  after = m;
  ends = refl;
  fewer = λ i. omega arith;
  top = refl;
  size = refl;
  words = λ g p d. refl;
}

head_users :
    (n f o : ℕ) (m : Memory) (i : ℕ)
    → refs (m.page f) o (suc n) i ≤ users m i
    → points (m.page f o) i ≤ users m i
unfolding sum
head_users n f o m i u = omega (arith, u)

-- What is left to free in the table is counted.
rest_users :
    (n f o : ℕ) (m : Memory) (r : Outcome Memory) (d : Drops (points (m.page f o)) m r) (i : ℕ)
    → refs (m.page f) o (suc n) i ≤ users m i
    → refs ((store f o 0 d.after).page f) (o + 1) n i ≤ users d.after i
unfolding sum
rest_users n f o m r d i u =
    let s = refs_same n f o m r d i in let k = d.fewer i in omega (arith, s, k, u)

-- The rest of the loop, by the loop on one entry less
free_rest :
    (n f o : ℕ) (m : Memory) (r : Outcome Memory) (d : Drops (points (m.page f o)) m r)
    → IsMapped m
    → ((p : ℕ) → o ≤ p → p < o + suc n → IsBelow m (m.page f p))
    → ((i : ℕ) → refs (m.page f) o (suc n) i ≤ users m i)
    → ((m₂ : Memory)
        → IsMapped m₂
        → ((p : ℕ) → o + 1 ≤ p → p < o + 1 + n → IsBelow m₂ (m₂.page f p))
        → ((i : ℕ) → refs (m₂.page f) (o + 1) n i ≤ users m₂ i)
        → Frees (refs (m₂.page f) (o + 1) n) f m₂ (free_entries n f (o + 1) m₂))
    → Frees (refs (m.page f) o (suc n)) f m (r >>= λ m₁. free_entries n f (o + 1) (store f o 0 m₁))
free_rest n f o m r d mm b u more =
    let m₂ = store f o 0 d.after in
    let t = d.top in
    let z = d.size in
    let same = fun_ext (λ i. refs_same n f o m r d i) in
    Frees-cons n f o m r d (
      subst (λ h. Frees h f m₂ (free_entries n f (o + 1) m₂)) same
        (more m₂ (omega (arith, t, z, mm))
          (λ p l h.
            subst₂ (λ e top. is_present e ≡ true → frame e * 4096 < top)
              (sym (rest_same f o m r d p l)) (sym t) (b p (omega arith) (omega arith)))
          (λ i. rest_users n f o m r d i (u i))))

-- A page table whose entries are counted is freed.
pub free_entries-Frees :
    (n f o : ℕ) (m : Memory)
    → IsMapped m
    → ((p : ℕ) → o ≤ p → p < o + n → IsBelow m (m.page f p))
    → ((i : ℕ) → refs (m.page f) o n i ≤ users m i)
    → Frees (refs (m.page f) o n) f m (free_entries n f o m)
unfolding free_entries
free_entries-Frees zero f o m mm b u = free_nothing f o m
free_entries-Frees (suc n) f o m mm b u =
    free_rest n f o m (free_entry (m.page f o) m)
      (free_entry-Drops (m.page f o) m mm (b o (omega arith) (omega arith))
        (λ i. head_users n f o m i (u i)))
      mm b u (free_entries-Frees n f (o + 1))
