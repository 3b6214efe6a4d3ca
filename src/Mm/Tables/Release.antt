-- ===== src/Mm/Tables/Release.antt =====
-- The users after one block, and then a range of them, is freed.
use linux.Prelude.{
  ℕ, ◌+◌, ◌*◌, ◌≤◌, ◌<◌, ◌≡◌, ◌≢◌, refl, sym, ap, ◌∙◌, fun_ext, subst, subst₂, true, false, ◌==◌,
  length, arith, Bool-cases, inl, inr,
}
use linux.Prelude.Outcome.{Outcome, ok, ◌>>=◌}
use linux.Mm.{Memory, store, frame, is_present, free_page}
use linux.Mm.Tables.{free_table}
use linux.Mm.Tables.Users.{users, points, refs, block, sum_changed, sum-le, IsUser, IsCounted}
use linux.Mm.Tables.Freed.{Frees, Drops, free_entries-Frees, free_page-Drops}

abbrev IsUnder : ℕ → ℕ → Type 0
IsUnder e top = is_present e ≡ true → frame e * 4096 < top

-- Block `d` with the table in frame `f` is gone, with its users.
record IsEmptied (d f : ℕ) (m m' : Memory) : Type 0 where
  fewer : (i : ℕ) → users m' i + block m d i ≡ users m i
  top : m'.high_memory ≡ m.high_memory
  size : length m'.mem_map ≡ length m.mem_map
  cleared : m'.page 0 d ≡ 0
  directory : (k : ℕ) → k ≢ d → m'.page 0 k ≡ m.page 0 k
  words : (g : ℕ) → g ≢ 0 → g ≢ f → m'.page g ≡ m.page g

-- An entry that is present after is another one, and was present before.
kept :
    {d f : ℕ} {m m' : Memory}
    → IsEmptied d f m m'
    → (k : ℕ) → is_present (m'.page 0 k) ≡ true
    → k ≢ d
kept {d} {f} {m} {m'} g k p e =
    let z : m'.page 0 k ≡ 0 = ap (λ j. m'.page 0 j) e ∙ g.cleared in
    let q : is_present 0 ≡ true = subst (λ v. is_present v ≡ true) z p in
    absurd (let t : false ≡ true = q in ground arith)

module _ (extra : ℕ → ℕ) (d : ℕ) (m m' : Memory) (dl : IsUser d)
    (p : is_present (m.page 0 d) ≡ true) (c : IsCounted extra m)
    (g : IsEmptied d (frame (m.page 0 d)) m m') where
  -- Another block is as it was.
  block_kept : (k i : ℕ) → IsUser k → k ≢ d → block m' k i ≡ block m k i
  block_kept k i kl ne = elim (Bool-cases (is_present (m.page 0 k))) [
    | inl q ↦
        let w = g.words (frame (m.page 0 k)) (c.off_directory k kl q) (c.apart k d kl dl ne q p) in
        rw (g.directory k ne, q, w) refl
    | inr q ↦ rw (g.directory k ne, q) refl
  ]

  block_cleared : (i : ℕ) → block m' d i ≡ 0
  block_cleared i = rw g.cleared refl

  present_before : (k : ℕ) → is_present (m'.page 0 k) ≡ true → is_present (m.page 0 k) ≡ true
  present_before k q = subst (λ v. is_present v ≡ true) (g.directory k (kept g k q)) q

  same : (k : ℕ) → is_present (m'.page 0 k) ≡ true → m'.page 0 k ≡ m.page 0 k
  same k q = g.directory k (kept g k q)

  page_kept :
      (k : ℕ)
      → IsUser k
      → is_present (m'.page 0 k) ≡ true
      → m'.page (frame (m'.page 0 k)) ≡ m.page (frame (m.page 0 k))
  page_kept k kl q =
      let b = present_before k q in
      ap (λ v. m'.page (frame v)) (same k q)
      ∙ g.words (frame (m.page 0 k)) (c.off_directory k kl b) (c.apart k d kl dl (kept g k q) b p)

  IsEmptied-IsCounted : IsCounted extra m'
  IsEmptied-IsCounted = record {
    counted = λ i.
        let s =
          sum_changed (λ k. block m' k i) (λ k. block m k i) d 4 1020
            (λ k l u ne. block_kept k i (omega arith) ne) (omega arith) (omega arith) in
        let z = block_cleared i in
        let a = c.counted i in let f = g.fewer i in omega (arith, s, z, a, f);
    mapped = let a = c.mapped in let t = g.top in let z = g.size in omega (arith, a, t, z);
    tables = λ k kl q.
        subst₂ (λ v top. frame v * 4096 < top) (sym (same k q)) (sym g.top)
          (c.tables k kl (present_before k q));
    pages = λ k o kl q ol.
        subst₂ (λ v top. IsUnder v top) (sym (ap (λ w. w o) (page_kept k kl q))) (sym g.top)
          (c.pages k o kl (present_before k q) ol);
    apart = λ k e kl el ne q r.
        subst₂ (λ v w. frame v ≢ frame w) (sym (same k q)) (sym (same e r))
          (c.apart k e kl el ne (present_before k q) (present_before e r));
    off_directory = λ k kl q.
        subst (λ v. frame v ≢ 0) (sym (same k q)) (c.off_directory k kl (present_before k q));
  }

-- The body of the loop ends, with block `d` gone and the other entries of the directory as before.
pub record Releases (extra : ℕ → ℕ) (d : ℕ) (m : Memory) (r : Outcome Memory) : Type 0 where
  pub after : Memory
  pub ends : r ≡ ok after
  pub counted : IsCounted extra after
  pub cleared : is_present (after.page 0 d) ≡ false
  pub directory : (k : ℕ) → k ≢ d → after.page 0 k ≡ m.page 0 k

block_present :
    (m : Memory) (d i : ℕ)
    → is_present (m.page 0 d) ≡ true
    → block m d i ≡ points (m.page 0 d) i + refs (m.page (frame (m.page 0 d))) 0 1024 i
block_present m d i p = rw p refl

-- The table is freed and then its frame.
table_freed :
    (extra : ℕ → ℕ) (d : ℕ) (m : Memory) (r : Outcome Memory)
    → IsUser d
    → is_present (m.page 0 d) ≡ true
    → IsCounted extra m
    → (E : Frees (refs (m.page (frame (m.page 0 d))) 0 1024) (frame (m.page 0 d)) m r)
    → Drops (points (m.page 0 d)) E.after (free_page (frame (m.page 0 d) * 4096) E.after)
    → Releases extra d m
        (do m₁ ← r; m₂ ← free_page (frame (m.page 0 d) * 4096) m₁; ok (store 0 d 0 m₂))
table_freed extra d m r dl p c E D =
    let f = frame (m.page 0 d) in
    let g : IsEmptied d f m (store 0 d 0 D.after) = record {
      fewer = λ i.
          let a = E.fewer i in
          let b = D.fewer i in let k = block_present m d i p in omega (arith, a, b, k);
      top = D.top ∙ E.top;
      size = D.size ∙ E.size;
      cleared = let z : (d == d) ≡ true = ground arith in rw z refl;
      directory = λ k ne.
          let z : (k == d) ≡ false = ground arith in
          rw z (ap (λ h. h 0 k) D.words ∙ E.words 0 k (λ e. c.off_directory d dl p (sym e)));
      words = λ h nz nf.
          let z : (h == 0) ≡ false = ground arith in
          fun_ext (λ o. rw z (ap (λ w. w h o) D.words ∙ E.words h o nf));
    } in
    record {
      after = store 0 d 0 D.after;
      ends =
          ap (λ q. q >>= λ m₁. free_page (f * 4096) m₁ >>= λ m₂. ok (store 0 d 0 m₂)) E.ends
          ∙ ap (λ q. q >>= λ m₂. ok (store 0 d 0 m₂)) D.ends;
      counted = IsEmptied-IsCounted extra d m _ dl p c g;
      cleared = rw g.cleared refl;
      directory = g.directory;
    }

-- What a block has is no more than the users.
block-users :
    (extra : ℕ → ℕ) (m : Memory) (d i : ℕ) → IsUser d → IsCounted extra m → block m d i ≤ users m i
block-users extra m d i dl c =
    let a = c.counted i in
    let b = sum-le (λ k. block m k i) d 4 1020 (omega arith) (omega arith) in omega (arith, a, b)

-- The frame of the table still has its user when the entries are freed.
frame_freed :
    (extra : ℕ → ℕ) (d : ℕ) (m : Memory) (r : Outcome Memory)
    → IsUser d
    → is_present (m.page 0 d) ≡ true
    → IsCounted extra m
    → (E : Frees (refs (m.page (frame (m.page 0 d))) 0 1024) (frame (m.page 0 d)) m r)
    → Drops (points (m.page 0 d)) E.after (free_page (frame (m.page 0 d) * 4096) E.after)
frame_freed extra d m r dl p c E =
    let t = E.top in
    let z = E.size in
    let mm = c.mapped in
    free_page-Drops (m.page 0 d) E.after (omega (arith, t, z, mm)) p
      (subst (λ top. IsUnder (m.page 0 d) top) (sym t) (c.tables d dl))
      (λ i.
        let a = block-users extra m d i dl c in
        let b = block_present m d i p in let f = E.fewer i in omega (arith, a, b, f))

pub free_table-Releases :
    (extra : ℕ → ℕ) (d : ℕ) (m : Memory)
    → IsUser d
    → IsCounted extra m
    → Releases extra d m (free_table d m)
unfolding free_table
free_table-Releases extra d m dl c = elim (Bool-cases (is_present (m.page 0 d))) [
  | inl p ↦
      let e = m.page 0 d in
      let E =
        free_entries-Frees 1024 (frame e) 0 m c.mapped (λ o l u. c.pages d o dl p (omega arith))
          (λ i.
            let a = block-users extra m d i dl c in
            let b = block_present m d i p in omega (arith, a, b)) in
      rw p (table_freed extra d m _ dl p c E (frame_freed extra d m _ dl p c E))
  | inr p ↦
      rw p (record { after = m; ends = refl; counted = c; cleared = p; directory = λ k ne. refl })
]
