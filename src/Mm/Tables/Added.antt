-- ===== src/Mm/Tables/Added.antt =====
-- The users after one block is copied.
use linux.Prelude.{
  ℕ, ◌+◌, ◌*◌, ◌/◌, ◌<◌, ◌≡◌, ◌≢◌, refl, sym, ◌∙◌, subst, subst₂, true, false, ◌==◌, if◌then◌else◌,
  length, arith, Bool-cases, inl, inr,
}
use linux.Mm.{Memory, low_mem, frame, is_present}
use linux.Mm.Tables.Users.{
  users, points, refs, block, sum_ext, sum_changed, IsBelow, IsUser, IsCounted,
}
use linux.Mm.Tables.Shared.{IsAlike, points-IsAlike}
use linux.Mm.Tables.Copied.{IsBelow-alike, refs-alike}

-- Frame `k` of the managed ones
abbrev pub managed : ℕ → ℕ
managed k = low_mem / 4096 + k

-- Block `d` was copied to block `to`, with its table in managed frame `k`.
pub record IsAdded (d to k : ℕ) (m m' : Memory) : Type 0 where
  pub more :
      (i : ℕ)
      → users m' i
        ≡ users m i + (if k == i then 1 else 0) + refs (m.page (frame (m.page 0 d))) 0 1024 i
  pub top : m'.high_memory ≡ m.high_memory
  pub size : length m'.mem_map ≡ length m.mem_map
  pub presence : is_present (m'.page 0 to) ≡ true
  pub shown : frame (m'.page 0 to) ≡ managed k
  pub directory : (j : ℕ) → j ≢ to → m'.page 0 j ≡ m.page 0 j
  pub words : (h p : ℕ) → h ≢ 0 → h ≢ managed k → IsAlike (m.page h p) (m'.page h p)
  pub table : (p : ℕ) → p < 1024 → IsAlike (m.page (frame (m.page 0 d)) p) (m'.page (managed k) p)

-- What holds of block `to` and of every other one holds of all.
each : (to : ℕ) (P : ℕ → Type 0) (j : ℕ) → P to → (j ≢ to → P j) → P j
each to P j here there = elim (Bool-cases (j == to)) [
  | inl e ↦ let z : to ≡ j = ground arith in subst P z here
  | inr e ↦ there (λ z. ground arith)
]

module _ (extra : ℕ → ℕ) (d to k : ℕ) (m m' : Memory) (dl : IsUser d) (tl : IsUser to)
    (p : is_present (m.page 0 d) ≡ true) (absent : is_present (m.page 0 to) ≡ false)
    (c : IsCounted extra m) (a : IsAdded d to k m m') (below : managed k * 4096 < m.high_memory)
    (fresh : (j : ℕ)
      → IsUser j
      → is_present (m.page 0 j) ≡ true
      → frame (m.page 0 j) ≢ managed k) where
  entry_points : (i : ℕ) → points (m'.page 0 to) i ≡ (if k == i then 1 else 0)
  entry_points i =
      let z : managed k * 4096 ≡ low_mem + k * 4096 = omega arith in
      rw (a.presence, a.shown, z) (ground arith)

  table_refs :
      (i : ℕ) → refs (m'.page (managed k)) 0 1024 i ≡ refs (m.page (frame (m.page 0 d))) 0 1024 i
  table_refs i = sum_ext _ _ 0 1024 (λ o l u. points-IsAlike _ _ i (a.table o u))

  block_added :
      (i : ℕ)
      → block m' to i ≡ (if k == i then 1 else 0) + refs (m.page (frame (m.page 0 d))) 0 1024 i
  block_added i =
      let e = entry_points i in
      let t = table_refs i in
      let b : block m' to i ≡ points (m'.page 0 to) i + refs (m'.page (managed k)) 0 1024 i =
        rw (a.presence, a.shown) refl in
      omega (arith, e, t, b)

  block_absent : (i : ℕ) → block m to i ≡ 0
  block_absent i = rw absent refl

  block_same : (j i : ℕ) → IsUser j → j ≢ to → block m' j i ≡ block m j i
  block_same j i jl ne = elim (Bool-cases (is_present (m.page 0 j))) [
    | inl q ↦
        let r =
          refs-alike (m.page (frame (m.page 0 j))) (m'.page (frame (m.page 0 j))) 0 1024 i
            (λ o. a.words (frame (m.page 0 j)) o (c.off_directory j jl q) (fresh j jl q)) in
        rw (a.directory j ne, q, r) refl
    | inr q ↦ rw (a.directory j ne, q) refl
  ]

  same_entry : (j : ℕ) → j ≢ to → is_present (m'.page 0 j) ≡ true → is_present (m.page 0 j) ≡ true
  same_entry j ne q = subst (λ v. is_present v ≡ true) (a.directory j ne) q

  entry-IsBelow : (j : ℕ) → IsUser j → IsBelow m' (m'.page 0 j)
  entry-IsBelow j jl =
      each to (λ j. IsBelow m' (m'.page 0 j)) j
        (λ q. subst₂ (λ f top. f * 4096 < top) (sym a.shown) (sym a.top) below)
        (λ ne.
          subst₂ (λ v top. is_present v ≡ true → frame v * 4096 < top) (sym (a.directory j ne))
            (sym a.top) (c.tables j jl))

  page-IsBelow :
      (j o : ℕ)
      → IsUser j
      → is_present (m'.page 0 j) ≡ true
      → o < 1024
      → IsBelow m' (m'.page (frame (m'.page 0 j)) o)
  page-IsBelow j o jl q ol =
      each to (λ j. is_present (m'.page 0 j) ≡ true → IsBelow m' (m'.page (frame (m'.page 0 j)) o))
        j
        (λ q.
          subst (λ f. IsBelow m' (m'.page f o)) (sym a.shown)
            (IsBelow-alike m m' _ _ a.top (a.table o ol) (c.pages d o dl p ol)))
        (λ ne q.
          let b = same_entry j ne q in
          subst (λ v. IsBelow m' (m'.page (frame v) o)) (sym (a.directory j ne))
            (IsBelow-alike m m' _ _ a.top
              (a.words (frame (m.page 0 j)) o (c.off_directory j jl b) (fresh j jl b))
              (c.pages j o jl b ol)))
        q

  -- No other table stands in the new frame.
  new_apart :
      (j : ℕ)
      → IsUser j
      → j ≢ to
      → is_present (m'.page 0 j) ≡ true
      → frame (m'.page 0 j) ≢ frame (m'.page 0 to)
  new_apart j jl ne q =
      subst₂ (λ v f. frame v ≢ f) (sym (a.directory j ne)) (sym a.shown)
        (fresh j jl (same_entry j ne q))

  tables_apart :
      (j e : ℕ)
      → IsUser j
      → IsUser e
      → j ≢ e
      → is_present (m'.page 0 j) ≡ true
      → is_present (m'.page 0 e) ≡ true
      → frame (m'.page 0 j) ≢ frame (m'.page 0 e)
  tables_apart j e jl el ne q r = elim (Bool-cases (e == to)) [
    | inl h ↦
        let z : e ≡ to = ground arith in
        subst (λ n. frame (m'.page 0 j) ≢ frame (m'.page 0 n)) (sym z)
          (new_apart j jl (λ w. ne (w ∙ sym z)) q)
    | inr h ↦
        let et : e ≢ to = λ z. ground arith in
        each to
          (λ j. j ≢ e → is_present (m'.page 0 j) ≡ true → frame (m'.page 0 j) ≢ frame (m'.page 0 e))
          j (λ w v x. new_apart e el et r (sym x))
          (λ jt w v.
            subst₂ (λ x y. frame x ≢ frame y) (sym (a.directory j jt)) (sym (a.directory e et))
              (c.apart j e jl el w (same_entry j jt v) (same_entry e et r)))
          ne q
  ]

  not_directory : (j : ℕ) → IsUser j → is_present (m'.page 0 j) ≡ true → frame (m'.page 0 j) ≢ 0
  not_directory j jl q =
      each to (λ j. is_present (m'.page 0 j) ≡ true → frame (m'.page 0 j) ≢ 0) j
        (λ v e. let s = a.shown in absurd (omega (arith, s, e)))
        (λ ne v.
          subst (λ w. frame w ≢ 0) (sym (a.directory j ne))
            (c.off_directory j jl (same_entry j ne v)))
        q

  pub IsAdded-IsCounted : IsCounted extra m'
  IsAdded-IsCounted = record {
    counted = λ i.
        let s =
          sum_changed (λ j. block m' j i) (λ j. block m j i) to 4 1020
            (λ j l u ne. block_same j i (omega arith) ne) (omega arith) (omega arith) in
        let b = block_added i in
        let z = block_absent i in
        let u = a.more i in let n = c.counted i in omega (arith, s, b, z, u, n);
    mapped = let h = c.mapped in let t = a.top in let z = a.size in omega (arith, h, t, z);
    tables = entry-IsBelow;
    pages = page-IsBelow;
    apart = tables_apart;
    off_directory = not_directory;
  }
