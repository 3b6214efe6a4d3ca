-- ===== src/Mm/Tables/Sharing.antt =====
-- A range of blocks copied by `copy_page_tables`.
use linux.Prelude.{
  ℕ, zero, suc, ◌+◌, ◌≤◌, ◌<◌, ◌≡◌, ◌≢◌, refl, ap, ◌∙◌, subst, ◌⊎◌, true, ◌==◌, if◌then◌else◌,
  arith, Bool-cases, inl, inr,
}
use linux.Mm.{Memory, frame, is_present}
use linux.Mm.Tables.Users.{users, points, sum, block, table_refs, sum_ext, IsUser, IsCounted}
use linux.Mm.Tables.Shared.{IsAlike, IsAlike-refl}
use linux.Mm.Tables.Copied.{IsAlike-trans, refs-alike}
use linux.Mm.Tables.Added.{IsAdded}
use linux.Mm.Tables.Fresh.{block_none, fresh_frame}
use linux.Mm.Tables.Copying.{FreeBelow}

-- No frame has more users than a byte counts, when `n` blocks from `d` on are copied.
abbrev pub HasRoom : ℕ → ℕ → Memory → Type 0
HasRoom n d m = (i : ℕ) → users m i + sum (λ j. table_refs m j i) d n ≤ 255

abbrev pub IsOutside : ℕ → ℕ → ℕ → Type 0
IsOutside j to n = (j < to) ⊎ (to + n ≤ j)

-- The blocks but the `n` from `to` on are as they were: in the same tables, with like entries.
pub record Extends (n to : ℕ) (m m' : Memory) : Type 0 where
  pub directory : (j : ℕ) → IsOutside j to n → m'.page 0 j ≡ m.page 0 j
  pub tables :
      (j q : ℕ)
      → IsUser j
      → IsOutside j to n
      → is_present (m.page 0 j) ≡ true
      → IsAlike (m.page (frame (m.page 0 j)) q) (m'.page (frame (m.page 0 j)) q)

-- One step: the memory after `copy_table`
pub added-Extends :
    (extra : ℕ → ℕ) (d to k : ℕ) (m m' : Memory)
    → IsCounted extra m
    → users m k ≡ 0
    → IsAdded d to k m m'
    → Extends 1 to m m'
added-Extends extra d to k m m' c z a = record {
  directory = λ j o. a.directory j (λ e. ground arith);
  tables = λ j q jl o p.
      a.words (frame (m.page 0 j)) q (c.off_directory j jl p) (fresh_frame extra m k j c z jl p);
}

pub Extends-refl : (n to : ℕ) (m : Memory) → Extends n to m m
Extends-refl n to m = record { directory = λ j o. refl; tables = λ j q jl o p. IsAlike-refl _ }

pub Extends-cons :
    (n to : ℕ) (m m₁ m' : Memory)
    → Extends 1 to m m₁
    → Extends n (to + 1) m₁ m'
    → Extends (suc n) to m m'
Extends-cons n to m m₁ m' a b = record {
  directory = λ j o. b.directory j (ground arith) ∙ a.directory j (ground arith);
  tables = λ j q jl o p.
      let e = a.directory j (ground arith) in
      let w = b.tables j q jl (ground arith) (ap is_present e ∙ p) in
      IsAlike-trans _ _ _ (a.tables j q jl (ground arith) p)
        (subst (λ v. IsAlike (m₁.page (frame v) q) (m'.page (frame v) q)) e w);
}

sum_none : (b : ℕ → ℕ) (s n : ℕ) → ((j : ℕ) → s ≤ j → j < s + n → b j ≡ 0) → sum b s n ≡ 0
unfolding sum
sum_none b s zero h = refl
sum_none b s (suc n) h =
    let a = h s (omega arith) (omega arith) in
    let r = sum_none b (s + 1) n (λ j l u. h j (omega arith) (omega arith)) in omega (arith, a, r)

table_refs-block : (m : Memory) (j i : ℕ) → block m j i ≡ points (m.page 0 j) i + table_refs m j i
table_refs-block m j i = refl

table_refs-same :
    (to : ℕ) (m m' : Memory) (j i : ℕ)
    → IsUser j
    → j ≢ to
    → Extends 1 to m m'
    → table_refs m' j i ≡ table_refs m j i
table_refs-same to m m' j i jl ne x =
    let e = x.directory j (ground arith) in
    elim (Bool-cases (is_present (m.page 0 j))) [
      | inl p ↦
          let r =
            refs-alike (m.page (frame (m.page 0 j))) (m'.page (frame (m.page 0 j))) 0 1024 i
              (λ q. x.tables j q jl (ground arith) p) in
          rw (e, p, r) refl
      | inr p ↦ rw (e, p) refl
    ]

pub same_number : (k i : ℕ) → (k == i) ≡ true → k ≡ i
same_number k i e = ground arith

added_users :
    (d to k : ℕ) (m m' : Memory) (i : ℕ)
    → is_present (m.page 0 d) ≡ true
    → IsAdded d to k m m'
    → users m' i ≡ users m i + (if k == i then 1 else 0) + table_refs m d i
added_users d to k m m' i p a = rw p (a.more i)

rest_refs :
    (d to n : ℕ) (m m' : Memory) (i : ℕ)
    → 4 ≤ d
    → d + suc n ≤ 1024
    → IsOutside to d (suc n)
    → Extends 1 to m m'
    → sum (λ j. table_refs m' j i) (d + 1) n ≡ sum (λ j. table_refs m j i) (d + 1) n
rest_refs d to n m m' i lo h o x =
    sum_ext _ _ (d + 1) n (λ j l u. table_refs-same to m m' j i (omega arith) (λ e. ground arith) x)

-- There is room for the rest of the blocks.
pub added-HasRoom :
    (extra : ℕ → ℕ) (d to k n : ℕ) (m m' : Memory)
    → 4 ≤ d
    → d + suc n ≤ 1024
    → IsOutside to d (suc n)
    → is_present (m.page 0 d) ≡ true
    → IsCounted extra m
    → users m k ≡ 0
    → IsAdded d to k m m'
    → HasRoom (suc n) d m
    → HasRoom n (d + 1) m'
unfolding sum
added-HasRoom extra d to k n m m' lo h o p c z a room i =
    let u = added_users d to k m m' i p a in
    let r = rest_refs d to n m m' i lo h o (added-Extends extra d to k m m' c z a) in
    let ri = room i in
    elim (Bool-cases (k == i)) [
      | inl e ↦
          let s : k ≡ i = same_number k i e in
          let w : ◌≡◌ {A = ℕ} (if k == i then 1 else 0) 1 = rw e refl in
          let zi : users m i ≡ 0 = subst (λ j. users m j ≡ 0) s z in
          let none =
            sum_none (λ j. table_refs m j i) d (suc n)
              (λ j l y.
                let b = block_none extra m i j c zi (omega arith) in
                let t = table_refs-block m j i in omega (arith, b, t)) in
          omega (arith, u, r, w, zi, none)
      | inr e ↦
          let w : ◌≡◌ {A = ℕ} (if k == i then 1 else 0) 0 = rw e refl in omega (arith, u, r, w, ri)
    ]

pub added-FreeBelow :
    (d to k : ℕ) (m m' : Memory) → IsAdded d to k m m' → FreeBelow m → FreeBelow m'
added-FreeBelow d to k m m' a f j l z =
    let s = a.size in
    let t = a.top in
    let u = a.more j in
    let b = f j (omega (arith, s, l)) (omega (arith, u, z)) in omega (arith, b, t)

pub head_room :
    (d n : ℕ) (m : Memory) → HasRoom (suc n) d m → (i : ℕ) → users m i + table_refs m d i ≤ 255
unfolding sum
head_room d n m r i = let u = r i in omega (arith, u)

pub next_room : (d n : ℕ) (m : Memory) → HasRoom (suc n) d m → HasRoom n (d + 1) m
unfolding sum
next_room d n m r i = let u = r i in omega (arith, u)
