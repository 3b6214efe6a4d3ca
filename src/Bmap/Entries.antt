-- ===== src/Bmap/Entries.antt =====
-- A fresh block put at an entry of a table.
use linux.Prelude.{
  ℕ, ◌<◌, ◌≡◌, ◌≢◌, refl, sym, ap, ap₂, ◌∙◌, subst, inl, inr, false, ◌==◌, arith, Bool-cases,
}
use linux.Bmap.{entry}
use linux.Bmap.Tree.{Place, zone, ind, dind, leaf, IsPlace, child, block, tag, first}
use linux.Bmap.Grow.{Grows, with_entry, with_zeros, child_here, child_there, child_newer}

tag-ne : {p q : Place} → tag p ≢ tag q → p ≢ q
tag-ne n e = n (ap tag e)

module _ (zones : ℕ → ℕ) (bytes : ℕ → ℕ → ℕ) (b : ℕ) (positive : 0 < b) (small : b < 65536)
    (fresh : (p : Place) → IsPlace p → block zones bytes p ≢ 0 → block zones bytes p ≢ b)
    (apart : (p q : Place)
      → IsPlace p
      → IsPlace q
      → block zones bytes p ≢ 0
      → block zones bytes p ≡ block zones bytes q
      → p ≡ q) where
  stored : ℕ → ℕ → ℕ → ℕ → ℕ
  stored t i = with_entry t i b (with_zeros b bytes)

  -- Another table is as it was.
  other_table :
      (p q : Place) (i k : ℕ)
      → IsPlace p
      → IsPlace q
      → q ≢ p
      → block zones bytes p ≢ 0
      → entry (bytes (block zones bytes p)) i ≡ 0
      → child (stored (block zones bytes p) i) (block zones bytes q) k
        ≡ child bytes (block zones bytes q) k
  unfolding stored
  other_table p q i k hp hq n nz e =
      child_there zones bytes b positive small fresh (block zones bytes p) i nz (fresh p hp nz) e
        (block zones bytes q) k (λ z. inl (λ m. n (apart q p hq hp z m))) (fresh q hq)

  -- Another entry of the table is.
  other_entry :
      (p : Place) (i k : ℕ)
      → IsPlace p
      → k ≢ i
      → block zones bytes p ≢ 0
      → entry (bytes (block zones bytes p)) i ≡ 0
      → child (stored (block zones bytes p) i) (block zones bytes p) k
        ≡ child bytes (block zones bytes p) k
  unfolding stored
  other_entry p i k hp n nz e =
      child_there zones bytes b positive small fresh (block zones bytes p) i nz (fresh p hp nz) e
        (block zones bytes p) k (λ z. inr n) (fresh p hp)

  entry_stored :
      (p : Place) (i : ℕ)
      → IsPlace p
      → block zones bytes p ≢ 0
      → entry (bytes (block zones bytes p)) i ≡ 0
      → child (stored (block zones bytes p) i) (block zones bytes p) i ≡ b
  unfolding stored
  entry_stored p i hp nz e =
      child_here zones bytes b positive small fresh (block zones bytes p) i nz (fresh p hp nz) e

  new_table :
      (p : Place) (i k : ℕ)
      → IsPlace p
      → block zones bytes p ≢ 0
      → entry (bytes (block zones bytes p)) i ≡ 0
      → child (stored (block zones bytes p) i) b k ≡ 0
  unfolding stored
  new_table p i k hp nz e =
      child_newer zones bytes b positive small fresh (block zones bytes p) i nz (fresh p hp nz) e k

  leaf_of :
      (bytes' : ℕ → ℕ → ℕ) (k j : ℕ)
      → child bytes' (zones 8) k ≡ child bytes (zones 8) k
      → child bytes' (child bytes (zones 8) k) j ≡ child bytes (child bytes (zones 8) k) j
      → child bytes' (child bytes' (zones 8) k) j ≡ child bytes (child bytes (zones 8) k) j
  leaf_of bytes' k j e f = ap (λ t. child bytes' t j) e ∙ f

  pub ind-Grows :
      (i : ℕ)
      → i < 512
      → zones 7 ≢ 0
      → entry (bytes (zones 7)) i ≡ 0
      → Grows (ind i) b zones zones bytes (with_entry (zones 7) i b (with_zeros b bytes))
  unfolding stored
  ind-Grows i hi nz e = record { here = entry_stored (zone 7) i (omega arith) nz e; there = others }
    where
      tables : (k : ℕ) → child (stored (zones 7) i) (zones 8) k ≡ child bytes (zones 8) k
      tables k =
          other_table (zone 7) (zone 8) i k (omega arith) (omega arith)
            (λ q. let w : 8 ≡ 7 = ap first q in omega (arith, w)) nz e

      others :
          (q : Place)
          → IsPlace q
          → q ≢ ind i
          → block zones (stored (zones 7) i) q ≡ block zones bytes q
      others (zone k) h n = refl
      others (ind k) h n = other_entry (zone 7) i k (omega arith) (λ m. n (ap ind m)) nz e
      others (dind k) h n = tables k
      others (leaf k j) h n =
          leaf_of (stored (zones 7) i) k j (tables k)
            (other_table (zone 7) (dind k) i j (omega arith) (h.0) (tag-ne (omega arith)) nz e)

  pub dind-Grows :
      (i : ℕ)
      → i < 512
      → zones 8 ≢ 0
      → entry (bytes (zones 8)) i ≡ 0
      → Grows (dind i) b zones zones bytes (with_entry (zones 8) i b (with_zeros b bytes))
  unfolding stored
  dind-Grows i hi nz e = record {
    here = entry_stored (zone 8) i (omega arith) nz e;
    there = others;
  }
    where
      leaves :
          (k j : ℕ)
          → k < 512
          → child (stored (zones 8) i) (child (stored (zones 8) i) (zones 8) k) j
            ≡ child bytes (child bytes (zones 8) k) j
      leaves k j hk = elim (Bool-cases (k == i)) [
        | inl s ↦
            let y : i ≡ k = ground arith in
            let z : (zones 8 == 0) ≡ false = ground arith in
            let w : child bytes (zones 8) i ≡ 0 = rw z e in
            subst
              (λ k.
                child (stored (zones 8) i) (child (stored (zones 8) i) (zones 8) k) j
                ≡ child bytes (child bytes (zones 8) k) j)
              y
              (ap (λ t. child (stored (zones 8) i) t j) (entry_stored (zone 8) i (omega arith) nz e)
                ∙ new_table (zone 8) i j (omega arith) nz e
                ∙ sym (ap (λ t. child bytes t j) w))
        | inr s ↦
            leaf_of (stored (zones 8) i) k j
              (other_entry (zone 8) i k (omega arith) (λ m. ground arith) nz e)
              (other_table (zone 8) (dind k) i j (omega arith) hk (tag-ne (omega arith)) nz e)
      ]

      others :
          (q : Place)
          → IsPlace q
          → q ≢ dind i
          → block zones (stored (zones 8) i) q ≡ block zones bytes q
      others (zone k) h n = refl
      others (ind k) h n =
          other_table (zone 8) (zone 7) i k (omega arith) (omega arith)
            (λ q. let w : 7 ≡ 8 = ap first q in omega (arith, w)) nz e
      others (dind k) h n = other_entry (zone 8) i k (omega arith) (λ m. n (ap dind m)) nz e
      others (leaf k j) h n = leaves k j (h.0)

  pub leaf-Grows :
      (i j : ℕ)
      → i < 512
      → j < 512
      → child bytes (zones 8) i ≢ 0
      → entry (bytes (child bytes (zones 8) i)) j ≡ 0
      → Grows
          (leaf i j)
          b
          zones
          zones
          bytes
          (with_entry (child bytes (zones 8) i) j b (with_zeros b bytes))
  unfolding stored
  leaf-Grows i j hi hj nz e = record {
    here =
        ap (λ t. child (stored (child bytes (zones 8) i) j) t j) (tables i)
        ∙ entry_stored (dind i) j hi nz e;
    there = others;
  }
    where
      tables :
          (k : ℕ) → child (stored (child bytes (zones 8) i) j) (zones 8) k ≡ child bytes (zones 8) k
      tables k = other_table (dind i) (zone 8) j k hi (omega arith) (tag-ne (omega arith)) nz e

      leaves :
          (k l : ℕ)
          → k < 512
          → leaf k l ≢ leaf i j
          → child (stored (child bytes (zones 8) i) j) (child bytes (zones 8) k) l
            ≡ child bytes (child bytes (zones 8) k) l
      leaves k l hk n = elim (Bool-cases (k == i)) [
        | inl s ↦
            let y : i ≡ k = ground arith in
            subst
              (λ k.
                child (stored (child bytes (zones 8) i) j) (child bytes (zones 8) k) l
                ≡ child bytes (child bytes (zones 8) k) l)
              y (other_entry (dind i) j l hi (λ m. n (ap₂ leaf (sym y) m)) nz e)
        | inr s ↦
            other_table (dind i) (dind k) j l hi hk (λ m. let w = ap first m in ground arith) nz e
      ]

      others :
          (q : Place)
          → IsPlace q
          → q ≢ leaf i j
          → block zones (stored (child bytes (zones 8) i) j) q ≡ block zones bytes q
      others (zone k) h n = refl
      others (ind k) h n =
          other_table (dind i) (zone 7) j k hi (omega arith) (tag-ne (omega arith)) nz e
      others (dind k) h n = tables k
      others (leaf k l) h n =
          leaf_of (stored (child bytes (zones 8) i) j) k l (tables k) (leaves k l (h.0) n)
