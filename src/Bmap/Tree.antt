-- ===== src/Bmap/Tree.antt =====
-- The blocks of an inode, by their places: its zones, the entries of its table and of its table of
-- tables, and the entries of those.
use linux.Prelude.{
  ℕ, ◌-◌, ◌/◌, ◌%◌, ◌<◌, ◌≡◌, ◌≢◌, sym, ap, ap₂, ◌∙◌, ◌⊎◌, inl, inr, Bool, true, false, ◌&&◌, ◌||◌,
  ltb, ◌==◌, if◌then◌else◌, arith, Bool-cases,
}
use linux.Disk.{zone_bit}
use linux.Disk.Alloc.{IsSound, IsZone}
use linux.Disk.New.{IsIdle}
use linux.Bmap.{Volume, entry}

pub data Place : Type 0 where
  zone : ℕ → Place
  ind : ℕ → Place
  dind : ℕ → Place
  leaf : ℕ → ℕ → Place

abbrev pub IsPlace : Place → Type 0
IsPlace (zone z) = z < 9
IsPlace (ind i) = i < 512
IsPlace (dind i) = i < 512
IsPlace (leaf i j) = (i < 512) × (j < 512)

-- The places whose blocks are tables
abbrev pub is_table : Place → Bool
is_table (zone z) = (z == 7) || (z == 8)
is_table (ind i) = false
is_table (dind i) = true
is_table (leaf i j) = false

-- Entry `i` of table `t`, 0 if there is no table
abbrev pub child : (ℕ → ℕ → ℕ) → ℕ → ℕ → ℕ
child bytes t i = if t == 0 then 0 else entry (bytes t) i

-- The block at a place, 0 if there is none
abbrev pub block : (ℕ → ℕ) → (ℕ → ℕ → ℕ) → Place → ℕ
block zones bytes (zone z) = zones z
block zones bytes (ind i) = child bytes (zones 7) i
block zones bytes (dind i) = child bytes (zones 8) i
block zones bytes (leaf i j) = child bytes (child bytes (zones 8) i) j

abbrev pub block_at : Volume → Place → ℕ
block_at v p = block v.inode.i_zone v.disk.bytes p

-- The place of the block with a number in its file
abbrev pub place : ℕ → Place
place seq =
    if ltb seq 7
    then zone seq
    else if ltb (seq - 7) 512
    then ind (seq - 7)
    else leaf ((seq - 7 - 512) / 512) ((seq - 7 - 512) % 512)

-- Each block of the inode is a zone in use, and at one place only. The count of no buffer is at its
-- limit, and no buffer of a free zone is in use.
pub record IsTree (v : Volume) : Type 0 where
  pub sound : IsSound v.disk
  pub quiet : (c : ℕ) → v.disk.held c < 255
  pub idle : IsIdle v.disk
  pub zones : (p : Place) → IsPlace p → block_at v p ≢ 0 → IsZone (block_at v p) v.disk
  pub used :
      (p : Place)
      → IsPlace p
      → block_at v p ≢ 0
      → v.disk.zmap (zone_bit (block_at v p) v.disk) ≡ true
  pub apart :
      (p q : Place) → IsPlace p → IsPlace q → block_at v p ≢ 0 → block_at v p ≡ block_at v q → p ≡ q

abbrev pub tag : Place → ℕ
tag (zone z) = 0
tag (ind i) = 1
tag (dind i) = 2
tag (leaf i j) = 3

abbrev pub first : Place → ℕ
first (zone z) = z
first (ind i) = i
first (dind i) = i
first (leaf i j) = i

abbrev pub second : Place → ℕ
second (leaf i j) = j
second p = 0

abbrev pub same_place : Place → Place → Bool
same_place p q = (tag p == tag q) && ((first p == first q) && (second p == second q))

same_eq : (p q : Place) → same_place p q ≡ true → p ≡ q
same_eq (zone z) (zone k) e = ap zone (ground arith)
same_eq (ind z) (ind k) e = ap ind (ground arith)
same_eq (dind z) (dind k) e = ap dind (ground arith)
same_eq (leaf i j) (leaf k l) e =
    let a : i ≡ k = ground arith in let b : j ≡ l = ground arith in ap₂ leaf a b
same_eq (zone z) (ind k) e = absurd (ground arith)
same_eq (zone z) (dind k) e = absurd (ground arith)
same_eq (zone z) (leaf k l) e = absurd (ground arith)
same_eq (ind z) (zone k) e = absurd (ground arith)
same_eq (ind z) (dind k) e = absurd (ground arith)
same_eq (ind z) (leaf k l) e = absurd (ground arith)
same_eq (dind z) (zone k) e = absurd (ground arith)
same_eq (dind z) (ind k) e = absurd (ground arith)
same_eq (dind z) (leaf k l) e = absurd (ground arith)
same_eq (leaf i j) (zone k) e = absurd (ground arith)
same_eq (leaf i j) (ind k) e = absurd (ground arith)
same_eq (leaf i j) (dind k) e = absurd (ground arith)

same_refl : (p : Place) → same_place p p ≡ true
same_refl p = ground arith

-- Two places are the same or not.
pub Place-cases : (p q : Place) → (p ≡ q) ⊎ (p ≢ q)
Place-cases p q = elim (Bool-cases (same_place p q)) [
  | inl e ↦ inl (same_eq p q e)
  | inr e ↦ inr (λ h.
      let a : same_place p q ≡ true = ap (same_place p) (sym h) ∙ same_refl p in
      let b : true ≡ false = sym a ∙ e in ground arith)
]
