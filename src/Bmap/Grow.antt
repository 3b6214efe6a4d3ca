-- ===== src/Bmap/Grow.antt =====
-- A fresh block, with zeros in it, put at a place where none was.
use linux.Prelude.{
  ℕ, ◌+◌, ◌*◌, ◌/◌, ◌%◌, ◌<◌, ◌≡◌, ◌≢◌, refl, sym, ap, ◌∙◌, ◌⊎◌, inl, inr, true, false, ◌&&◌, ◌==◌,
  if◌then◌else◌, arith, Bool-cases,
}
use linux.Bmap.{entry}
use linux.Bmap.Tree.{Place, zone, ind, dind, leaf, IsPlace, child, block}

-- The number of place `p` has become `b`, and all others are as before.
pub record Grows (p : Place) (b : ℕ) (zones zones' : ℕ → ℕ) (bytes bytes' : ℕ → ℕ → ℕ)
    : Type 0 where
  pub here : block zones' bytes' p ≡ b
  pub there : (q : Place) → IsPlace q → q ≢ p → block zones' bytes' q ≡ block zones bytes q

-- A store to the zones, and one to an entry
abbrev pub with_zone : ℕ → ℕ → (ℕ → ℕ) → ℕ → ℕ
with_zone z b zones k = if k == z then b else zones k

abbrev pub with_entry : ℕ → ℕ → ℕ → (ℕ → ℕ → ℕ) → ℕ → ℕ → ℕ
with_entry t i v bytes c o =
    if (c == t) && (o / 2 == i) then (if o % 2 == 0 then v % 256 else v / 256 % 256) else bytes c o

abbrev pub with_zeros : ℕ → (ℕ → ℕ → ℕ) → ℕ → ℕ → ℕ
with_zeros b bytes c o = if c == b then 0 else bytes c o

entry_here : (t i v : ℕ) (bytes : ℕ → ℕ → ℕ) → v < 65536 → entry (with_entry t i v bytes t) i ≡ v
entry_here t i v bytes h =
    let a : 2 * i / 2 ≡ i = omega arith in
    let b : (2 * i + 1) / 2 ≡ i = omega arith in
    let c : 2 * i % 2 ≡ 0 = omega arith in
    let d : (2 * i + 1) % 2 ≡ 1 = omega arith in
    let tt' : (t == t) ≡ true = ground arith in
    let ii : (i == i) ≡ true = ground arith in rw (a, b, c, d, tt', ii) (omega arith)

entry_there :
    (t i v c k : ℕ) (bytes : ℕ → ℕ → ℕ)
    → (c ≢ t) ⊎ (k ≢ i)
    → entry (with_entry t i v bytes c) k ≡ entry (bytes c) k
entry_there t i v c k bytes h =
    let a : 2 * k / 2 ≡ k = omega arith in
    let b : (2 * k + 1) / 2 ≡ k = omega arith in
    let z : ((c == t) && (k == i)) ≡ false = ground arith in rw (a, b, z) refl

off : {a b : ℕ} → a ≢ b → (a == b) ≡ false
off n = ground arith

-- The tables of the inode, and a block `b` that is none of its
module _ (zones : ℕ → ℕ) (bytes : ℕ → ℕ → ℕ) (b : ℕ) (positive : 0 < b) (small : b < 65536)
    (fresh : (p : Place) → IsPlace p → block zones bytes p ≢ 0 → block zones bytes p ≢ b) where
  child_cleared : (t k : ℕ) → (t ≢ 0 → t ≢ b) → child (with_zeros b bytes) t k ≡ child bytes t k
  child_cleared t k h = elim (Bool-cases (t == 0)) [
    | inl e ↦ rw e refl
    | inr e ↦ let z : (t == b) ≡ false = let n = h (ground arith) in ground arith in rw (e, z) refl
  ]

  child_new : (k : ℕ) → child (with_zeros b bytes) b k ≡ 0
  child_new k = let z : (b == b) ≡ true = ground arith in rw z (ground arith)

  ind_cleared : (i : ℕ) → child (with_zeros b bytes) (zones 7) i ≡ child bytes (zones 7) i
  ind_cleared i = child_cleared (zones 7) i (fresh (zone 7) (omega arith))

  dind_cleared : (i : ℕ) → child (with_zeros b bytes) (zones 8) i ≡ child bytes (zones 8) i
  dind_cleared i = child_cleared (zones 8) i (fresh (zone 8) (omega arith))

  leaf_cleared :
      (i j : ℕ)
      → i < 512
      → child (with_zeros b bytes) (child (with_zeros b bytes) (zones 8) i) j
        ≡ child bytes (child bytes (zones 8) i) j
  leaf_cleared i j h =
      ap (λ t. child (with_zeros b bytes) t j) (dind_cleared i)
      ∙ child_cleared (child bytes (zones 8) i) j (fresh (dind i) h)

  -- In a new table there is nothing.
  new_child : (z k : ℕ) → zones z ≡ 0 → child (with_zeros b bytes) b k ≡ child bytes (zones z) k
  new_child z k e = child_new k ∙ sym (ap (λ t. child bytes t k) e)

  zone_there :
      (z : ℕ)
      → zones z ≡ 0
      → (q : Place) → IsPlace q
      → q ≢ zone z
      → block (with_zone z b zones) (with_zeros b bytes) q ≡ block zones bytes q
  zone_there z e (zone k) h n = let w : (k == z) ≡ false = off (λ m. n (ap zone m)) in rw w refl
  zone_there z e (ind i) h n = elim (Bool-cases (7 == z)) [
    | inl s ↦ let y : z ≡ 7 = ground arith in rw s (new_child 7 i (ap zones (sym y) ∙ e))
    | inr s ↦ rw s (ind_cleared i)
  ]
  zone_there z e (dind i) h n = elim (Bool-cases (8 == z)) [
    | inl s ↦ let y : z ≡ 8 = ground arith in rw s (new_child 8 i (ap zones (sym y) ∙ e))
    | inr s ↦ rw s (dind_cleared i)
  ]
  zone_there z e (leaf i j) h n = elim (Bool-cases (8 == z)) [
    | inl s ↦
        let y : z ≡ 8 = ground arith in
        let w = ap zones (sym y) ∙ e in
        rw s (
          ap (λ t. child (with_zeros b bytes) t j) (child_new i)
          ∙ sym (ap (λ t. child bytes (child bytes t i) j) w))
    | inr s ↦ rw s (leaf_cleared i j (h.0))
  ]

  -- A zone that was 0
  pub zone-Grows :
      (z : ℕ)
      → zones z ≡ 0
      → Grows (zone z) b zones (with_zone z b zones) bytes (with_zeros b bytes)
  zone-Grows z e = record { here = ground arith; there = zone_there z e }

  -- A table, and its entry `i` that was 0
  module _ (t i : ℕ) (nz : t ≢ 0) (tb : t ≢ b) (e : entry (bytes t) i ≡ 0) where
    pub child_here : child (with_entry t i b (with_zeros b bytes)) t i ≡ b
    child_here =
        let w : (t == 0) ≡ false = off nz in rw w (entry_here t i b (with_zeros b bytes) small)

    pub child_there :
        (u k : ℕ)
        → (u ≢ 0 → (u ≢ t) ⊎ (k ≢ i))
        → (u ≢ 0 → u ≢ b)
        → child (with_entry t i b (with_zeros b bytes)) u k ≡ child bytes u k
    child_there u k h f = elim (Bool-cases (u == 0)) [
      | inl z ↦ rw z refl
      | inr z ↦
          let w : u ≢ 0 = λ q. ground arith in
          let y : (u == b) ≡ false = off (f w) in
          rw z (entry_there t i b u k (with_zeros b bytes) (h w) ∙ rw y refl)
    ]

    pub child_newer : (k : ℕ) → child (with_entry t i b (with_zeros b bytes)) b k ≡ 0
    child_newer k =
        let w : (b == 0) ≡ false = ground arith in
        let y : (b == b) ≡ true = ground arith in
        rw w (entry_there t i b b k (with_zeros b bytes) (inl (λ q. tb (sym q))) ∙ rw y refl)
