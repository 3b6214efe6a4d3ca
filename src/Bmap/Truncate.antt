-- ===== src/Bmap/Truncate.antt =====
-- What `truncate` frees.
use linux.Prelude.{
  ℕ, zero, suc, ◌+◌, ◌*◌, ◌≤◌, ◌<◌, ◌≡◌, ◌≢◌, refl, sym, ap, ◌∙◌, subst, ◌⊎◌, false, ◌==◌,
  if◌then◌else◌, arith, Bool-cases, inl, inr,
}
use linux.Prelude.Outcome.{ok, ◌>>=◌}
use linux.Disk.{Disk, hold, brelse, free_block}
use linux.Bmap.{Volume, entry, with_table, free_ind, free_tables, free_dind}
use linux.Bmap.Tree.{Place, zone, ind, dind, leaf, IsPlace, block_at, child, IsTree, tag}
use linux.Bmap.Rank.{rank}
use linux.Bmap.Clear.{Cleared, Clears, free_block-Clears}
use linux.Bmap.Tables.{
  Cleared-at, Clears-at, skip_all, held_too, hold-Cleared, brelse-Cleared, then-Clears,
  free_ind-Clears,
}

-- No buffer of a block of the file is in use.
abbrev pub IsUnheld : Volume → Type 0
IsUnheld v = (p : Place) → IsPlace p → block_at v p ≢ 0 → v.disk.held (block_at v p) ≡ 0

-- The places that come when entry `i` of the table of tables is freed
leaves_between :
    (i : ℕ) (p : Place)
    → IsPlace p
    → 520 + i * 513 ≤ rank p
    → rank p < 520 + i * 513 + 513
    → i < 512
    → (p ≡ dind i) ⊎ ((j : ℕ) × (p ≡ leaf i j))
leaves_between i (zone z) h l u b = absurd (ground arith)
leaves_between i (ind k) h l u b = absurd (omega arith)
leaves_between i (dind k) h l u b = inl (ap dind (omega arith))
leaves_between i (leaf k j) (h, h') l u b =
    let e : k ≡ i = omega arith in inr (j, ap (λ k. leaf k j) e)

pub entries_between :
    (p : Place) → IsPlace p → 7 ≤ rank p → rank p < 7 + 513 → (p ≡ zone 7) ⊎ ((j : ℕ) × (p ≡ ind j))
entries_between (zone z) h l u = inl (ap zone (ground arith))
entries_between (ind k) h l u = inr (k, refl)
entries_between (dind k) h l u = absurd (omega arith)
entries_between (leaf k j) h l u = absurd (omega arith)

-- With no table of tables there is nothing below it.
no_leaves :
    (v : Volume)
    → block_at v (zone 8) ≡ 0
    → (p : Place) → IsPlace p
    → 520 ≤ rank p
    → rank p < 521 + 512 * 513
    → block_at v p ≡ 0
no_leaves v z (zone k) h l u =
    let e : 8 ≡ k = ground arith in ap (λ k. block_at v (zone k)) (sym e) ∙ z
no_leaves v z (ind k) h l u = absurd (omega arith)
no_leaves v z (dind k) h l u = ap (λ t. child v.disk.bytes t k) z
no_leaves v z (leaf k j) h l u = ap (λ t. child v.disk.bytes (child v.disk.bytes t k) j) z

-- `free_ind` tests for 0 itself.
guard_same : (b : ℕ) (d : Disk) → (if b == 0 then ok d else free_ind b d) ≡ free_ind b d
unfolding free_ind
guard_same b d = elim (Bool-cases (b == 0)) [ inl z ↦ rw z refl | inr z ↦ rw z refl ]

module _ (v : Volume) (t : IsTree v) (un : IsUnheld v) where
  -- The table of tables is another block than those below it.
  not_top :
      (p : Place)
      → IsPlace p
      → tag p ≢ 0
      → block_at v p ≢ 0
      → held_too (block_at v (zone 8)) v.disk.held (block_at v p) ≡ 0
  not_top p h n nz =
      let m : block_at v p ≢ block_at v (zone 8) =
        λ e. n (ap tag (t.apart p (zone 8) h (omega arith) nz e)) in
      let z : (block_at v p == block_at v (zone 8)) ≡ false = ground arith in rw z (un p h nz)

  entry_freed :
      (i : ℕ) (d : Disk)
      → i < 512
      → Cleared v (520 + i * 513) (held_too (block_at v (zone 8)) v.disk.held) d
      → (b : ℕ) → b ≡ block_at v (dind i)
      → Clears v
          (520 + i * 513 + 513)
          (held_too (block_at v (zone 8)) v.disk.held)
          (if b == 0 then ok d else free_ind b d)
  entry_freed i d l c b e =
      let r =
        free_ind-Clears v t (dind i) l (520 + i * 513) (leaf i) (λ j h. (l, h)) (λ j. refl) refl
          (λ j. refl) (held_too (block_at v (zone 8)) v.disk.held)
          (λ j h nz. not_top (leaf i j) (l, h) (omega arith) nz) (not_top (dind i) l (omega arith))
          (λ p hp a u. leaves_between i p hp a u l) d c b e in
      subst (λ o. Clears v (520 + i * 513 + 513) (held_too (block_at v (zone 8)) v.disk.held) o)
        (sym (guard_same b d)) r

  free_tables-Clears :
      (n i : ℕ) (d : Disk)
      → i + n ≤ 512
      → block_at v (zone 8) ≢ 0
      → Cleared v (520 + i * 513) (held_too (block_at v (zone 8)) v.disk.held) d
      → Clears v
          (520 + (i + n) * 513)
          (held_too (block_at v (zone 8)) v.disk.held)
          (free_tables n (block_at v (zone 8)) i d)
  unfolding free_tables
  free_tables-Clears zero i d l nz c =
      let e : 520 + i * 513 ≡ 520 + (i + 0) * 513 = omega arith in
      record { after = d; ends = refl; cleared = Cleared-at e c }
  free_tables-Clears (suc n) i d l nz c =
      let top = block_at v (zone 8) in
      let hh = held_too top v.disk.held in
      let z : (top == 0) ≡ false = ground arith in
      let cd : child v.disk.bytes top i ≡ entry (v.disk.bytes top) i = rw z refl in
      let e : entry (d.bytes top) i ≡ block_at v (dind i) =
        ap (λ w. entry w i) (c.bytes (zone 8) (omega arith) (omega arith) nz) ∙ sym cd in
      let k : 520 + i * 513 + 513 ≡ 520 + (i + 1) * 513 = omega arith in
      let m : 520 + (i + 1 + n) * 513 ≡ 520 + (i + suc n) * 513 = omega arith in
      Clears-at m (
        then-Clears v (520 + (i + 1) * 513) (520 + (i + 1 + n) * 513) hh hh _ _
          (Clears-at k (entry_freed i d (omega arith) c (entry (d.bytes top) i) e))
          (λ d c. free_tables-Clears n (i + 1) d (omega arith) nz c))

  tables_freed :
      (d : Disk)
      → block_at v (zone 8) ≢ 0
      → Cleared v 520 v.disk.held d
      → Clears v
          (520 + 512 * 513)
          v.disk.held
          (with_table (free_tables 512 (block_at v (zone 8)) 0) (block_at v (zone 8)) d)
  tables_freed d nz c =
      let top = block_at v (zone 8) in
      let rd = c.readable top (t.zones (zone 8) (omega arith) nz) in
      let a =
        free_tables-Clears 512 0 (hold top d) (omega arith) nz
          (hold-Cleared v 520 top v.disk.held d c) in
      rw rd (record {
        after = brelse top a.after;
        ends = ap (λ q. q >>= λ d₁. ok (brelse top d₁)) a.ends;
        cleared =
            brelse-Cleared v _ top v.disk.held a.after (un (zone 8) (omega arith) nz) a.cleared;
      })

  pub free_dind-Clears :
      (d : Disk)
      → Cleared v 520 v.disk.held d
      → (b : ℕ) → b ≡ block_at v (zone 8)
      → Clears v (521 + 512 * 513) v.disk.held (free_dind b d)
  unfolding free_dind
  free_dind-Clears d c b e =
      subst (λ b. Clears v (521 + 512 * 513) v.disk.held (free_dind b d)) (sym e)
        (elim (Bool-cases (block_at v (zone 8) == 0)) [
          | inl z ↦ rw z (record {
            after = d;
            ends = refl;
            cleared =
                skip_all v 520 (521 + 512 * 513) v.disk.held d (omega arith)
                  (no_leaves v (ground arith)) c;
          })
          | inr z ↦
              let nz : block_at v (zone 8) ≢ 0 = λ y. ground arith in
              rw z (
                then-Clears v (520 + 512 * 513) (521 + 512 * 513) v.disk.held v.disk.held _
                  (free_block (block_at v (zone 8))) (tables_freed d nz c)
                  (λ d c.
                    free_block-Clears v t (zone 8) (omega arith) v.disk.held d c nz
                      (un (zone 8) (omega arith) nz)))
        ])
