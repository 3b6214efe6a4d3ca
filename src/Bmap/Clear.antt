-- ===== src/Bmap/Clear.antt =====
-- The disk while `truncate` frees the blocks of an inode.
use linux.Prelude.{
  ℕ, ◌+◌, ◌-◌, ◌≤◌, ◌<◌, ◌≡◌, ◌≢◌, refl, ap, ◌∙◌, true, false, ◌==◌, ltb, leb, if◌then◌else◌, arith,
  Bool-cases, inl, inr,
}
use linux.Prelude.Outcome.{Outcome, ok}
use linux.Disk.{Disk, zone_bit, set_zone, forget, free_block}
use linux.Disk.Alloc.{IsZone}
use linux.Bmap.{Volume}
use linux.Bmap.Tree.{Place, IsPlace, block_at, IsTree}
use linux.Bmap.Rank.{rank, rank_ne}

-- The blocks at the places before rank `r` are free, those from there on are as in `v`, and the
-- buffers have `h` users.
pub record Cleared (v : Volume) (r : ℕ) (h : ℕ → ℕ) (d : Disk) : Type 0 where
  pub gone :
      (p : Place)
      → IsPlace p
      → rank p < r
      → block_at v p ≢ 0
      → d.zmap (zone_bit (block_at v p) v.disk) ≡ false
  pub same :
      (k : ℕ)
      → ((p : Place)
          → IsPlace p
          → rank p < r
          → block_at v p ≢ 0
          → zone_bit (block_at v p) v.disk ≢ k)
      → d.zmap k ≡ v.disk.zmap k
  pub bytes :
      (p : Place)
      → IsPlace p
      → r ≤ rank p
      → block_at v p ≢ 0
      → d.bytes (block_at v p) ≡ v.disk.bytes (block_at v p)
  pub readable : (c : ℕ) → IsZone c v.disk → d.readable c ≡ true
  pub reads : (c : ℕ) → IsZone c v.disk → d.reads c ≡ true
  pub held : (c : ℕ) → d.held c ≡ h c
  pub nzones : d.s_nzones ≡ v.disk.s_nzones
  pub first : d.s_firstdatazone ≡ v.disk.s_firstdatazone

zone_bit_ne : (a b : ℕ) (d : Disk) → IsZone a d → IsZone b d → a ≢ b → zone_bit a d ≢ zone_bit b d
zone_bit_ne a b d x y n e = let f = x.from in let g = y.from in n (omega (arith, f, g, e))

-- Two places have blocks with different bits.
bits-ne :
    (v : Volume)
    → IsTree v
    → (p q : Place) → IsPlace p
    → IsPlace q
    → p ≢ q
    → block_at v p ≢ 0
    → block_at v q ≢ 0
    → zone_bit (block_at v p) v.disk ≢ zone_bit (block_at v q) v.disk
bits-ne v t p q hp hq n np nq =
    zone_bit_ne _ _ v.disk (t.zones p hp np) (t.zones q hq nq) (λ e. n (t.apart p q hp hq np e))

pub record Clears (v : Volume) (r : ℕ) (h : ℕ → ℕ) (o : Outcome Disk) : Type 0 where
  pub after : Disk
  pub ends : o ≡ ok after
  pub cleared : Cleared v r h after

module _ (v : Volume) (t : IsTree v) (p : Place) (hp : IsPlace p) (h : ℕ → ℕ) (d : Disk)
    (c : Cleared v (rank p) h d) where
  earlier : (q : Place) → IsPlace q → rank q < rank p + 1 → q ≢ p → rank q < rank p
  earlier q hq l n = let e : rank q ≢ rank p = λ e. n (rank_ne q p hq hp e) in omega (arith, e, l)

  -- A place without a block
  pub skip-Cleared : block_at v p ≡ 0 → Cleared v (rank p + 1) h d
  skip-Cleared z = record {
    gone = λ q hq l n. c.gone q hq (earlier q hq l (λ e. n (ap (block_at v) e ∙ z))) n;
    same = λ k f. c.same k (λ q hq l n. f q hq (omega arith) n);
    bytes = λ q hq l n. c.bytes q hq (omega arith) n;
    readable = c.readable;
    reads = c.reads;
    held = c.held;
    nzones = c.nzones;
    first = c.first;
  }

  module _ (nz : block_at v p ≢ 0) where
    cleared_bit :
        (k : ℕ)
        → (set_zone (zone_bit (block_at v p) v.disk) false d).zmap k
          ≡ (if k == zone_bit (block_at v p) v.disk then false else d.zmap k)
    cleared_bit k = refl

    freed_gone :
        (q : Place)
        → IsPlace q
        → rank q < rank p + 1
        → block_at v q ≢ 0
        → (if zone_bit (block_at v q) v.disk == zone_bit (block_at v p) v.disk
            then false
            else d.zmap (zone_bit (block_at v q) v.disk))
          ≡ false
    freed_gone q hq l n =
        elim (Bool-cases (zone_bit (block_at v q) v.disk == zone_bit (block_at v p) v.disk)) [
          | inl e ↦ rw e refl
          | inr e ↦ rw e (
              c.gone q hq
                (earlier q hq l
                  (λ s. let w = ap (λ q. zone_bit (block_at v q) v.disk) s in ground arith))
                n)
        ]

    freed_same :
        (k : ℕ)
        → ((q : Place)
            → IsPlace q
            → rank q < rank p + 1
            → block_at v q ≢ 0
            → zone_bit (block_at v q) v.disk ≢ k)
        → (if k == zone_bit (block_at v p) v.disk then false else d.zmap k) ≡ v.disk.zmap k
    freed_same k f =
        let n = f p hp (omega arith) nz in
        let e : (k == zone_bit (block_at v p) v.disk) ≡ false = ground arith in
        rw e (c.same k (λ q hq l n. f q hq (omega arith) n))

    -- Its bit is still set.
    still_set : d.zmap (zone_bit (block_at v p) v.disk) ≡ true
    still_set =
        c.same _
          (λ q hq l n. bits-ne v t q p hq hp (λ e. let w = ap rank e in omega (arith, w, l)) n nz)
        ∙ t.used p hp nz

    freed_bytes :
        (q : Place)
        → IsPlace q
        → rank p + 1 ≤ rank q
        → block_at v q ≢ 0
        → (forget (block_at v p) d).bytes (block_at v q) ≡ v.disk.bytes (block_at v q)
    freed_bytes q hq l n =
        let m : block_at v q ≢ block_at v p =
          λ e. let w = ap rank (t.apart q p hq hp n e) in omega (arith, w, l) in
        let e : (block_at v q == block_at v p) ≡ false = ground arith in
        rw e (c.bytes q hq (omega arith) n)

    pub free_block-Clears :
        h (block_at v p) ≡ 0 → Clears v (rank p + 1) h (free_block (block_at v p) d)
    unfolding free_block
    free_block-Clears hz =
        let b = block_at v p in
        let z = t.zones p hp nz in
        let a = z.from in
        let g = z.below in
        let nn = c.nzones in
        let ff = c.first in
        let l : ltb b d.s_firstdatazone ≡ false = ground arith in
        let m : leb d.s_nzones b ≡ false = ground arith in
        let u = c.held b ∙ hz in
        let w : zone_bit b d ≡ zone_bit b v.disk = ap (λ f. b + 1 - f) c.first in
        rw (l, m, u, w, still_set)
          (record {
            after = set_zone (zone_bit b v.disk) false (forget b d);
            ends = refl;
            cleared = record {
              gone = freed_gone;
              same = freed_same;
              bytes = freed_bytes;
              readable = λ k hk. elim (Bool-cases (k == b)) [
                | inl e ↦ rw e (c.reads k hk)
                | inr e ↦ rw e (c.readable k hk)
              ];
              reads = c.reads;
              held = c.held;
              nzones = c.nzones;
              first = c.first;
            };
          })
