-- ===== src/Bmap/Create.antt =====
-- What `_bmap` does to the zones of the inode and to an entry, when it creates.
use linux.Prelude.{
  ℕ, ◌<◌, ◌≡◌, ◌≢◌, refl, sym, ap, ◌∙◌, fun_ext, ◌⊎◌, inl, inr, true, false, ◌==◌, if◌then◌else◌,
  arith, Bool-cases,
}
use linux.Prelude.Outcome.{Outcome, ok, ◌>>=◌}
use linux.Disk.{Disk, zone_bit, set_zone, clear_block, new_block}
use linux.Disk.Alloc.{IsZone}
use linux.Disk.New.{IsFull, IsNew, nothing, something, new_block-IsNew}
use linux.Bmap.{Volume, keep_zone, make_zone, set_zone_nr}
use linux.Bmap.Tree.{Place, zone, is_table, block, block_at, IsTree}
use linux.Bmap.Grow.{with_zone, zone-Grows}
use linux.Bmap.Extend.{Marks, Extends, Extends-refl, marked-Extends, grown-Extends, fresh_block}

-- A function returns a volume where place `s` has a block, or no zone is free.
pub record Makes (p s : Place) (v : Volume) (r : Outcome Volume) : Type 0 where
  pub after : Volume
  pub ends : r ≡ ok after
  pub extends : Extends p v after
  pub present : (block_at after s ≢ 0) ⊎ ((block_at after s ≡ 0) × IsFull after.disk)

marked_disk : (n : ℕ) (d : Disk) → Marks n d (set_zone n true d)
marked_disk n d = record {
  bits = λ k. refl;
  nzones = refl;
  first = refl;
  maps = refl;
  users = λ c. refl;
  readable = λ c e. e;
}

pub marked-IsFull : (n : ℕ) (d : Disk) → IsFull d → IsFull (set_zone n true d)
marked-IsFull n d f c z =
    let y : IsZone c d = record { from = z.from; below = z.below } in
    elim (Bool-cases (zone_bit c d == n)) [ inl e ↦ rw e refl | inr e ↦ rw e (f c y) ]

cleared_disk :
    (b : ℕ) (d : Disk) → Marks (zone_bit b d) d (clear_block b (set_zone (zone_bit b d) true d))
cleared_disk b d = record {
  bits = λ k. refl;
  nzones = refl;
  first = refl;
  maps = refl;
  users = λ c. refl;
  readable = λ c e. elim (Bool-cases (c == b)) [ inl s ↦ rw s refl | inr s ↦ rw s e ];
}

with_zone-zero : (z : ℕ) (zones : ℕ → ℕ) → zones z ≡ 0 → with_zone z 0 zones ≡ zones
with_zone-zero z zones e = fun_ext (λ k. same k)
  where
    same : (k : ℕ) → (if k == z then 0 else zones k) ≡ zones k
    same k = elim (Bool-cases (k == z)) [
      | inl h ↦ let y : z ≡ k = ground arith in rw h (sym e ∙ ap zones y)
      | inr h ↦ rw h refl
    ]

-- A zone that was 0, with what `new_block` returned
zone_made :
    (p : Place) (now z : ℕ) (v : Volume) (r : Outcome (ℕ × Disk))
    → z < 9
    → (is_table (zone z) ≡ true) ⊎ (zone z ≡ p)
    → IsTree v
    → v.inode.i_zone z ≡ 0
    → IsNew v.disk r
    → Makes p (zone z) v (r >>= λ r. ok (keep_zone now z v.inode r))
unfolding keep_zone
zone_made p now z v _ h k t e (nothing n f m) =
    let zs = with_zone-zero z v.inode.i_zone e in
    record {
      after = record { inode = set_zone_nr z 0 v.inode; disk = set_zone n true v.disk };
      ends = refl;
      extends =
          marked-Extends p v _ n t (marked_disk n v.disk)
            (λ q hq. ap (λ y. block y v.disk.bytes q) zs) refl refl;
      present = inr (ap (λ y. y z) zs ∙ e, marked-IsFull n v.disk f);
    }
zone_made p now z v _ h k t e (something b f nz lt) =
    let w : (b == 0) ≡ false = ground arith in
    let zz : (z == z) ≡ true = ground arith in
    let nb : b ≢ 0 = λ q. omega arith in
    let fr = fresh_block v b t f in
    rw w (record {
      after = record {
        inode = record (set_zone_nr z b v.inode) { i_ctime = now; i_dirt = true };
        disk = clear_block b (set_zone (zone_bit b v.disk) true v.disk);
      };
      ends = refl;
      extends =
          grown-Extends v _ p (zone z) b t h f nb e k
            (zone-Grows v.inode.i_zone v.disk.bytes b nz lt fr z e) (cleared_disk b v.disk)
            (λ q o hq fq n.
              let y : (block_at v q == b) ≡ false = let x = fr q hq n in ground arith in rw y refl)
            (λ o. let y : (b == b) ≡ true = ground arith in rw y refl) refl;
      present = inl (rw zz nb);
    })

pub make_zone-Makes :
    (p : Place) (now z : ℕ) (v : Volume)
    → z < 9
    → (is_table (zone z) ≡ true) ⊎ (zone z ≡ p)
    → IsTree v
    → Makes p (zone z) v (make_zone true now z v)
unfolding make_zone
make_zone-Makes p now z v h k t = elim (Bool-cases (v.inode.i_zone z == 0)) [
  | inl e ↦ rw e (
      zone_made p now z v (new_block v.disk) h k t (ground arith)
        (new_block-IsNew v.disk t.sound t.idle))
  | inr e ↦ rw e (record {
    after = v;
    ends = refl;
    extends = Extends-refl p v t;
    present = inl (λ q. ground arith);
  })
]
