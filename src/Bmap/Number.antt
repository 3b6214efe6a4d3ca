-- ===== src/Bmap/Number.antt =====
-- `create_diskBlock` and `get_diskBlock`.
use linux.Prelude.{
  ℕ, ◌+◌, ◌-◌, ◌*◌, ◌/◌, ◌%◌, ◌<◌, ◌≡◌, ◌≢◌, refl, sym, ap, ◌∙◌, subst, ◌⊎◌, inl, inr, true, false,
  ◌==◌, ltb, leb, arith, Bool-cases,
}
use linux.Prelude.Outcome.{Outcome, ok, ◌>>=◌}
use linux.Disk.Alloc.{IsZone}
use linux.Disk.New.{IsFull}
use linux.Bmap.{
  Volume, table_entry, on_disk, direct, indirect, double_indirect, bmap, create_disk_block,
}
use linux.Bmap.Tree.{Place, zone, ind, dind, leaf, place, block_at, child, IsTree}
use linux.Bmap.Entries.{ind-Grows, dind-Grows, leaf-Grows}
use linux.Bmap.Extend.{Extends, Extends-refl, Extends-trans}
use linux.Bmap.Create.{make_zone-Makes}
use linux.Bmap.Find.{Finds, with_disk, table_entry-Finds}

-- The device can read its zones.
abbrev pub IsReadable : Volume → Type 0
IsReadable v = (c : ℕ) → IsZone c v.disk → v.disk.readable c ≡ true

-- What creating the block with number `seq` of a file returns and leaves
pub record Creates (seq : ℕ) (v : Volume) (r : Outcome (ℕ × Volume)) : Type 0 where
  pub number : ℕ
  pub after : Volume
  pub ends : r ≡ ok (number, after)
  pub extends : Extends (place seq) v after
  pub stands : block_at after (place seq) ≡ number
  pub present : (number ≢ 0) ⊎ ((number ≡ 0) × IsFull after.disk)

-- A table that is not there has no entry.
no_table :
    (p s : Place) (v : Volume) (t i : ℕ)
    → IsTree v
    → t ≡ 0
    → block_at v s ≡ child v.disk.bytes t i
    → IsFull v.disk
    → Finds p s v (table_entry true t i v.disk)
unfolding table_entry
no_table p s v t i tr z e f =
    let y : (t == 0) ≡ true = ground arith in
    rw y (record {
      number = 0;
      after = v.disk;
      ends = refl;
      extends = Extends-refl p v tr;
      stands = e ∙ rw y refl;
      present = inr (refl, f);
    })

module _ (p : Place) (v : Volume) (tr : IsTree v) (rd : IsReadable v) where
  ind_entry :
      (i : ℕ)
      → i < 512
      → p ≡ ind i
      → (block_at v (zone 7) ≢ 0) ⊎ ((block_at v (zone 7) ≡ 0) × IsFull v.disk)
      → Finds p (ind i) v (table_entry true (block_at v (zone 7)) i v.disk)
  ind_entry i h e (inr (z, f)) = no_table p (ind i) v _ i tr z refl f
  ind_entry i h e (inl nz) =
      table_entry-Finds p (ind i) (zone 7) i v tr h (omega arith) refl (inr (sym e)) nz refl
        (λ b pz lt fr y. ind-Grows v.inode.i_zone v.disk.bytes b pz lt fr tr.apart i h nz y)
        (rd _ (tr.zones (zone 7) (omega arith) nz))

  dind_entry :
      (i : ℕ)
      → i < 512
      → (block_at v (zone 8) ≢ 0) ⊎ ((block_at v (zone 8) ≡ 0) × IsFull v.disk)
      → Finds p (dind i) v (table_entry true (block_at v (zone 8)) i v.disk)
  dind_entry i h (inr (z, f)) = no_table p (dind i) v _ i tr z refl f
  dind_entry i h (inl nz) =
      table_entry-Finds p (dind i) (zone 8) i v tr h (omega arith) refl (inl refl) nz refl
        (λ b pz lt fr y. dind-Grows v.inode.i_zone v.disk.bytes b pz lt fr tr.apart i h nz y)
        (rd _ (tr.zones (zone 8) (omega arith) nz))

  leaf_entry :
      (i j : ℕ)
      → i < 512
      → j < 512
      → p ≡ leaf i j
      → (block_at v (dind i) ≢ 0) ⊎ ((block_at v (dind i) ≡ 0) × IsFull v.disk)
      → Finds p (leaf i j) v (table_entry true (block_at v (dind i)) j v.disk)
  leaf_entry i j h k e (inr (z, f)) = no_table p (leaf i j) v _ j tr z refl f
  leaf_entry i j h k e (inl nz) =
      table_entry-Finds p (leaf i j) (dind i) j v tr (h, k) h refl (inr (sym e)) nz refl
        (λ b pz lt fr y. leaf-Grows v.inode.i_zone v.disk.bytes b pz lt fr tr.apart i j h k nz y)
        (rd _ (tr.zones (dind i) h nz))

pub IsReadable-after : (p : Place) (v w : Volume) → Extends p v w → IsReadable v → IsReadable w
IsReadable-after p v w x r c z = x.readable c (r c (x.same_zones c z))

direct-Creates :
    (now seq : ℕ) (v : Volume)
    → seq < 7
    → place seq ≡ zone seq
    → IsTree v
    → Creates seq v (direct true now seq v)
unfolding direct
direct-Creates now seq v h e t =
    let m = make_zone-Makes (place seq) now seq v (omega arith) (inr (sym e)) t in
    record {
      number = m.after.inode.i_zone seq;
      after = m.after;
      ends = ap (λ r. r >>= λ w. ok (w.inode.i_zone seq, w)) m.ends;
      extends = m.extends;
      stands = ap (block_at m.after) e;
      present = m.present;
    }

indirect-Creates :
    (now seq i : ℕ) (v : Volume)
    → i < 512
    → place seq ≡ ind i
    → IsTree v
    → IsReadable v
    → Creates seq v (indirect true now i v)
unfolding indirect
indirect-Creates now seq i v h e t r =
    let m = make_zone-Makes (place seq) now 7 v (omega arith) (inl refl) t in
    let w = m.after in
    let f =
      ind_entry (place seq) w m.extends.tree (IsReadable-after _ v w m.extends r) i h e m.present in
    record {
      number = f.number;
      after = with_disk w f.after;
      ends =
          ap
            (λ r. r >>= λ w.
              table_entry true (w.inode.i_zone 7) i w.disk >>= λ r. ok (on_disk w.inode r))
            m.ends
          ∙ ap (λ r. r >>= λ r. ok (on_disk w.inode r)) f.ends;
      extends = Extends-trans _ v w _ m.extends f.extends;
      stands = ap (block_at (with_disk w f.after)) e ∙ f.stands;
      present = f.present;
    }

double-Creates :
    (now seq n : ℕ) (v : Volume)
    → n < 512 * 512
    → place seq ≡ leaf (n / 512) (n % 512)
    → IsTree v
    → IsReadable v
    → Creates seq v (double_indirect true now n v)
unfolding double_indirect
double-Creates now seq n v h e t r =
    let m = make_zone-Makes (place seq) now 8 v (omega arith) (inl refl) t in
    let w = m.after in
    let f =
      dind_entry (place seq) w m.extends.tree (IsReadable-after _ v w m.extends r) (n / 512)
        (omega arith) m.present in
    let u = with_disk w f.after in
    let x = Extends-trans _ v w u m.extends f.extends in
    let g =
      leaf_entry (place seq) u f.extends.tree (IsReadable-after _ v u x r) (n / 512) (n % 512)
        (omega arith) (omega arith) e
        (subst (λ k. (k ≢ 0) ⊎ ((k ≡ 0) × IsFull f.after)) (sym f.stands) f.present) in
    record {
      number = g.number;
      after = with_disk u g.after;
      ends =
          ap
            (λ r. r >>= λ w. table_entry true (w.inode.i_zone 8) (n / 512) w.disk >>= λ (t, d).
              table_entry true t (n % 512) d >>= λ r. ok (on_disk w.inode r))
            m.ends
          ∙ ap (λ r. r >>= λ (t, d). table_entry true t (n % 512) d >>= λ r. ok (on_disk w.inode r))
              f.ends
          ∙ ap (λ t. table_entry true t (n % 512) f.after >>= λ r. ok (on_disk w.inode r))
              (sym f.stands)
          ∙ ap (λ r. r >>= λ r. ok (on_disk w.inode r)) g.ends;
      extends = Extends-trans _ v u _ x g.extends;
      stands = ap (block_at (with_disk u g.after)) e ∙ g.stands;
      present = g.present;
    }

-- `create_diskBlock` for a block number that a file can have, on an inode whose blocks are zones in
-- use, each at one place, on a device that reads its zones, where no buffer of a free zone is in use
-- and none has 255 users: the number that it returns stands at that place of
-- the file, and is 0 only if no zone is free. The inode is as well formed as before, every block
-- that it had is where it was and no other block of the file is new, and the data in its blocks is
-- the same; a new block of data holds zeros.
pub create_disk_block-Creates :
    (now seq : ℕ) (v : Volume)
    → seq < 7 + 512 + 512 * 512
    → IsTree v
    → IsReadable v
    → Creates seq v (create_disk_block now seq v)
unfolding create_disk_block bmap
create_disk_block-Creates now seq v h t r =
    let big : leb (7 + 512 + 512 * 512) seq ≡ false = ground arith in
    elim (Bool-cases (ltb seq 7)) [
      | inl e ↦ rw (big, e) (direct-Creates now seq v (ground arith) (rw e refl) t)
      | inr e ↦ elim (Bool-cases (ltb (seq - 7) 512)) [
        | inl f ↦
            rw (big, e, f)
              (indirect-Creates now seq (seq - 7) v (ground arith) (rw (e, f) refl) t r)
        | inr f ↦
            rw (big, e, f)
              (double-Creates now seq (seq - 7 - 512) v (omega arith) (rw (e, f) refl) t r)
      ]
    ]
