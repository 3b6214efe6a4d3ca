-- ===== src/Bmap/Find.antt =====
-- What `_bmap` does to an entry of a table, when it creates.
use linux.Prelude.{
  ℕ, ◌<◌, ◌≡◌, ◌≢◌, refl, sym, ap, ◌∙◌, ◌⊎◌, inl, inr, true, false, ◌==◌, if◌then◌else◌, arith,
  Bool-cases,
}
use linux.Prelude.Outcome.{Outcome, ok, ◌>>=◌}
use linux.Disk.{Disk, zone_bit, set_zone, clear_block, hold, brelse, new_block}
use linux.Disk.Alloc.{IsSound, IsZone}
use linux.Disk.New.{IsFresh, IsFull, IsIdle, IsNew, nothing, something, new_block-IsNew}
use linux.Bmap.{
  Volume, entry, store_entry, keep_entry, make_entry, release, read_entry, table_entry,
}
use linux.Bmap.Tree.{Place, IsPlace, is_table, block_at, child, IsTree}
use linux.Bmap.Grow.{Grows, with_zeros, with_entry}
use linux.Bmap.Extend.{Extends, marked-Extends, grown-Extends, fresh_block}

abbrev pub with_disk : Volume → Disk → Volume
with_disk v d = record v { disk = d }

-- A function returns the number that stands at place `s` after it, which is not 0 unless no zone is
-- free.
pub record Finds (p s : Place) (v : Volume) (r : Outcome (ℕ × Disk)) : Type 0 where
  pub number : ℕ
  pub after : Disk
  pub ends : r ≡ ok (number, after)
  pub extends : Extends p v (with_disk v after)
  pub stands : block_at (with_disk v after) s ≡ number
  pub present : (number ≢ 0) ⊎ ((number ≡ 0) × IsFull after)

hold-IsSound : (t : ℕ) (d : Disk) → IsSound d → IsSound (hold t d)
hold-IsSound t d s = record {
  first_bit = s.first_bit;
  positive = s.positive;
  few = s.few;
  covered = s.covered;
  maps = s.maps;
}

hold-IsIdle : (t : ℕ) (d : Disk) → IsIdle d → d.zmap (zone_bit t d) ≡ true → IsIdle (hold t d)
hold-IsIdle t d q u b f = elim (Bool-cases (b == t)) [
  | inl e ↦
      let y : b ≡ t = ground arith in
      let w : true ≡ false = sym u ∙ ap (λ c. d.zmap (zone_bit c d)) (sym y) ∙ f.free in
      absurd (ground arith)
  | inr e ↦
      rw e
        (q b (record { zone = record { from = f.zone.from; below = f.zone.below }; free = f.free }))
]

pub held_again :
    (t : ℕ) (d : Disk)
    → ((c : ℕ) → d.held c < 255)
    → (c : ℕ) → (brelse t (hold t d)).held c ≡ d.held c
held_again t d q c =
    let z = q c in
    elim (Bool-cases (c == t)) [ inl e ↦ rw e (omega (arith, z)) | inr e ↦ rw e refl ]

-- An entry that is there already
entry_found :
    (p s : Place) (t i : ℕ) (v : Volume)
    → IsTree v
    → entry (v.disk.bytes t) i ≢ 0
    → block_at v s ≡ entry (v.disk.bytes t) i
    → Finds p s v (ok (release t (entry (v.disk.bytes t) i, hold t v.disk)))
entry_found p s t i v tr nz e = record {
  number = entry (v.disk.bytes t) i;
  after = brelse t (hold t v.disk);
  ends = refl;
  extends =
      marked-Extends p v _ 0 tr
        (record {
          bits = λ k. elim (Bool-cases (k == 0)) [
            | inl h ↦ let y : k ≡ 0 = ground arith in rw h (ap v.disk.zmap y ∙ tr.sound.first_bit)
            | inr h ↦ rw h refl
          ];
          nzones = refl;
          first = refl;
          maps = refl;
          users = held_again t v.disk tr.quiet;
          readable = λ c h. h;
        })
        (λ q h. refl) refl refl;
  stands = e;
  present = inl nz;
}

module _ (p s tp : Place) (i : ℕ) (v : Volume) (tr : IsTree v) (hs : IsPlace s) (ht : IsPlace tp)
    (table : is_table tp ≡ true) (k : (is_table s ≡ true) ⊎ (s ≡ p)) (nz : block_at v tp ≢ 0)
    (is : block_at v s ≡ child v.disk.bytes (block_at v tp) i)
    (grows : (b : ℕ)
      → 0 < b
      → b < 65536
      → ((q : Place) → IsPlace q → block_at v q ≢ 0 → block_at v q ≢ b)
      → entry (v.disk.bytes (block_at v tp)) i ≡ 0
      → Grows s b v.inode.i_zone v.inode.i_zone v.disk.bytes
          (with_entry (block_at v tp) i b (with_zeros b v.disk.bytes))) where
  is_entry : block_at v s ≡ entry (v.disk.bytes (block_at v tp)) i
  is_entry = let z : (block_at v tp == 0) ≡ false = ground arith in is ∙ rw z refl

  -- The data blocks are neither the table nor the new block.
  contents_kept :
      (b : ℕ)
      → IsFresh b v.disk
      → (q : Place) (o : ℕ) → IsPlace q
      → is_table q ≡ false
      → block_at v q ≢ 0
      → with_entry (block_at v tp) i b (with_zeros b v.disk.bytes) (block_at v q) o
        ≡ v.disk.bytes (block_at v q) o
  contents_kept b f q o hq fq n =
      let x : (block_at v q == b) ≡ false = let y = fresh_block v b tr f q hq n in ground arith in
      let m : block_at v q ≢ block_at v tp = λ e.
        let w : true ≡ false = sym table ∙ ap is_table (sym (tr.apart q tp hq ht n e)) ∙ fq in
        ground arith in
      let z : (block_at v q == block_at v tp) ≡ false = ground arith in rw (z, x) refl

  entry_made :
      (r : Outcome (ℕ × Disk))
      → entry (v.disk.bytes (block_at v tp)) i ≡ 0
      → IsNew (hold (block_at v tp) v.disk) r
      → Finds p s v
          (r >>= (λ r. ok (keep_entry (block_at v tp) i r)) >>= λ r. ok (release (block_at v tp) r))
  unfolding keep_entry
  entry_made _ e (nothing n f m) =
      let t = block_at v tp in
      let g : IsFull v.disk = λ c z. f c (record { from = z.from; below = z.below }) in
      record {
        number = 0;
        after = brelse t (set_zone n true (hold t v.disk));
        ends = refl;
        extends =
            marked-Extends p v _ n tr
              (record {
                bits = λ k. refl;
                nzones = refl;
                first = refl;
                maps = refl;
                users = held_again t v.disk tr.quiet;
                readable = λ c h. h;
              })
              (λ q h. refl) refl refl;
        stands = is_entry ∙ e;
        present = inr (refl, λ c z. full_still n g c (record { from = z.from; below = z.below }));
      }
    where
      full_still :
          (n : ℕ)
          → IsFull v.disk
          → (c : ℕ) → IsZone c v.disk
          → (if zone_bit c v.disk == n then true else v.disk.zmap (zone_bit c v.disk)) ≡ true
      full_still n g c z = elim (Bool-cases (zone_bit c v.disk == n)) [
        | inl e ↦ rw e refl
        | inr e ↦ rw e (g c z)
      ]
  entry_made _ e (something b f pz lt) =
      let t = block_at v tp in
      let w : (b == 0) ≡ false = ground arith in
      let nb : b ≢ 0 = λ q. omega arith in
      let f' : IsFresh b v.disk = record {
        zone = record { from = f.zone.from; below = f.zone.below };
        free = f.free;
      } in
      let fr = fresh_block v b tr f' in
      let g = grows b pz lt fr e in
      rw w (record {
        number = b;
        after =
            brelse t (
              store_entry t i b
                (clear_block b (set_zone (zone_bit b v.disk) true (hold t v.disk))));
        ends = refl;
        extends =
            grown-Extends v _ p s b tr hs f' nb (is_entry ∙ e) k g
              (record {
                bits = λ k. refl;
                nzones = refl;
                first = refl;
                maps = refl;
                users = held_again t v.disk tr.quiet;
                readable = λ c e. elim (Bool-cases (c == b)) [ inl s ↦ rw s refl | inr s ↦ rw s e ];
              })
              (contents_kept b f')
              (λ o.
                let x : (b == t) ≡ false = let y = fr tp ht nz in ground arith in
                let y : (b == b) ≡ true = ground arith in rw (x, y) refl)
              refl;
        stands = g.here;
        present = inl nb;
      })

  pub table_entry-Finds :
      v.disk.readable (block_at v tp) ≡ true
      → Finds p s v (table_entry true (block_at v tp) i v.disk)
  unfolding table_entry read_entry make_entry
  table_entry-Finds rd =
      let t = block_at v tp in
      let z : (t == 0) ≡ false = ground arith in
      rw (z, rd)
        (elim (Bool-cases (entry (v.disk.bytes t) i == 0)) [
          | inl e ↦ rw e (
              entry_made (new_block (hold t v.disk)) (ground arith) (
                new_block-IsNew (hold t v.disk) (hold-IsSound t v.disk tr.sound)
                  (hold-IsIdle t v.disk tr.idle (tr.used tp ht nz))))
          | inr e ↦ rw e (entry_found p s t i v tr (λ q. ground arith) is_entry)
        ])
