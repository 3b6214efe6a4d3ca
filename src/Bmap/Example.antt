-- ===== src/Bmap/Example.antt =====
-- A small device with a file of one block.
use linux.Prelude.{
  ℕ, ◌≡◌, ◌≢◌, sym, ap, ◌∙◌, refl, true, false, ◌||◌, ◌==◌, ltb, if◌then◌else◌, arith,
}
use linux.Disk.{Disk, zone_bit}
use linux.Disk.Alloc.{IsZone}
use linux.Bmap.Truncate.{IsUnheld}
use linux.Bmap.{Inode, Volume}
use linux.Bmap.Tree.{Place, zone, ind, dind, leaf, block_at, IsTree}

-- Zones 3 to 19, of which 5 is in use; block 2 holds their map, whose buffer the super block keeps.
abbrev pub disk : Disk
disk = record {
  s_nzones = 20;
  s_firstdatazone = 3;
  s_zmap_blocks = 1;
  zmap = λ k. (k == 0) || (k == 3);
  bytes = λ b o. 0;
  stored = λ b o. 0;
  readable = λ b. ltb b 20;
  reads = λ b. ltb b 20;
  held = λ b. if b == 2 then 1 else 0;
}

abbrev pub inode : Inode
inode = record {
  i_mode = 0o100644;
  i_size = 1024;
  i_mtime = 0;
  i_atime = 0;
  i_ctime = 0;
  i_dirt = false;
  i_zone = λ z. if z == 0 then 5 else 0;
}

abbrev pub file : Volume
file = record { inode = inode; disk = disk }

only_block : (p : Place) → block_at file p ≢ 0 → p ≡ zone 0
only_block (zone z) n = ap zone (ground arith)
only_block (ind i) n = absurd (n refl)
only_block (dind i) n = absurd (n refl)
only_block (leaf i j) n = absurd (n refl)

is_five : (p : Place) → block_at file p ≢ 0 → block_at file p ≡ 5
is_five p n = ap (block_at file) (only_block p n)

pub file-IsReadable : (c : ℕ) → IsZone c disk → ltb c 20 ≡ true
file-IsReadable c z = let h = z.below in ground arith

pub file-IsUnheld : IsUnheld file
file-IsUnheld p h n = let e = is_five p n in ground arith

pub file-IsTree : IsTree file
file-IsTree = record {
  sound = record {
    first_bit = refl;
    positive = omega arith;
    few = omega arith;
    covered = omega arith;
    maps = omega arith;
  };
  quiet = λ c. ground arith;
  idle = λ c f. let z = f.zone.from in ground arith;
  zones =
      λ p h n. let e = is_five p n in record { from = omega (arith, e); below = omega (arith, e) };
  used = λ p h n. ap (λ b. disk.zmap (zone_bit b disk)) (is_five p n);
  apart = λ p q hp hq n e. only_block p n ∙ sym (only_block q (λ z. n (e ∙ z)));
}
