-- ===== src/Bmap.antt =====
-- fs/inode.c: `_bmap`, `get_diskBlock` and `create_diskBlock`; fs/truncate.c: `free_ind`,
-- `free_dind` and `truncate`.
-- An inode lies on one mounted device. `block_seq` comes from a file position and is not negative.
pub mod Tree
pub mod Grow
pub mod Entries
pub mod Extend
pub mod Create
pub mod Find
pub mod Number
pub mod Get
pub mod Rank
pub mod Clear
pub mod Tables
pub mod Truncate
pub mod Empty
pub mod Example
mod Tests
use linux.Prelude.{
  ℕ, zero, suc, ◌+◌, ◌-◌, ◌*◌, ◌/◌, ◌%◌, Bool, true, false, not, ◌&&◌, ◌||◌, ltb, leb, ◌==◌,
  if◌then◌else◌,
}
use linux.Prelude.Outcome.{Outcome, ok, panicked, ◌>>=◌}
use linux.Disk.{Disk, hold, brelse, new_block, free_block}

-- `struct m_inode`, as far as these functions and those of fs/file_dev.c use it; `i_zone` is indexed below 9.
pub record Inode : Type 0 where
  pub i_mode : ℕ
  pub i_size : ℕ
  pub i_mtime : ℕ
  pub i_atime : ℕ
  pub i_ctime : ℕ
  pub i_dirt : Bool
  pub i_zone : ℕ → ℕ

pub record Volume : Type 0 where
  pub inode : Inode
  pub disk : Disk

-- Entry `i` of a block read as 16-bit numbers, and a store to it
abbrev pub entry : (ℕ → ℕ) → ℕ → ℕ
entry w i = w (2 * i) + 256 * w (2 * i + 1)

abbrev pub store_entry : ℕ → ℕ → ℕ → Disk → Disk
store_entry b i v d = record d {
  bytes = λ c o.
      if (c == b) && (o / 2 == i)
      then (if o % 2 == 0 then v % 256 else v / 256 % 256)
      else d.bytes c o;
}

abbrev pub set_zone_nr : ℕ → ℕ → Inode → Inode
set_zone_nr z b i = record i { i_zone = λ k. if k == z then b else i.i_zone k }

-- `if (create && !inode->i_zone[z]) if ((inode->i_zone[z]=new_block(inode->i_dev))) ...`
unfoldable pub keep_zone : ℕ → ℕ → Inode → ℕ × Disk → Volume
keep_zone now z i (b, d) = record {
  inode =
      if b == 0
      then set_zone_nr z b i
      else record (set_zone_nr z b i) { i_ctime = now; i_dirt = true };
  disk = d;
}

unfoldable pub make_zone : Bool → ℕ → ℕ → Volume → Outcome Volume
make_zone create now z v =
    if create && (v.inode.i_zone z == 0)
    then new_block v.disk >>= (λ r. ok (keep_zone now z v.inode r))
    else ok v

-- `if (create && !i) if ((i=new_block(inode->i_dev))) ...`, on entry `i` of the held block `t`: the
-- number that stands there then
unfoldable pub keep_entry : ℕ → ℕ → ℕ × Disk → ℕ × Disk
keep_entry t i (b, d) = if b == 0 then (0, d) else (b, store_entry t i b d)

unfoldable pub make_entry : Bool → ℕ → ℕ → Disk → Outcome (ℕ × Disk)
make_entry create t i d =
    if create && (entry (d.bytes t) i == 0)
    then new_block d >>= (λ r. ok (keep_entry t i r))
    else ok (entry (d.bytes t) i, d)

-- `brelse(bh); return i;`
abbrev pub release : ℕ → ℕ × Disk → ℕ × Disk
release t (b, d) = (b, brelse t d)

-- From `bread` of table `t` to `brelse`: entry `i`, or 0 if the device cannot read
unfoldable pub read_entry : Bool → ℕ → ℕ → Disk → Outcome (ℕ × Disk)
read_entry create t i d =
    if not (d.readable t)
    then ok (0, d)
    else make_entry create t i (hold t d) >>= λ r. ok (release t r)

-- A table that is 0 has no entry.
unfoldable pub table_entry : Bool → ℕ → ℕ → Disk → Outcome (ℕ × Disk)
table_entry create t i d = if t == 0 then ok (0, d) else read_entry create t i d

abbrev pub on_disk : Inode → ℕ × Disk → ℕ × Volume
on_disk i (b, d) = (b, record { inode = i; disk = d })

unfoldable pub direct : Bool → ℕ → ℕ → Volume → Outcome (ℕ × Volume)
direct create now seq v = make_zone create now seq v >>= λ w. ok (w.inode.i_zone seq, w)

unfoldable pub indirect : Bool → ℕ → ℕ → Volume → Outcome (ℕ × Volume)
indirect create now seq v = do
  w ← make_zone create now 7 v
  r ← table_entry create (w.inode.i_zone 7) seq w.disk
  ok (on_disk w.inode r)

unfoldable pub double_indirect : Bool → ℕ → ℕ → Volume → Outcome (ℕ × Volume)
double_indirect create now seq v = do
  w ← make_zone create now 8 v
  (t, d) ← table_entry create (w.inode.i_zone 8) (seq / 512) w.disk
  r ← table_entry create t (seq % 512) d
  ok (on_disk w.inode r)

unfoldable pub bmap : Bool → ℕ → ℕ → Volume → Outcome (ℕ × Volume)
bmap create now block_seq v =
    if leb (7 + 512 + 512 * 512) block_seq
    then panicked
    else if ltb block_seq 7
    then direct create now block_seq v
    else if ltb (block_seq - 7) 512
    then indirect create now (block_seq - 7) v
    else double_indirect create now (block_seq - 7 - 512) v

unfoldable pub get_disk_block : ℕ → Volume → Outcome (ℕ × Volume)
get_disk_block block_seq v = bmap false 0 block_seq v

unfoldable pub create_disk_block : ℕ → ℕ → Volume → Outcome (ℕ × Volume)
create_disk_block now block_seq v = bmap true now block_seq v

-- The loop of `free_ind`, over `n` entries from entry `i` of block `t` on
unfoldable pub free_blocks : ℕ → ℕ → ℕ → Disk → Outcome Disk
free_blocks zero t i d = ok d
free_blocks (suc n) t i d =
    (if entry (d.bytes t) i == 0 then ok d else free_block (entry (d.bytes t) i) d) >>= λ d₁.
    free_blocks n t (i + 1) d₁

-- `if ((bh=bread(dev,block))) { ... brelse(bh); }`, with what is done to the entries
abbrev pub with_table : (Disk → Outcome Disk) → ℕ → Disk → Outcome Disk
with_table f block d =
    if d.readable block then (f (hold block d) >>= λ d₁. ok (brelse block d₁)) else ok d

unfoldable pub free_ind : ℕ → Disk → Outcome Disk
free_ind block d =
    if block == 0 then ok d else with_table (free_blocks 512 block 0) block d >>= free_block block

-- The loop of `free_dind`
unfoldable pub free_tables : ℕ → ℕ → ℕ → Disk → Outcome Disk
free_tables zero t i d = ok d
free_tables (suc n) t i d =
    (if entry (d.bytes t) i == 0 then ok d else free_ind (entry (d.bytes t) i) d) >>= λ d₁.
    free_tables n t (i + 1) d₁

unfoldable pub free_dind : ℕ → Disk → Outcome Disk
free_dind block d =
    if block == 0 then ok d else with_table (free_tables 512 block 0) block d >>= free_block block

-- The loop of `truncate` over the direct zones, `n` of them from zone `z` on
unfoldable pub free_direct : ℕ → ℕ → Volume → Outcome Volume
free_direct zero z v = ok v
free_direct (suc n) z v =
    (if v.inode.i_zone z == 0
      then ok v
      else free_block (v.inode.i_zone z) v.disk >>= λ d.
          ok (record { inode = set_zone_nr z 0 v.inode; disk = d }))
    >>= λ w. free_direct n (z + 1) w

-- `S_ISREG` or `S_ISDIR`
abbrev pub has_blocks : Inode → Bool
has_blocks i = (i.i_mode / 0o10000 % 16 == 8) || (i.i_mode / 0o10000 % 16 == 4)

abbrev pub emptied : ℕ → Inode → Inode
emptied now i = record (set_zone_nr 8 0 (set_zone_nr 7 0 i)) {
  i_size = 0;
  i_dirt = true;
  i_mtime = now;
  i_ctime = now;
}

unfoldable pub truncate : ℕ → Volume → Outcome Volume
truncate now v = if not (has_blocks v.inode) then ok v else do
  w ← free_direct 7 0 v
  d₁ ← free_ind (w.inode.i_zone 7) w.disk
  d₂ ← free_dind (w.inode.i_zone 8) d₁
  ok (record { inode = emptied now w.inode; disk = d₂ })
