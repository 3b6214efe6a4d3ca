-- ===== src/Disk.antt =====
-- fs/bitmap.c: `new_block` and `free_block` on one mounted device.
-- `bytes` is what `bread` shows of a block, its buffer where that is up to date and else what the
-- device has `stored`; `readable` says for which blocks it succeeds, which is where the buffer is up to
-- date or the device `reads` the block; `held` is the count of
-- users of the buffer of a block, a byte, and 0 where it has none. Bit n of the zone map is bit
-- n % 8192 of `s_zmap[n / 8192]`; the maps from `s_zmap_blocks` on are NULL. The maps hold a bit for
-- each zone.
pub mod Alloc
pub mod Search
pub mod New
mod Tests
use linux.Prelude.{
  ℕ, zero, suc, ◌+◌, ◌-◌, ◌*◌, ◌/◌, ◌%◌, Option, none, some, Bool, true, false, not, ◌&&◌, ◌||◌,
  ltb, leb, ◌==◌, if◌then◌else◌,
}
use linux.Prelude.Outcome.{Outcome, ok, panicked}

pub record Disk : Type 0 where
  pub s_nzones : ℕ
  pub s_firstdatazone : ℕ
  pub s_zmap_blocks : ℕ
  pub zmap : ℕ → Bool
  pub bytes : ℕ → ℕ → ℕ
  pub stored : ℕ → ℕ → ℕ
  pub readable : ℕ → Bool
  pub reads : ℕ → Bool
  pub held : ℕ → ℕ

abbrev pub block_size : ℕ
block_size = 1024

-- The bit of a block, `block - (sb->s_firstdatazone - 1)`
abbrev pub zone_bit : ℕ → Disk → ℕ
zone_bit block d = block + 1 - d.s_firstdatazone

abbrev pub set_zone : ℕ → Bool → Disk → Disk
set_zone n b d = record d { zmap = λ k. if k == n then b else d.zmap k }

abbrev pub clear_block : ℕ → Disk → Disk
clear_block b d = record d {
  bytes = λ c o. if c == b then 0 else d.bytes c o;
  readable = λ c. if c == b then true else d.readable c;
}

-- `b_dirt=0`, `b_uptodate=0`
abbrev pub forget : ℕ → Disk → Disk
forget b d = record d {
  bytes = λ c. if c == b then d.stored c else d.bytes c;
  readable = λ c. if c == b then d.reads c else d.readable c;
}

-- `b_count++`, `b_count--`
abbrev pub hold : ℕ → Disk → Disk
hold b d = record d { held = λ c. if c == b then (d.held c + 1) % 256 else d.held c }

abbrev pub brelse : ℕ → Disk → Disk
brelse b d = record d { held = λ c. if c == b then d.held c - 1 else d.held c }

-- `find_first_zero`: the first of the `n` bits from `k` on that is 0, and k + n if none is
unfoldable pub find_first_zero : (ℕ → Bool) → ℕ → ℕ → ℕ
find_first_zero f k zero = k
find_first_zero f k (suc n) = let rest = find_first_zero f (k + 1) n in if f k then rest else k

-- The loop of `new_block` over `n` maps from map `i` on
unfoldable pub find_zone : ℕ → ℕ → Disk → Option ℕ
find_zone zero i d = none
find_zone (suc n) i d =
    let j = find_first_zero (λ k. d.zmap (i * 8192 + k)) 0 8192 in
    let rest = find_zone n (i + 1) d in
    if ltb i d.s_zmap_blocks && ltb j 8192 then some (i * 8192 + j) else rest

-- What follows: the block, or 0
unfoldable pub take_zone : Option ℕ → Disk → Outcome (ℕ × Disk)
take_zone none d = ok (0, d)
take_zone (some n) d =
    let b = n + d.s_firstdatazone - 1 in
    let d₁ = set_zone n true d in
    if d.zmap n
    then panicked
    else if leb d.s_nzones b
    then ok (0, d₁)
    else if (d.held b + 1) % 256 == 1
    then ok (b, clear_block b d₁)
    else panicked

unfoldable pub new_block : Disk → Outcome (ℕ × Disk)
new_block d = take_zone (find_zone 8 0 d) d

-- A block that another user holds keeps its zone, and the count of its buffer stays raised.
unfoldable pub free_block : ℕ → Disk → Outcome Disk
free_block block d =
    let n = zone_bit block d in
    if ltb block d.s_firstdatazone || leb d.s_nzones block
    then panicked
    else if not ((d.held block + 1) % 256 == 1)
    then ok (hold block d)
    else if d.zmap n
    then ok (set_zone n false (forget block d))
    else panicked
