-- ===== src/FileDev.antt =====
-- fs/file_dev.c: `file_read` and `file_write`, and the way to `file_read` in `sys_read` of
-- fs/read_write.c.
-- The file lies on one mounted device. Positions are not negative and stay below 2^31. The memory
-- of the user is a function of the address, and the clock stands still in a call.
pub mod Contents
pub mod Read
pub mod Fill
pub mod Loop
pub mod Write
pub mod Back
mod Tests
use linux.Prelude.{
  ℕ, zero, suc, ◌+◌, ◌-◌, ◌*◌, ◌/◌, ◌%◌, min, max, Bool, true, false, not, ◌&&◌, ◌||◌, ltb, leb,
  ◌==◌, if◌then◌else◌, ℤ, pos, negsuc, ◌+ℤ◌, Option, none, some,
}
use linux.Prelude.Outcome.{Outcome, ok, ◌>>=◌}
use linux.Disk.{Disk, hold, brelse}
use linux.Bmap.{Inode, Volume, get_disk_block, create_disk_block}

-- `struct file` with its inode
pub record OpenFile : Type 0 where
  pub f_flags : ℕ
  pub f_pos : ℕ
  pub volume : Volume

-- `f_flags & O_APPEND`
abbrev pub appends : OpenFile → Bool
appends f = f.f_flags / 0o2000 % 2 == 1

-- `while (chars-->0) put_fs_byte(*(p++),buf++)`, and the other way `*(p++) = get_fs_byte(buf++)`:
-- `n` bytes of `from`, from address `p` on, go to `to`, from address `q` on.
unfoldable pub copy_bytes : ℕ → (ℕ → ℕ) → ℕ → (ℕ → ℕ) → ℕ → ℕ → ℕ
copy_bytes zero from p to q = to
copy_bytes (suc n) from p to q =
    copy_bytes n from (p + 1) (λ a. if a == q then from p else to a) (q + 1)

-- The variables of `file_read`, the file and the user's memory
pub record Reading : Type 0 where
  pub file : OpenFile
  pub user : ℕ → ℕ
  pub buf : ℕ
  pub left : ℕ

abbrev pub in_volume : Volume → Reading → Reading
in_volume v r = record r { file = record r.file { volume = v } }

-- From `nr = filp->f_pos % BLOCK_SIZE` on, with what the buffer holds, or zeros
unfoldable pub pass_block : (ℕ → ℕ) → Reading → Reading
pass_block block r =
    let nr = r.file.f_pos % 1024 in
    let chars = min (1024 - nr) r.left in
    record {
      file = record r.file { f_pos = r.file.f_pos + chars };
      user = copy_bytes chars block nr r.user r.buf;
      buf = r.buf + chars;
      left = r.left - chars;
    }

abbrev pub with_volume : (Disk → Disk) → Volume → Volume
with_volume f v = record v { disk = f v.disk }

-- After `get_diskBlock` returned `nr`; whether the loop goes on
unfoldable pub read_part : ℕ → Reading → Bool × Reading
read_part nr r =
    let v = r.file.volume in
    if nr == 0
    then (true, pass_block (λ o. 0) r)
    else if not (v.disk.readable nr)
    then (false, r)
    else (
      true,
      in_volume (with_volume (brelse nr) (with_volume (hold nr) v))
          (pass_block (v.disk.bytes nr) (in_volume (with_volume (hold nr) v) r)),
    )

unfoldable pub read_loop : ℕ → Reading → Outcome Reading
read_loop zero r = ok r
read_loop (suc n) r =
    if r.left == 0
    then ok r
    else get_disk_block (r.file.f_pos / 1024) r.file.volume >>= λ (nr, v).
        let (more, r₁) = read_part nr (in_volume v r) in if more then read_loop n r₁ else ok r₁

abbrev pub set_inode : (Inode → Inode) → OpenFile → OpenFile
set_inode f file = record file { volume = record file.volume { inode = f file.volume.inode } }

-- What is returned, the user's memory, and the file
abbrev pub read_result : ℕ → ℕ → Reading → ℤ × (ℕ → ℕ) × OpenFile
read_result now count r = (
  (if count - r.left == 0 then negsuc 98 else pos (count - r.left)),
  r.user,
  set_inode (λ i. record i { i_atime = now }) r.file,
)

unfoldable pub file_read : ℕ → ℕ → ℕ → (ℕ → ℕ) → OpenFile → Outcome (ℤ × (ℕ → ℕ) × OpenFile)
file_read now buf count user f =
    if count == 0
    then ok (pos 0, user, f)
    else read_loop count (record { file = f; user = user; buf = buf; left = count }) >>= λ r.
        ok (read_result now count r)

-- `sys_read` of a regular file or a directory, with `count` positive
unfoldable pub read_regular : ℕ → ℕ → ℕ → (ℕ → ℕ) → OpenFile → Outcome (ℤ × (ℕ → ℕ) × OpenFile)
read_regular now buf count user f =
    let size = f.volume.inode.i_size in
    file_read now buf (if ltb size (count + f.f_pos) then size - f.f_pos else count) user f

-- The variables of `file_write`
pub record Writing : Type 0 where
  pub volume : Volume
  pub at : ℕ
  pub buf : ℕ
  pub i : ℕ

-- `if (pos > inode->i_size) { inode->i_size = pos; inode->i_dirt = 1; }`
abbrev pub reach : ℕ → Inode → Inode
reach p i = if ltb i.i_size p then record i { i_size = p; i_dirt = true } else i

abbrev pub fill_block : ℕ → ℕ → (ℕ → ℕ) → ℕ → ℕ → Disk → Disk
fill_block block c user buf p d = record d {
  bytes = λ b. if b == block then copy_bytes c user buf (d.bytes b) p else d.bytes b;
}

-- From `c = pos % BLOCK_SIZE` on
unfoldable pub store_block : ℕ → (ℕ → ℕ) → ℕ → Writing → Writing
store_block count user block w =
    let p = w.at % 1024 in
    let c = min (1024 - p) (count - w.i) in
    record {
      volume = record {
        inode = reach (w.at + c) w.volume.inode;
        disk = brelse block (fill_block block c user w.buf p (hold block w.volume.disk));
      };
      at = w.at + c;
      buf = w.buf + c;
      i = w.i + c;
    }

-- After `create_diskBlock` returned `block`; whether the loop goes on
unfoldable pub write_part : ℕ → (ℕ → ℕ) → ℕ → Writing → Bool × Writing
write_part count user block w =
    if block == 0
    then (false, w)
    else if not (w.volume.disk.readable block)
    then (false, w)
    else (true, store_block count user block w)

unfoldable pub write_loop : ℕ → ℕ → ℕ → (ℕ → ℕ) → Writing → Outcome Writing
write_loop now zero count user w = ok w
write_loop now (suc n) count user w =
    if leb count w.i
    then ok w
    else create_disk_block now (w.at / 1024) w.volume >>= λ (block, v).
        let (more, w₁) = write_part count user block (record w { volume = v }) in
        if more then write_loop now n count user w₁ else ok w₁

unfoldable pub write_result : ℕ → OpenFile → Writing → ℤ × OpenFile
write_result now f w = (
  (if w.i == 0 then negsuc 0 else pos w.i),
  if appends f
      then set_inode (λ i. record i { i_mtime = now }) (record f { volume = w.volume })
      else set_inode (λ i. record i { i_mtime = now; i_ctime = now })
          (record f { volume = w.volume; f_pos = w.at }),
)

unfoldable pub file_write : ℕ → ℕ → ℕ → (ℕ → ℕ) → OpenFile → Outcome (ℤ × OpenFile)
file_write now buf count user f =
    let start = if appends f then f.volume.inode.i_size else f.f_pos in
    write_loop now count count user (record { volume = f.volume; at = start; buf = buf; i = 0 })
    >>= λ w. ok (write_result now f w)
