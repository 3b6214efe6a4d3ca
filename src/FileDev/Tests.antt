-- ===== src/FileDev/Tests.antt =====
-- Writes to the file of one block of Bmap.Example, and reads of it.
use linux.Prelude.{ℕ, ◌+◌, ◌≡◌, refl, arith, ℤ, pos}
use linux.Prelude.Outcome.{Outcome, ok}
use linux.Disk.{find_first_zero, find_zone, take_zone, new_block}
use linux.Bmap.{keep_zone, make_zone, direct, bmap, create_disk_block}
use linux.Bmap.Example.{file, file-IsTree, file-IsReadable}
use linux.FileDev.{
  OpenFile, copy_bytes, read_regular, store_block, write_part, write_loop, write_result, file_write,
}
use linux.FileDev.Read.{Reads, read_regular-Reads}
use linux.FileDev.Write.{Writes, file_write-Writes}
use linux.FileDev.Back.{ReadsBack, file_write-read_regular}

abbrev opened : OpenFile
opened = record { f_flags = 2; f_pos = 1022; volume = file }

abbrev letters : ℕ → ℕ
letters a = 60 + a

-- Bytes 1022 to 1026, the last three in a new block
result : Outcome (ℤ × OpenFile) → ℤ × ℕ × ℕ
result (ok (n, f)) = (n, f.f_pos, f.volume.inode.i_size)
result r = (pos 0, 0, 0)

written : result (file_write 9 5 5 letters opened) ≡ (pos 5, 1027, 1027)
unfolding result file_write write_loop write_part store_block write_result copy_bytes
    create_disk_block bmap direct make_zone keep_zone new_block take_zone find_zone find_first_zero
written = refl

read_regular-Reads_example : Reads 9 2 30 letters opened (read_regular 9 30 7 letters opened)
read_regular-Reads_example =
    read_regular-Reads 9 30 7 letters opened (omega arith) file-IsTree file-IsReadable

file_write-Writes_example : Writes 5 5 letters opened (file_write 9 5 5 letters opened)
file_write-Writes_example =
    file_write-Writes 9 5 5 letters opened (omega arith) file-IsTree file-IsReadable

file_write-read_regular_example :
    ReadsBack 9 30 5 (λ a. 0) letters opened 5 (file_write 9 5 5 letters opened)
file_write-read_regular_example =
    file_write-read_regular 9 5 5 9 30 letters (λ a. 0) opened (omega arith) (omega arith)
      file-IsTree file-IsReadable
