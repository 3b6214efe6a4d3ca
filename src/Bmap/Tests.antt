-- ===== src/Bmap/Tests.antt =====
-- The theorems at a file of one block.
use linux.Prelude.{ℕ, ◌≡◌, refl, Bool, true, false, arith}
use linux.Prelude.Outcome.{Outcome, ok}
use linux.Disk.{find_first_zero, find_zone, take_zone, new_block, free_block}
use linux.Bmap.{
  Volume, keep_zone, make_zone, keep_entry, make_entry, read_entry, table_entry, double_indirect,
  bmap, create_disk_block, free_ind, free_dind, free_direct, truncate,
}
use linux.Bmap.Example.{file, file-IsTree, file-IsReadable, file-IsUnheld}
use linux.Bmap.Number.{Creates, create_disk_block-Creates}
use linux.Bmap.Get.{FindsAsCreated, create_disk_block-get_disk_block}
use linux.Bmap.Empty.{Truncates, truncate-Truncates}

number : Outcome (ℕ × Volume) → ℕ
number (ok (n, v)) = n
number r = 0

-- Block 520 of the file takes two tables, 3 and 4, and itself is 6.
created : number (create_disk_block 9 520 file) ≡ 6
unfolding number create_disk_block bmap double_indirect make_zone keep_zone table_entry read_entry
    make_entry keep_entry new_block take_zone find_zone find_first_zero
created = refl

-- The bit of block 5, after
freed_bit : Outcome Volume → Bool
freed_bit (ok v) = v.disk.zmap 3
freed_bit r = true

emptied : freed_bit (truncate 9 file) ≡ false
unfolding freed_bit truncate free_direct free_ind free_dind free_block
emptied = refl

create_disk_block-Creates_example : Creates 520 file (create_disk_block 9 520 file)
create_disk_block-Creates_example =
    create_disk_block-Creates 9 520 file (omega arith) file-IsTree file-IsReadable

create_disk_block-get_disk_block_example : FindsAsCreated 520 file (create_disk_block 9 520 file)
create_disk_block-get_disk_block_example =
    create_disk_block-get_disk_block 9 520 file (omega arith) file-IsTree file-IsReadable

truncate-Truncates_example : Truncates 9 file (truncate 9 file)
truncate-Truncates_example =
    truncate-Truncates 9 file refl file-IsTree file-IsUnheld file-IsReadable file-IsReadable
