-- ===== src/Disk/Tests.antt =====
-- A device with 17 zones, and the theorem there.
use linux.Prelude.{ℕ, ◌≡◌, refl, true, ltb, arith}
use linux.Prelude.Outcome.{Outcome, ok, panicked}
use linux.Disk.{Disk, find_first_zero, find_zone, take_zone, new_block, free_block}
use linux.Disk.New.{IsNew, new_block-IsNew}

-- Zones 3 to 19, of which those before 8 are in use
abbrev disk : Disk
disk = record {
  s_nzones = 20;
  s_firstdatazone = 3;
  s_zmap_blocks = 1;
  zmap = λ k. ltb k 6;
  bytes = λ b o. 7;
  stored = λ b o. 0;
  readable = λ b. true;
  reads = λ b. true;
  held = λ b. 0;
}

number : Outcome (ℕ × Disk) → ℕ
number (ok (n, d)) = n
number r = 0

taken : number (new_block disk) ≡ 8
unfolding number new_block take_zone find_zone find_first_zero
taken = refl

-- A zone that is free cannot be freed.
twice : free_block 9 disk ≡ panicked
unfolding free_block
twice = refl

new_block-IsNew_example : IsNew disk (new_block disk)
new_block-IsNew_example =
    new_block-IsNew disk
      (record {
        first_bit = refl;
        positive = omega arith;
        few = omega arith;
        covered = omega arith;
        maps = omega arith;
      })
      (λ b f. refl)
