-- ===== src/Blk/Tests.antt =====
-- A disk with three requests, and the theorems there.
use linux.Prelude.{
  ℕ, ◌≡◌, ◌⊎◌, refl, List, [], ◌∷◌, none, some, true, false, pos, negsuc, ◌==◌, if◌then◌else◌,
}
use linux.Blk.{
  Request, Disk, Made, returned, in_order, insert_behind, add_request, find_free, queue_request,
  make_request, ll_rw_block, blk_dev_init,
}
use linux.Blk.Elevator.{Ordered, add_request-Ordered}
use linux.Blk.Slot.{Queued, queue_request-Queued}

abbrev at : ℕ → Request
at sector = record {
  dev = pos 0x301;
  cmd = 0;
  errors = 0;
  sector = sector;
  nr_sectors = 2;
  waiting = none;
  bh = some 0;
}

abbrev free_slot : Request
free_slot = record {
  dev = negsuc 0;
  cmd = 0;
  errors = 0;
  sector = 0;
  nr_sectors = 0;
  waiting = none;
  bh = none;
}

-- Slots 0 to 3 ask for the sectors 50, 80, 20 and 60; the last is not queued yet.
abbrev slots : ℕ → Request
slots i =
    if i == 0
    then at 50
    else if i == 1
    then at 80
    else if i == 2
    then at 20
    else if i == 3
    then at 60
    else free_slot

abbrev disk : Disk
disk = record {
  request = slots;
  queue = λ i. if i == 3 then 0 ∷ 1 ∷ 2 ∷ [] else [];
  buffer = λ b. record {
    blocknr = 30;
    dev = 0x301;
    uptodate = false;
    dirt = false;
    count = 1;
    lock = false;
  };
}

in_the_middle : (add_request (λ d. d) 3 3 disk).queue 3 ≡ 0 ∷ 3 ∷ 1 ∷ 2 ∷ []
unfolding add_request insert_behind in_order
in_the_middle = refl

add_request-Ordered_example :
    let d' = add_request (λ d. d) 3 3 disk in
    ((rest' : List ℕ) × (d'.queue 3 ≡ 0 ∷ rest') × Ordered disk.request 3 0 (1 ∷ 2 ∷ []) rest')
    × ((other : ℕ) → (d'.queue other ≡ disk.queue other) ⊎ (3 ≡ other))
    × (d'.request ≡ disk.request)
unfolding in_order
add_request-Ordered_example =
    add_request-Ordered (λ d. d) 3 3 disk 0 (1 ∷ 2 ∷ []) refl (refl, (refl, (refl, tt)))

queue_request-Queued_example :
    Queued (λ d. d) 3 1 false 7 disk 21 (queue_request (λ d. d) 3 1 false 7 disk)
queue_request-Queued_example = queue_request-Queued (λ d. d) 3 1 false 7 disk

-- A read takes the last slot, and the only request starts the device.
abbrev idle : Disk
idle = record disk { queue = λ i. [] }

reads_ahead : Made → List ℕ
reads_ahead (returned d) = d.queue 3
reads_ahead m = []

read_takes_last : reads_ahead (ll_rw_block (λ major. some (λ d. d)) 2 0 idle) ≡ 31 ∷ []
unfolding reads_ahead ll_rw_block make_request queue_request find_free add_request
read_takes_last = refl

write_takes_low :
    reads_ahead (
      ll_rw_block
        (λ major. some (λ d. d))
        1
        0
        (record idle { buffer = λ b. record (disk.buffer b) { dirt = true } }))
    ≡ 20 ∷ []
unfolding reads_ahead ll_rw_block make_request queue_request find_free add_request
write_takes_low = refl

all_free : find_free (blk_dev_init disk).request 32 ≡ some 31
unfolding blk_dev_init find_free
all_free = refl
