-- ===== src/Blk.antt =====
-- kernel/blk_drv/ll_rw_blk.c: the requests to block devices, and the elevator that orders them.
-- A request is its slot in `request[]`, a buffer its slot in the buffer cache, a device its major
-- number; the chain from `current_request` over `next` is the list `queue` of slots. `buffer`, the
-- address of the buffer's data, goes with `bh`. What `request_fn` does to start the device is a
-- parameter, a function pointer in the source.
pub mod Elevator
pub mod Slot
mod Tests
use linux.Prelude.{
  ℕ, zero, suc, ◌+◌, ◌*◌, ◌/◌, ◌%◌, ◌^◌, List, [], ◌∷◌, Option, none, some, Bool, true, false, not,
  ◌&&◌, ◌||◌, ℤ, pos, negsuc, ltb_ℤ, eqb_ℤ, ltb, leb, ◌==◌, if◌then◌else◌,
}

-- `struct buffer_head`, less the links of the cache
pub record BufferHead : Type 0 where
  pub blocknr : ℕ
  pub dev : ℕ
  pub uptodate : Bool
  pub dirt : Bool
  pub count : ℕ
  pub lock : Bool

-- `struct blk_request`; the device is -1 if the slot is free.
pub record Request : Type 0 where
  pub dev : ℤ
  pub cmd : ℕ
  pub errors : ℕ
  pub sector : ℕ
  pub nr_sectors : ℕ
  pub waiting : Option ℕ
  pub bh : Option ℕ

pub record Disk : Type 0 where
  pub request : ℕ → Request
  pub queue : ℕ → List ℕ
  pub buffer : ℕ → BufferHead

abbrev pub nr_request : ℕ
nr_request = 32

abbrev pub nr_blk_dev : ℕ
nr_blk_dev = 7

-- READ, WRITE, READA, WRITEA
abbrev pub read : ℕ
read = 0

abbrev pub write : ℕ
write = 1

abbrev pub reada : ℕ
reada = 2

abbrev pub writea : ℕ
writea = 3

abbrev pub update {ℓ} : {A : Type ℓ} → ℕ → A → (ℕ → A) → ℕ → A
update i v f j = if i == j then v else f j

-- IN_ORDER
pub in_order : Request → Request → Bool
in_order s t =
    ltb s.cmd t.cmd
    || (s.cmd == t.cmd && (ltb_ℤ s.dev t.dev || (eqb_ℤ s.dev t.dev && ltb s.sector t.sector)))

-- The search of `add_request`, behind `tmp`: the slots that follow it afterwards.
pub insert_behind : (ℕ → Request) → ℕ → ℕ → List ℕ → List ℕ
insert_behind request req tmp [] = req ∷ []
insert_behind request req tmp (next ∷ rest) =
    let behind = insert_behind request req next rest in
    if (in_order (request tmp) (request req) || not (in_order (request tmp) (request next)))
      && in_order (request req) (request next)
    then req ∷ next ∷ rest
    else next ∷ behind

abbrev pub clean : Option ℕ → Disk → Disk
clean none d = d
clean (some b) d = record d { buffer = update b (record (d.buffer b) { dirt = false }) d.buffer }

-- The end of `add_request`: the device is started if nothing was queued.
abbrev pub link : (Disk → Disk) → ℕ → ℕ → List ℕ → Disk → Disk
link request_fn major req [] d = request_fn (record d { queue = update major (req ∷ []) d.queue })
link request_fn major req (tmp ∷ rest) d = record d {
  queue = update major (tmp ∷ insert_behind d.request req tmp rest) d.queue;
}

pub add_request : (Disk → Disk) → ℕ → ℕ → Disk → Disk
add_request request_fn major req d =
    link request_fn major req (d.queue major) (clean (d.request req).bh d)

abbrev pub lock_buffer : ℕ → Disk → Disk
lock_buffer b d = record d { buffer = update b (record (d.buffer b) { lock = true }) d.buffer }

abbrev pub unlock_buffer : ℕ → Disk → Disk
unlock_buffer b d = record d { buffer = update b (record (d.buffer b) { lock = false }) d.buffer }

-- `while (--req >= request) if (req->dev<0) break;` from slot n
pub find_free : (ℕ → Request) → ℕ → Option ℕ
find_free request zero = none
find_free request (suc n) =
    let lower = find_free request n in if ltb_ℤ (request n).dev (pos 0) then some n else lower

-- How far a call gets: it returns; it waits for the buffer to be unlocked, and then goes on as if
-- called again; it waits for a free slot, and then goes on with `queue_request`; or it panics.
pub data Made : Type 0 where
  returned : Disk → Made
  sleeps_on_buffer : Disk → Made
  sleeps_on_request : Disk → Made
  bad_command : Made

-- The request that is filled in for a buffer.
abbrev pub new_request : ℕ → ℕ → BufferHead → Request
new_request rw b bh = record {
  dev = pos bh.dev;
  cmd = rw;
  errors = 0;
  sector = bh.blocknr * 2 % 2 ^ 32;
  nr_sectors = 2;
  waiting = none;
  bh = some b;
}

abbrev pub slot_limit : ℕ → ℕ
slot_limit rw = if rw == read then nr_request else nr_request * 2 / 3

abbrev pub fill_slot : (Disk → Disk) → ℕ → ℕ → Bool → ℕ → Option ℕ → Disk → Made
fill_slot request_fn major rw rw_ahead b none d =
    if rw_ahead then returned (unlock_buffer b d) else sleeps_on_request d
fill_slot request_fn major rw rw_ahead b (some n) d = returned (
    add_request request_fn major n
      (record d { request = update n (new_request rw b (d.buffer b)) d.request }))

-- `make_request` from the label `repeat`; the buffer is locked.
pub queue_request : (Disk → Disk) → ℕ → ℕ → Bool → ℕ → Disk → Made
queue_request request_fn major rw rw_ahead b d =
    fill_slot request_fn major rw rw_ahead b (find_free d.request (slot_limit rw)) d

-- READA and WRITEA are READ and WRITE that do not wait.
abbrev pub plain : ℕ → ℕ
plain rw = if rw == reada then read else if rw == writea then write else rw

pub make_request : (Disk → Disk) → ℕ → ℕ → ℕ → Disk → Made
make_request request_fn major rw b d =
    let bh = d.buffer b in
    let rw_ahead = rw == reada || rw == writea in
    let rw' = plain rw in
    if rw_ahead && bh.lock
    then returned d
    else if not (rw' == read) && not (rw' == write)
    then bad_command
    else if bh.lock
    then sleeps_on_buffer d
    else if (rw' == write && not bh.dirt) || (rw' == read && bh.uptodate)
    then returned (unlock_buffer b (lock_buffer b d))
    else queue_request request_fn major rw' rw_ahead b (lock_buffer b d)

-- MAJOR
abbrev pub major_of : ℕ → ℕ
major_of dev = dev / 256

abbrev pub start_request : Option (Disk → Disk) → ℕ → ℕ → Disk → Made
start_request none rw b d = returned d
start_request (some request_fn) rw b d = make_request request_fn (major_of (d.buffer b).dev) rw b d

-- `blk_dev` gives each major number its `request_fn`, NULL for none.
pub ll_rw_block : (ℕ → Option (Disk → Disk)) → ℕ → ℕ → Disk → Made
ll_rw_block blk_dev rw b d =
    let major = major_of (d.buffer b).dev in
    if leb nr_blk_dev major then returned d else start_request (blk_dev major) rw b d

pub blk_dev_init : Disk → Disk
blk_dev_init d = record d {
  request = λ i. if ltb i nr_request then record (d.request i) { dev = negsuc 0 } else d.request i;
}
