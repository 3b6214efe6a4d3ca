-- ===== src/Pipe.antt =====
-- fs/pipe.c: `read_pipe` and `write_pipe`, and the macros PIPE_HEAD, PIPE_TAIL and PIPE_SIZE of
-- include/linux/fs.h. A call runs until it returns or sleeps; a call that slept goes on with what
-- it then held, on the pipe that the others left. What passes through the user's buffer is a list
-- of bytes. The wake-ups of the other side are left out: who runs next is any interleaving of calls.
pub mod Ring
pub mod Read
pub mod Write
pub mod Stream
mod Tests
use linux.Prelude.{
  ℕ, zero, suc, ◌+◌, ◌-◌, ◌%◌, List, [], ◌∷◌, ◌++◌, Bool, not, ◌==◌, if◌then◌else◌, min, get_or,
  set, length, take, drop,
}

abbrev pub page_size : ℕ
page_size = 4096

-- The pipe's inode: its page, `i_zone[0]` and `i_zone[1]`, and its count of readers and writers.
pub record Pipe : Type 0 where
  pub buf : List ℕ
  pub head : ℕ
  pub tail : ℕ
  pub i_count : ℕ

-- `(head - tail) & (PAGE_SIZE-1)`; the sum keeps the difference of the two shorts from going below 0.
abbrev pub pipe_size : Pipe → ℕ
pipe_size p = (p.head + 65536 - p.tail) % page_size

-- `get_pipe_inode` on the page that it got
abbrev pub empty_pipe : List ℕ → Pipe
empty_pipe buf = record { buf = buf; head = 0; tail = 0; i_count = 2 }

-- How far a call gets. Both ends carry what has passed through the user's buffer so far.
pub data Progress : Type 0 where
  finished : List ℕ → Pipe → Progress
  sleeps : List ℕ → ℕ → Pipe → Progress
  out_of_fuel : Progress

-- `while (chars-->0) put_fs_byte(buf[size++], …)`
pub copy_out : List ℕ → ℕ → ℕ → List ℕ
copy_out buf i zero = []
copy_out buf i (suc n) = get_or buf i 0 ∷ copy_out buf (i + 1) n

-- `chars`: what stands up to the end of the page, no more than wanted, no more than there is.
abbrev pub chars : ℕ → ℕ → ℕ → ℕ
chars at count size = min (min (page_size - at) count) size

-- One round of `read_pipe` on a pipe with bytes: the bytes, and the pipe.
pub read_chunk : ℕ → Pipe → List ℕ × Pipe
read_chunk count p =
    let n = chars p.tail count (pipe_size p) in
    (copy_out p.buf p.tail n, record p { tail = (p.tail + n) % page_size })

pub read_pipe : ℕ → Pipe → ℕ → List ℕ → Progress
read_pipe zero p count done = out_of_fuel
read_pipe (suc fuel) p count done =
    let (bytes, p') = read_chunk count p in
    let rest = read_pipe fuel p' (count - length bytes) (done ++ bytes) in
    if count == 0
    then finished done p
    else if pipe_size p == 0
    then (if p.i_count == 2 then sleeps done count p else finished done p)
    else rest

-- How far a write gets: all written, no reader left (SIGPIPE is raised, and -1 returned if nothing
-- was written), or asleep. Each carries the number of bytes written, the last also what is left.
pub data Written : Type 0 where
  wrote : ℕ → Pipe → Written
  broken : ℕ → Pipe → Written
  waits : ℕ → List ℕ → Pipe → Written
  out_of_fuel : Written

-- `while (chars-->0) buf[size++] = get_fs_byte(…)`
pub copy_in : List ℕ → ℕ → List ℕ → List ℕ
copy_in buf i [] = buf
copy_in buf i (x ∷ xs) = copy_in (set buf i x) (i + 1) xs

-- What `write_pipe` has room for.
abbrev pub pipe_room : Pipe → ℕ
pipe_room p = page_size - 1 - pipe_size p

-- One round of `write_pipe` on a pipe with room: the number of bytes, and the pipe.
pub write_chunk : List ℕ → Pipe → ℕ × Pipe
write_chunk xs p =
    let n = chars p.head (length xs) (pipe_room p) in
    (n, record p { buf = copy_in p.buf p.head (take n xs); head = (p.head + n) % page_size })

pub write_pipe : ℕ → Pipe → List ℕ → ℕ → Written
write_pipe zero p xs written = out_of_fuel
write_pipe (suc fuel) p xs written =
    let (n, p') = write_chunk xs p in
    let rest = write_pipe fuel p' (drop n xs) (written + n) in
    if length xs == 0
    then wrote written p
    else if pipe_room p == 0
    then (if p.i_count == 2 then waits written xs p else broken written p)
    else rest
