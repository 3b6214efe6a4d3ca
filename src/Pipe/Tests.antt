-- ===== src/Pipe/Tests.antt =====
-- A fresh pipe, one near the end of its page, and the theorems there.
use linux.Prelude.{
  ℕ, ◌≡◌, ◌≤◌, ◌-◌, refl, [], ◌∷◌, List, length, replicate, length-replicate, arith,
}
use linux.Pipe.{Pipe, empty_pipe, read_pipe, write_pipe, page_size}
use linux.Pipe.Ring.{contents, IsValid}
use linux.Pipe.Read.{Reads, read_pipe-Reads}
use linux.Pipe.Write.{Writes, write_pipe-Writes}
use linux.Pipe.Stream.{Traffic, Call, reads, writes, ends, calls, IsStream, calls-IsStream}

zeros : List ℕ
zeros = replicate page_size 0

length-zeros : length zeros ≡ page_size
unfolding zeros
length-zeros = length-replicate {A = ℕ} page_size 0

-- empty, with both indices two bytes before the end of the page
abbrev pipe : Pipe
pipe = record (empty_pipe zeros) { head = 4094; tail = 4094 }

abbrev traffic : Traffic
traffic = record { pipe = pipe; sent = []; got = [] }

pipe-IsValid : IsValid pipe
pipe-IsValid = record { full_page = length-zeros; head_in = omega arith; tail_in = omega arith }

traffic-IsStream : IsStream traffic
traffic-IsStream = record { valid = pipe-IsValid; flows = refl }

-- three bytes go round the end of the page; the writer leaves; the reader takes two, then the rest
abbrev script : List Call
script = writes (7 ∷ 8 ∷ 9 ∷ []) ∷ ends 1 ∷ reads 2 ∷ reads 5 ∷ []

read_pipe-Reads_example : Reads pipe 3 [] (read_pipe 4 pipe 3 [])
read_pipe-Reads_example = read_pipe-Reads 4 pipe 3 [] pipe-IsValid (omega arith)

write_pipe-Writes_example : Writes pipe (7 ∷ 8 ∷ 9 ∷ []) 0 (write_pipe 4 pipe (7 ∷ 8 ∷ 9 ∷ []) 0)
write_pipe-Writes_example = write_pipe-Writes 4 pipe (7 ∷ 8 ∷ 9 ∷ []) 0 pipe-IsValid (omega arith)

calls-IsStream_example :
    IsStream (calls script traffic)
    × (length (contents (calls script traffic).pipe) ≤ page_size - 1)
calls-IsStream_example = calls-IsStream script traffic traffic-IsStream
