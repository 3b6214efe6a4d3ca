-- ===== src/Files.antt =====
-- fs/fcntl.c and `sys_close` of fs/open.c: the descriptors of a task and the table of open files.
-- `file_table[i]` is `file i`. `put` lists the inodes on which `iput` was called, the last first:
-- the work of `iput` itself is the inode table's.
pub mod Count
pub mod Calls
pub mod Dup
mod Tests
use linux.Prelude.{
  ℕ, zero, suc, ◌+◌, ◌-◌, ◌*◌, ◌/◌, ◌%◌, ◌^◌, List, [], ◌∷◌, Option, none, some, Bool, true, false,
  not, ◌&&◌, ◌||◌, ℤ, pos, negsuc, ltb, leb, ◌==◌, if◌then◌else◌, get_or, set,
}
use linux.Prelude.Outcome.{Outcome, ok, panicked, ◌>>=◌}
use linux.Prelude.Bits.{bit_not}
use Prim.Native.Nat.{bit_and, bit_or}
use linux.Task.{Task, nr_open, error, einval}

-- `struct file`
pub record File : Type 0 where
  pub mode : ℕ
  pub flags : ℕ
  pub count : ℕ
  pub inode : Option ℕ
  pub f_pos : ℤ

pub record Files : Type 0 where
  pub current : Task
  pub file : ℕ → File
  pub put : List (Option ℕ)

abbrev pub ebadf : ℕ
ebadf = 9

abbrev pub emfile : ℕ
emfile = 24

-- O_APPEND | O_NONBLOCK
abbrev pub flag_bits : ℕ
flag_bits = 0o6000

abbrev pub with_file : ℕ → File → (ℕ → File) → ℕ → File
with_file f v file g = if f == g then v else file g

-- `current->filp[fd]`
abbrev pub filp_at : Files → ℕ → Option ℕ
filp_at s fd = get_or s.current.filp fd none

abbrev pub set_filp : ℕ → Option ℕ → Files → Files
set_filp fd f s = record s { current = record (s.current) { filp = set s.current.filp fd f } }

-- `current->close_on_exec &= ~(1<<fd)`
abbrev pub keep_on_exec : ℕ → Files → Files
keep_on_exec fd s = record s {
  current = record (s.current) {
    close_on_exec = bit_and s.current.close_on_exec (bit_not 32 (2 ^ fd));
  };
}

abbrev pub set_count : ℕ → ℕ → Files → Files
set_count f n s = record s { file = with_file f (record (s.file f) { count = n }) s.file }

abbrev pub is_open : Option ℕ → Bool
is_open none = false
is_open (some f) = true

-- The first empty descriptor among the n from `arg` on, or the one behind them.
pub first_free : ℕ → ℕ → List (Option ℕ) → ℕ
first_free zero arg filp = arg
first_free (suc n) arg filp =
    let next = first_free n (suc arg) filp in if is_open (get_or filp arg none) then next else arg

-- `filp[arg] = filp[fd]` with one user more of the file f.
abbrev pub share_file : ℕ → ℕ → Files → ℤ × Files
share_file f arg s = if leb nr_open arg then (error emfile, s) else (
  pos arg,
  set_count f (((s.file f).count + 1) % 2 ^ 16) (set_filp arg (some f) (keep_on_exec arg s)),
)

abbrev pub dup_file : Option ℕ → ℕ → Files → ℤ × Files
dup_file none arg s = (error ebadf, s)
dup_file (some f) arg s =
    if leb nr_open arg
    then (error einval, s)
    else share_file f (first_free (nr_open - arg) arg s.current.filp) s

pub dupfd : ℕ → ℕ → Files → ℤ × Files
dupfd fd arg s = if leb nr_open fd then (error ebadf, s) else dup_file (filp_at s fd) arg s

-- `sys_close` behind the test of the descriptor, whose bit is cleared by now.
abbrev pub close_file : ℕ → Option ℕ → Files → Outcome (ℤ × Files)
close_file fd none s = ok (error einval, s)
close_file fd (some f) s =
    let s' = set_filp fd none s in
    let s'' = set_count f ((s.file f).count - 1) s' in
    if (s.file f).count == 0
    then panicked
    else if not ((s.file f).count == 1)
    then ok (pos 0, s'')
    else ok (pos 0, record s'' { put = (s.file f).inode ∷ s.put })

unfoldable pub sys_close : ℕ → Files → Outcome (ℤ × Files)
sys_close fd s =
    if leb nr_open fd
    then ok (error einval, s)
    else close_file fd (filp_at s fd) (keep_on_exec fd s)

pub sys_dup2 : ℕ → ℕ → Files → Outcome (ℤ × Files)
sys_dup2 oldfd newfd s = sys_close newfd s >>= λ (r, s'). ok (dupfd oldfd newfd s')

pub sys_dup : ℕ → Files → ℤ × Files
sys_dup fd s = dupfd fd 0 s

-- The commands of `sys_fcntl` on the open file f.
abbrev pub file_control : ℕ → ℕ → ℕ → Option ℕ → Files → ℤ × Files
file_control fd cmd arg none s = (error ebadf, s)
file_control fd cmd arg (some f) s =
    let t = s.current in
    let v = s.file f in
    if cmd == 0
    then dupfd fd arg s
    else if cmd == 1
    then (pos (t.close_on_exec / 2 ^ fd % 2), s)
    else if cmd == 2
    then (if arg % 2 == 1
        then (
          pos 0,
          record s { current = record t { close_on_exec = bit_or t.close_on_exec (2 ^ fd) } },
        )
        else (pos 0, keep_on_exec fd s))
    else if cmd == 3
    then (pos v.flags, s)
    else if cmd == 4
    then (
      pos 0,
      record s {
        file =
            with_file f
              (record v {
                flags = bit_or (bit_and v.flags (bit_not 16 flag_bits)) (bit_and arg flag_bits);
              })
              s.file;
      },
    )
    else (negsuc 0, s)

pub sys_fcntl : ℕ → ℕ → ℕ → Files → ℤ × Files
sys_fcntl fd cmd arg s =
    if leb nr_open fd then (error ebadf, s) else file_control fd cmd arg (filp_at s fd) s
