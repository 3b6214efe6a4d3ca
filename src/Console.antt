-- ===== src/Console.antt =====
-- kernel/chr_drv/console.c: the screen of the console, and the escape sequences that `con_write`
-- obeys.
-- Addresses are those of bytes; `cell a` is the 16-bit word at the even address a. `rep stosw` and
-- `rep movsl` are closed forms: each copy goes in the direction that reads a word before it is
-- overwritten. The characters are bytes, and `char` is signed: those from 128 on are not printed.
-- What goes to the video ports, `set_origin` and `set_cursor`, and `sysbeep` are left out. `answer`
-- is what `respond` puts in the read queue; the parameters of a sequence are counted down in place,
-- and read no more before the next one clears them.
pub mod Erase
pub mod Scroll
pub mod Edit
pub mod Control
pub mod Valid
pub mod Write
pub mod Init
mod Tests
use linux.Prelude.{
  ℕ, zero, suc, ◌+◌, ◌-◌, ◌*◌, ◌/◌, ◌%◌, ◌^◌, List, [], ◌∷◌, ◌++◌, Bool, true, false, not, ◌&&◌,
  ◌||◌, ltb, leb, ◌==◌, if◌then◌else◌, get_or, set, replicate,
}

-- What `con_init` finds out about the display: `ega` is video_type being EGAC or EGAM.
pub record Video : Type 0 where
  pub ega : Bool
  pub columns : ℕ
  pub size_row : ℕ
  pub lines : ℕ
  pub mem_start : ℕ
  pub mem_end : ℕ
  pub erase_char : ℕ

pub record Console : Type 0 where
  pub origin : ℕ
  pub scr_end : ℕ
  pub pos : ℕ
  pub x : ℕ
  pub y : ℕ
  pub top : ℕ
  pub bottom : ℕ
  pub state : ℕ
  pub npar : ℕ
  pub par : List ℕ
  pub ques : Bool
  pub attr : ℕ
  pub saved_x : ℕ
  pub saved_y : ℕ
  pub answer : List ℕ
  pub cell : ℕ → ℕ

abbrev pub npar_max : ℕ
npar_max = 16

-- `unsigned` arithmetic
abbrev pub add_u : ℕ → ℕ → ℕ
add_u a b = (a + b) % 2 ^ 32

abbrev pub sub_u : ℕ → ℕ → ℕ
sub_u a b = (a + 2 ^ 32 - b) % 2 ^ 32

-- `*(unsigned short *) p = v`
abbrev pub store : ℕ → ℕ → (ℕ → ℕ) → ℕ → ℕ
store p v cell a = if a == p then v else cell a

-- `rep stosw` of n words from `start` on
pub fill_words : ℕ → ℕ → ℕ → (ℕ → ℕ) → ℕ → ℕ
fill_words v n start cell a = if leb start a && ltb a (start + 2 * n) then v else cell a

-- `rep movsl` of n double words
pub move_longs : ℕ → ℕ → ℕ → (ℕ → ℕ) → ℕ → ℕ
move_longs n dst src cell a =
    if leb dst a && ltb a (dst + 4 * n) then cell (a - dst + src) else cell a

pub gotoxy : Video → ℕ → ℕ → Console → Console
gotoxy v new_x new_y c =
    if ltb v.columns new_x || leb v.lines new_y
    then c
    else record c { x = new_x; y = new_y; pos = c.origin + new_y * v.size_row + 2 * new_x }

-- The lines of the region move up by one, and the last is erased.
pub move_up : Video → Console → Console
move_up v c =
    let n = (c.bottom - c.top - 1) * v.columns / 2 in
    let dst = c.origin + v.size_row * c.top in
    record c {
      cell =
          fill_words v.erase_char v.columns (dst + 4 * n)
            (move_longs n dst (c.origin + v.size_row * (c.top + 1)) c.cell);
    }

-- The whole screen moves a line further in the video memory, or back to its start.
pub scroll_origin : Video → Console → Console
scroll_origin v c =
    let origin = c.origin + v.size_row in
    let pos = c.pos + v.size_row in
    let scr_end = c.scr_end + v.size_row in
    let n = (v.lines - 1) * v.columns / 2 in
    if ltb v.mem_end scr_end
    then record c {
      origin = v.mem_start;
      pos = pos - (origin - v.mem_start);
      scr_end = scr_end - (origin - v.mem_start);
      cell =
          fill_words v.erase_char v.columns (v.mem_start + 4 * n)
            (move_longs n v.mem_start origin c.cell);
    }
    else record c {
      origin = origin;
      pos = pos;
      scr_end = scr_end;
      cell = fill_words v.erase_char v.columns (scr_end - v.size_row) c.cell;
    }

pub scrup : Video → Console → Console
scrup v c =
    if v.ega && (c.top == 0) && (c.bottom == v.lines) then scroll_origin v c else move_up v c

-- Both branches of `scrdown` are the same. The copy ends at the last byte of the region and goes
-- down; `stosw`, which goes down as well, erases the words below.
pub scrdown : Video → Console → Console
scrdown v c =
    let n = (c.bottom - c.top - 1) * v.columns / 2 in
    let last = c.origin + v.size_row * c.bottom in
    let last_src = c.origin + v.size_row * (c.bottom - 1) in
    record c {
      cell =
          fill_words v.erase_char v.columns (last - 4 * n - 2 * v.columns)
            (move_longs n (last - 4 * n) (last_src - 4 * n) c.cell);
    }

pub lf : Video → Console → Console
lf v c =
    if ltb (c.y + 1) c.bottom then record c { y = c.y + 1; pos = c.pos + v.size_row } else scrup v c

pub ri : Video → Console → Console
ri v c = if ltb c.top c.y then record c { y = c.y - 1; pos = c.pos - v.size_row } else scrdown v c

pub cr : Console → Console
cr c = record c { pos = c.pos - 2 * c.x; x = 0 }

pub del : Video → Console → Console
del v c =
    if c.x == 0
    then c
    else record c { pos = c.pos - 2; x = c.x - 1; cell = store (c.pos - 2) v.erase_char c.cell }

abbrev pub erase : Video → ℕ → ℕ → Console → Console
erase v count start c = record c { cell = fill_words v.erase_char count start c.cell }

pub csi_J : Video → ℕ → Console → Console
csi_J v par c =
    if par == 0
    then erase v ((c.scr_end - c.pos) / 2) c.pos c
    else if par == 1
    then erase v ((c.pos - c.origin) / 2) c.origin c
    else if par == 2
    then erase v (v.columns * v.lines) c.origin c
    else c

pub csi_K : Video → ℕ → Console → Console
csi_K v par c =
    if par == 0
    then (if leb v.columns c.x then c else erase v (v.columns - c.x) c.pos c)
    else if par == 1
    then erase v (if ltb c.x v.columns then c.x else v.columns) (c.pos - 2 * c.x) c
    else if par == 2
    then erase v v.columns (c.pos - 2 * c.x) c
    else c
