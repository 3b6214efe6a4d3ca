-- ===== src/Console/Init.antt =====
-- `con_init`: the display that `setup.s` left word of.
use linux.Prelude.{
  ℕ, ◌+◌, ◌-◌, ◌*◌, ◌/◌, ◌%◌, List, [], ◌∷◌, Bool, false, not, ◌==◌, if◌then◌else◌, replicate,
}
use linux.Console.{Video, Console, store, gotoxy}

-- ORIG_VIDEO_COLS, ORIG_VIDEO_LINES, ORIG_VIDEO_MODE, ORIG_VIDEO_EGA_BX, ORIG_X, ORIG_Y
pub record Setup : Type 0 where
  pub cols : ℕ
  pub lines : ℕ
  pub mode : ℕ
  pub ega_bx : ℕ
  pub x : ℕ
  pub y : ℕ

abbrev pub has_ega : Setup → Bool
has_ega s = not (s.ega_bx % 256 == 0x10)

abbrev pub is_mono : Setup → Bool
is_mono s = s.mode == 7

unfoldable pub display : Setup → Video
display s = record {
  ega = has_ega s;
  columns = s.cols;
  size_row = s.cols * 2;
  lines = s.lines;
  mem_start = if is_mono s then 0xb0000 else 0xb8000;
  mem_end =
      if is_mono s
      then (if has_ega s then 0xb8000 else 0xb2000)
      else if has_ega s
      then 0xbc000
      else 0xba000;
  erase_char = 0x0720;
}

abbrev pub display_desc : Setup → List ℕ
display_desc s =
    if is_mono s
    then (if has_ega s then b'E' ∷ b'G' ∷ b'A' ∷ b'm' ∷ [] else b'*' ∷ b'M' ∷ b'D' ∷ b'A' ∷ [])
    else if has_ega s
    then b'E' ∷ b'G' ∷ b'A' ∷ b'c' ∷ []
    else b'*' ∷ b'C' ∷ b'G' ∷ b'A' ∷ []

-- The characters go to every other byte: the low byte of each word.
unfoldable pub write_desc : List ℕ → ℕ → (ℕ → ℕ) → ℕ → ℕ
write_desc [] p cell = cell
write_desc (c ∷ cs) p cell = write_desc cs (p + 2) (store p (cell p / 256 * 256 + c) cell)

-- The variables that are not set here are 0 by their initialisation, `attr` is 7.
unfoldable pub con_init : Setup → (ℕ → ℕ) → Console
con_init s cell =
    let v = display s in
    gotoxy v s.x s.y (record {
      origin = v.mem_start;
      scr_end = v.mem_start + v.lines * v.size_row;
      pos = 0;
      x = 0;
      y = 0;
      top = 0;
      bottom = v.lines;
      state = 0;
      npar = 0;
      par = replicate 16 0;
      ques = false;
      attr = 0x07;
      saved_x = 0;
      saved_y = 0;
      answer = [];
      cell = write_desc (display_desc s) (v.mem_start + v.size_row - 8) cell;
    })
