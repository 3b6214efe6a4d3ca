-- ===== src/Console/Valid.antt =====
-- When the screen is in order, and writes that stay in the video memory.
use linux.Prelude.{
  ℕ, suc, ◌+◌, ◌-◌, ◌*◌, ◌/◌, ◌%◌, ◌≤◌, ◌<◌, ◌≡◌, ◌∙◌, ap, sym, refl, Bool, true, ◌||◌, ltb, leb,
  length, arith,
}
use native.Mathlib.Nat.{mul-le-mul_right, suc-mul, mul_assoc, add-mul}
use linux.Console.{Video, Console, store, fill_words, move_longs}

-- A display with lines of whole double words, at least 8 columns, as `con_init` sets it up.
pub record IsDisplay (v : Video) : Type 0 where
  pub wide : 8 ≤ v.columns
  pub even : v.columns % 2 ≡ 0
  pub row : v.size_row ≡ 2 * v.columns
  pub some_line : 1 ≤ v.lines

-- The cursor is on the screen, `pos` is its address, the scrolling region is a part of the screen,
-- the screen is in the video memory, and the next parameter has a place.
pub record IsValid (v : Video) (c : Console) : Type 0 where
  pub in_lines : c.y < v.lines
  pub in_columns : c.x ≤ v.columns
  pub saved_in_lines : c.saved_y < v.lines
  pub saved_in_columns : c.saved_x ≤ v.columns
  pub region : c.top < c.bottom
  pub region_end : c.bottom ≤ v.lines
  pub at_cursor : c.pos ≡ c.origin + c.y * v.size_row + 2 * c.x
  pub start : v.mem_start ≤ c.origin
  pub screen : c.scr_end ≡ c.origin + v.lines * v.size_row
  pub end_of_memory : c.scr_end ≤ v.mem_end
  pub some_par : c.npar < 16
  pub pars : length c.par ≡ 16

-- Not an address of the video memory
abbrev pub is_outside : Video → ℕ → Bool
is_outside v a = ltb a v.mem_start || leb v.mem_end a

abbrev pub Outside : Video → (ℕ → ℕ) → (ℕ → ℕ) → Type 0
Outside v cell cell' = (a : ℕ) → is_outside v a ≡ true → cell' a ≡ cell a

-- What each step of the console does: the screen stays in order, and memory outside as it was.
pub record Keeps (v : Video) (c c' : Console) : Type 0 where
  pub valid : IsValid v c'
  pub outside : Outside v c.cell c'.cell

pub Outside-refl : (v : Video) (cell : ℕ → ℕ) → Outside v cell cell
Outside-refl v cell a h = refl

pub Outside-trans : (v : Video) (f g h : ℕ → ℕ) → Outside v f g → Outside v g h → Outside v f h
Outside-trans v f g h p q a o = q a o ∙ p a o

pub Outside-store :
    (v : Video) (p val : ℕ) (cell : ℕ → ℕ)
    → v.mem_start ≤ p
    → p < v.mem_end
    → Outside v cell (store p val cell)
Outside-store v p val cell h k a o = ground arith

pub Outside-fill :
    (v : Video) (val n start : ℕ) (cell : ℕ → ℕ)
    → v.mem_start ≤ start
    → start + 2 * n ≤ v.mem_end
    → Outside v cell (fill_words val n start cell)
unfolding fill_words
Outside-fill v val n start cell h k a o = ground arith

pub Outside-move :
    (v : Video) (n dst src : ℕ) (cell : ℕ → ℕ)
    → v.mem_start ≤ dst
    → dst + 4 * n ≤ v.mem_end
    → Outside v cell (move_longs n dst src cell)
unfolding move_longs
Outside-move v n dst src cell h k a o = ground arith

-- A line before another ends before it.
pub row_fits : (a b r : ℕ) → a < b → a * r + r ≤ b * r
row_fits a b r h =
    let p : suc a * r ≤ b * r = mul-le-mul_right r (omega arith) in
    let q = suc-mul a r in omega arith

pub rows_le : (a b r : ℕ) → a ≤ b → a * r ≤ b * r
rows_le a b r h = mul-le-mul_right r h

-- The bytes of k lines, counted in double words
pub longs : (v : Video) → IsDisplay v → (k : ℕ) → 4 * (k * v.columns / 2) ≡ k * v.size_row
longs v d k =
    let h = v.columns / 2 in
    let e : v.columns ≡ h * 2 = let p = d.even in omega arith in
    let p : k * v.columns ≡ k * h * 2 = ap (λ (t : ℕ). k * t) e ∙ sym (mul_assoc k h 2) in
    let r : v.size_row ≡ h * 4 = let q = d.row in omega arith in
    let q : k * v.size_row ≡ k * h * 4 = ap (λ (t : ℕ). k * t) r ∙ sym (mul_assoc k h 4) in
    omega arith

-- A region is its first lines, the lines that are copied and one more.
pub region_rows : (t b r : ℕ) → t < b → t * r + (b - t - 1) * r + r ≡ b * r
region_rows t b r h =
    let e : b ≡ suc (t + (b - t - 1)) = omega arith in
    let p : b * r ≡ suc (t + (b - t - 1)) * r = ap (λ (k : ℕ). k * r) e in
    let q = suc-mul (t + (b - t - 1)) r in let s = add-mul t (b - t - 1) r in omega arith

-- A step that leaves memory alone
pub Keeps-of_valid : (v : Video) (c c' : Console) → IsValid v c' → c'.cell ≡ c.cell → Keeps v c c'
Keeps-of_valid v c c' i e = record { valid = i; outside = λ a o. ap (λ (f : ℕ → ℕ). f a) e }

pub Keeps-refl : (v : Video) (c : Console) → IsValid v c → Keeps v c c
Keeps-refl v c i = Keeps-of_valid v c c i refl

pub Keeps-trans : (v : Video) (b c d : Console) → Keeps v b c → Keeps v c d → Keeps v b d
Keeps-trans v b c d k l = record {
  valid = l.valid;
  outside = Outside-trans v b.cell c.cell d.cell k.outside l.outside;
}

-- A step that only writes to the video memory
pub Keeps-of_cell :
    (v : Video) (c : Console) (cell' : ℕ → ℕ)
    → IsValid v c
    → Outside v c.cell cell'
    → Keeps v c (record c { cell = cell' })
Keeps-of_cell v c cell' i o = record {
  valid = record {
    in_lines = i.in_lines;
    in_columns = i.in_columns;
    saved_in_lines = i.saved_in_lines;
    saved_in_columns = i.saved_in_columns;
    region = i.region;
    region_end = i.region_end;
    at_cursor = i.at_cursor;
    start = i.start;
    screen = i.screen;
    end_of_memory = i.end_of_memory;
    some_par = i.some_par;
    pars = i.pars;
  };
  outside = o;
}

-- The cursor is at another place of the screen.
pub Keeps-of_cursor :
    (v : Video) (c : Console) (x y pos : ℕ)
    → IsValid v c
    → x ≤ v.columns
    → y < v.lines
    → pos ≡ c.origin + y * v.size_row + 2 * x
    → Keeps v c (record c { x = x; y = y; pos = pos })
Keeps-of_cursor v c x y pos i h k e = record {
  valid = record {
    in_lines = k;
    in_columns = h;
    saved_in_lines = i.saved_in_lines;
    saved_in_columns = i.saved_in_columns;
    region = i.region;
    region_end = i.region_end;
    at_cursor = e;
    start = i.start;
    screen = i.screen;
    end_of_memory = i.end_of_memory;
    some_par = i.some_par;
    pars = i.pars;
  };
  outside = λ a o. refl;
}

-- The screen is at another place of the video memory, with the cursor on it.
pub Keeps-of_origin :
    (v : Video) (c : Console) (origin pos scr_end : ℕ) (cell' : ℕ → ℕ)
    → IsValid v c
    → v.mem_start ≤ origin
    → scr_end ≤ v.mem_end
    → scr_end ≡ origin + v.lines * v.size_row
    → pos ≡ origin + c.y * v.size_row + 2 * c.x
    → Outside v c.cell cell'
    → Keeps v c (record c { origin = origin; pos = pos; scr_end = scr_end; cell = cell' })
Keeps-of_origin v c origin pos scr_end cell' i h k e p o = record {
  valid = record {
    in_lines = i.in_lines;
    in_columns = i.in_columns;
    saved_in_lines = i.saved_in_lines;
    saved_in_columns = i.saved_in_columns;
    region = i.region;
    region_end = i.region_end;
    at_cursor = p;
    start = h;
    screen = e;
    end_of_memory = k;
    some_par = i.some_par;
    pars = i.pars;
  };
  outside = o;
}
