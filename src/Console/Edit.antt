-- ===== src/Console/Edit.antt =====
-- Characters and lines inserted and deleted, attributes, the cursor saved.
use linux.Prelude.{ℕ, zero, suc, ◌+◌, ◌-◌, ◌*◌, List, ltb, leb, ◌==◌, if◌then◌else◌, get_or}
use linux.Console.{Video, Console, store, gotoxy, scrup, scrdown}

-- `while (nr--) f();`
unfoldable pub times : ℕ → (Console → Console) → Console → Console
times zero f c = c
times (suc n) f c = times n f (f c)

-- The switch of `csi_m` on one parameter
abbrev pub attribute : ℕ → ℕ → ℕ
attribute p attr =
    if p == 0
    then 0x07
    else if p == 1
    then 0x0f
    else if p == 4
    then 0x0f
    else if p == 7
    then 0x70
    else if p == 27
    then 0x07
    else attr

-- The first n parameters, in their order.
unfoldable pub attributes : ℕ → List ℕ → ℕ → ℕ
attributes zero par attr = attr
attributes (suc n) par attr = attribute (get_or par n 0) (attributes n par attr)

unfoldable pub csi_m : Console → Console
csi_m c = record c { attr = attributes (c.npar + 1) c.par c.attr }

-- n words from p on move a place up; the first becomes `old`.
unfoldable pub shift_in : ℕ → ℕ → ℕ → (ℕ → ℕ) → ℕ → ℕ
shift_in zero p old cell = cell
shift_in (suc n) p old cell = shift_in n (p + 2) (cell p) (store p old cell)

unfoldable pub insert_char : Video → Console → Console
insert_char v c = record c { cell = shift_in (v.columns - c.x) c.pos v.erase_char c.cell }

-- n words from p on become the ones behind them.
unfoldable pub pull_in : ℕ → ℕ → (ℕ → ℕ) → ℕ → ℕ
pull_in zero p cell = cell
pull_in (suc n) p cell = pull_in n (p + 2) (store p (cell (p + 2)) cell)

unfoldable pub delete_char : Video → Console → Console
delete_char v c =
    let n = v.columns - c.x - 1 in
    if leb v.columns c.x
    then c
    else record c { cell = store (c.pos + 2 * n) v.erase_char (pull_in n c.pos c.cell) }

-- A scroll of the lines from the cursor's on.
unfoldable pub insert_line : Video → Console → Console
insert_line v c =
    let c' = scrdown v (record c { top = c.y; bottom = v.lines }) in
    record c' { top = c.top; bottom = c.bottom }

unfoldable pub delete_line : Video → Console → Console
delete_line v c =
    let c' = scrup v (record c { top = c.y; bottom = v.lines }) in
    record c' { top = c.top; bottom = c.bottom }

-- How often a line or character is inserted or deleted, for a parameter.
abbrev pub clip : ℕ → ℕ → ℕ
clip most nr = if ltb most nr then most else if nr == 0 then 1 else nr

unfoldable pub csi_at : Video → ℕ → Console → Console
csi_at v nr c = times (clip v.columns nr) (insert_char v) c

unfoldable pub csi_L : Video → ℕ → Console → Console
csi_L v nr c = times (clip v.lines nr) (insert_line v) c

unfoldable pub csi_P : Video → ℕ → Console → Console
csi_P v nr c = times (clip v.columns nr) (delete_char v) c

unfoldable pub csi_M : Video → ℕ → Console → Console
csi_M v nr c = times (clip v.lines nr) (delete_line v) c

unfoldable pub save_cur : Console → Console
save_cur c = record c { saved_x = c.x; saved_y = c.y }

unfoldable pub restore_cur : Video → Console → Console
restore_cur v c = gotoxy v c.saved_x c.saved_y c
