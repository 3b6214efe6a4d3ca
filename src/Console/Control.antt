-- ===== src/Console/Control.antt =====
-- `con_write`: the characters one by one, through the states of an escape sequence.
use linux.Prelude.{
  ℕ, ◌+◌, ◌-◌, ◌*◌, ◌%◌, ◌^◌, List, [], ◌∷◌, ◌++◌, Bool, ◌&&◌, ◌||◌, ltb, leb, ◌==◌, if◌then◌else◌,
  get_or, set, replicate,
}
use linux.Console.{
  Video, Console, npar_max, add_u, sub_u, store, gotoxy, lf, ri, cr, del, csi_J, csi_K,
}
use linux.Console.Edit.{csi_m, csi_at, csi_L, csi_P, csi_M, save_cur, restore_cur}

-- Behind the last column: back to the first of the next line.
abbrev pub wrap : Video → Console → Console
wrap v c = lf v (record c { x = c.x - v.columns; pos = c.pos - v.size_row })

abbrev pub put_char : ℕ → Console → Console
put_char ch c = record c {
  cell = store c.pos (256 * c.attr + ch) c.cell;
  pos = c.pos + 2;
  x = c.x + 1;
}

-- `case 0` of a printable character
unfoldable pub print_char : Video → ℕ → Console → Console
print_char v ch c = put_char ch (if leb v.columns c.x then wrap v c else c)

-- `c==8`, one to the left; `c==9`, to the next multiple of 8
unfoldable pub back_space : Console → Console
back_space c = if c.x == 0 then c else record c { x = c.x - 1; pos = c.pos - 2 }

unfoldable pub tab : Video → Console → Console
tab v c =
    let n = 8 - c.x % 8 in
    let c' = record c { x = c.x + n; pos = c.pos + 2 * n } in
    if ltb v.columns (c.x + n) then wrap v c' else c'

-- `case 0`; `erase_key` is ERASE_CHAR(tty).
unfoldable pub plain : Video → ℕ → ℕ → Console → Console
plain v erase_key ch c =
    if ltb 31 ch && ltb ch 127
    then print_char v ch c
    else if ch == 27
    then record c { state = 1 }
    else if ch == 10 || ch == 11 || ch == 12
    then lf v c
    else if ch == 13
    then cr c
    else if (ch == erase_key) && ltb ch 128
    then del v c
    else if ch == 8
    then back_space c
    else if ch == 9
    then tab v c
    else c

-- RESPONSE
abbrev pub response : List ℕ
response = 0o33 ∷ b'[' ∷ b'?' ∷ b'1' ∷ b';' ∷ b'2' ∷ b'c' ∷ []

-- `case 1`; the last two tests are of the column, as in the code.
unfoldable pub escape : Video → ℕ → Console → Console
escape v ch c' =
    let c = record c' { state = 0 } in
    if ch == b'['
    then record c { state = 2 }
    else if ch == b'E'
    then gotoxy v 0 (add_u c.y 1) c
    else if ch == b'M'
    then ri v c
    else if ch == b'D'
    then lf v c
    else if ch == b'Z'
    then record c { answer = c.answer ++ response }
    else if c.x == b'7'
    then save_cur c
    else if c.x == b'8'
    then restore_cur v c
    else c

-- `if (par) par--;`, `if (!par) par++;`
abbrev pub less : ℕ → ℕ
less p = if p == 0 then 0 else p - 1

abbrev pub least : ℕ → ℕ
least p = if p == 0 then 1 else p

-- 'r', the scrolling region
abbrev pub set_region : Video → ℕ → ℕ → Console → Console
set_region v p q c =
    let q' = if q == 0 then v.lines else q in
    if ltb (less p) q' && leb q' v.lines then record c { top = less p; bottom = q' } else c

-- The letters that move the cursor; nothing else is done then.
abbrev pub is_move : ℕ → Bool
is_move ch =
    ch == b'G'
    || ch == b'`'
    || ch == b'A'
    || ch == b'B'
    || ch == b'e'
    || ch == b'C'
    || ch == b'a'
    || ch == b'D'
    || ch == b'E'
    || ch == b'F'
    || ch == b'd'
    || ch == b'H'
    || ch == b'f'

-- Where they move it, x and y
abbrev pub target : ℕ → ℕ → ℕ → Console → ℕ × ℕ
target ch p q c =
    if ch == b'G' || ch == b'`'
    then (less p, c.y)
    else if ch == b'A'
    then (c.x, sub_u c.y (least p))
    else if ch == b'B' || ch == b'e'
    then (c.x, add_u c.y (least p))
    else if ch == b'C' || ch == b'a'
    then (add_u c.x (least p), c.y)
    else if ch == b'D'
    then (sub_u c.x (least p), c.y)
    else if ch == b'E'
    then (0, add_u c.y (least p))
    else if ch == b'F'
    then (0, sub_u c.y (least p))
    else if ch == b'd'
    then (c.x, less p)
    else (less q, less p)

unfoldable pub move : Video → ℕ → ℕ → ℕ → Console → Console
move v ch p q c = let (x, y) = target ch p q c in gotoxy v x y c

-- The other letters
unfoldable pub edit : Video → ℕ → ℕ → ℕ → Console → Console
edit v ch p q c =
    if ch == b'J'
    then csi_J v p c
    else if ch == b'K'
    then csi_K v p c
    else if ch == b'L'
    then csi_L v p c
    else if ch == b'M'
    then csi_M v p c
    else if ch == b'P'
    then csi_P v p c
    else if ch == b'@'
    then csi_at v p c
    else if ch == b'm'
    then csi_m c
    else if ch == b'r'
    then set_region v p q c
    else if ch == b's'
    then save_cur c
    else if ch == b'u'
    then restore_cur v c
    else c

-- `case 4`
unfoldable pub final : Video → ℕ → Console → Console
final v ch c' =
    let c = record c' { state = 0 } in
    let p = get_or c.par 0 0 in
    let q = get_or c.par 1 0 in if is_move ch then move v ch p q c else edit v ch p q c

-- `case 3`
unfoldable pub parameter : Video → ℕ → Console → Console
parameter v ch c =
    if (ch == b';') && ltb c.npar (npar_max - 1)
    then record c { npar = c.npar + 1 }
    else if leb b'0' ch && leb ch b'9'
    then record c { par = set c.par c.npar ((10 * get_or c.par c.npar 0 + ch - b'0') % 2 ^ 32) }
    else final v ch (record c { state = 4 })

-- `case 2`
unfoldable pub begin_parameters : Video → ℕ → Console → Console
begin_parameters v ch c =
    let c' = record c { par = replicate npar_max 0; npar = 0; state = 3; ques = ch == b'?' } in
    if ch == b'?' then c' else parameter v ch c'

unfoldable pub write_char : Video → ℕ → ℕ → Console → Console
write_char v erase_key ch c =
    if c.state == 0
    then plain v erase_key ch c
    else if c.state == 1
    then escape v ch c
    else if c.state == 2
    then begin_parameters v ch c
    else if c.state == 3
    then parameter v ch c
    else if c.state == 4
    then final v ch c
    else c

-- All of `tty->write_q`
unfoldable pub con_write : Video → ℕ → List ℕ → Console → Console
con_write v erase_key [] c = c
con_write v erase_key (ch ∷ chs) c = con_write v erase_key chs (write_char v erase_key ch c)
