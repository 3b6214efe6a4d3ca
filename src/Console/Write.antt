-- ===== src/Console/Write.antt =====
-- `con_write` on any characters.
use linux.Prelude.{
  ℕ, ◌+◌, ◌-◌, ◌*◌, ◌%◌, ◌≤◌, ◌<◌, ◌≡◌, ◌∙◌, refl, List, [], ◌∷◌, Bool, true, false, ◌&&◌, ltb, leb,
  ◌==◌, if◌then◌else◌, length, length-set, set, replicate, arith, Bool-cases, inl, inr,
}
use linux.Console.{Video, Console, lf, scrup, scroll_origin, move_up, npar_max}
use linux.Console.Edit.{csi_m, save_cur, restore_cur}
use linux.Console.Control.{
  put_char, print_char, back_space, tab, plain, escape, set_region, is_move, target, move, edit,
  final, parameter, begin_parameters, write_char, con_write, less,
}
use linux.Console.Valid.{
  IsDisplay, IsValid, Outside-store, Keeps, Keeps-refl, Keeps-trans, Keeps-of_cell, Keeps-of_cursor,
  Keeps-of_valid,
}
use linux.Console.Scroll.{gotoxy-Keeps, lf-Keeps, ri-Keeps, cr-Keeps, del-Keeps, on_screen}
use linux.Console.Erase.{
  csi_J-Keeps, csi_K-Keeps, csi_at-Keeps, csi_L-Keeps, csi_P-Keeps, csi_M-Keeps, region-IsValid,
}

-- A step by one of two ways
either-Keeps :
    (v : Video) (b : Bool) (c x y : Console)
    → Keeps v c x
    → Keeps v c y
    → Keeps v c (if b then x else y)
either-Keeps v true c x y h k = h
either-Keeps v false c x y h k = k

-- The state of the escape sequence changes.
parse-IsValid :
    (v : Video) (c : Console) (state npar : ℕ) (par : List ℕ) (ques : Bool)
    → IsValid v c
    → npar < 16
    → length par ≡ 16
    → IsValid v (record c { state = state; npar = npar; par = par; ques = ques })
parse-IsValid v c state npar par ques i h k = record {
  in_lines = i.in_lines;
  in_columns = i.in_columns;
  saved_in_lines = i.saved_in_lines;
  saved_in_columns = i.saved_in_columns;
  region = i.region;
  region_end = i.region_end;
  at_cursor = i.at_cursor;
  start = i.start;
  screen = i.screen;
  end_of_memory = i.end_of_memory;
  some_par = h;
  pars = k;
}

state-IsValid :
    (v : Video) (c : Console) (state : ℕ) → IsValid v c → IsValid v (record c { state = state })
state-IsValid v c state i = parse-IsValid v c state c.npar c.par c.ques i i.some_par i.pars

state-Keeps :
    (v : Video) (c : Console) (state : ℕ) → IsValid v c → Keeps v c (record c { state = state })
state-Keeps v c state i = Keeps-of_valid v c _ (state-IsValid v c state i) refl

-- What follows a change of the state
after_state-Keeps :
    (v : Video) (c c' : Console) (state : ℕ)
    → IsValid v c
    → (IsValid v (record c { state = state }) → Keeps v (record c { state = state }) c')
    → Keeps v c c'
after_state-Keeps v c c' state i f =
    Keeps-trans v c _ c' (state-Keeps v c state i) (f (state-IsValid v c state i))

-- The saved cursor and the attributes
saved-IsValid :
    (v : Video) (c : Console) (attr : ℕ) (answer : List ℕ) (x y : ℕ)
    → IsValid v c
    → x ≤ v.columns
    → y < v.lines
    → IsValid v (record c { attr = attr; answer = answer; saved_x = x; saved_y = y })
saved-IsValid v c attr answer x y i h k = record {
  in_lines = i.in_lines;
  in_columns = i.in_columns;
  saved_in_lines = k;
  saved_in_columns = h;
  region = i.region;
  region_end = i.region_end;
  at_cursor = i.at_cursor;
  start = i.start;
  screen = i.screen;
  end_of_memory = i.end_of_memory;
  some_par = i.some_par;
  pars = i.pars;
}

module _ (v : Video) (d : IsDisplay v) where
  answer-Keeps :
      (c : Console) (answer : List ℕ) → IsValid v c → Keeps v c (record c { answer = answer })
  answer-Keeps c answer i =
      Keeps-of_valid v c _
        (saved-IsValid v c c.attr answer c.saved_x c.saved_y i i.saved_in_columns i.saved_in_lines)
        refl

  csi_m-Keeps : (c : Console) → IsValid v c → Keeps v c (csi_m c)
  unfolding csi_m
  csi_m-Keeps c i =
      Keeps-of_valid v c _
        (saved-IsValid v c _ c.answer c.saved_x c.saved_y i i.saved_in_columns i.saved_in_lines)
        refl

  save_cur-Keeps : (c : Console) → IsValid v c → Keeps v c (save_cur c)
  unfolding save_cur
  save_cur-Keeps c i =
      Keeps-of_valid v c _ (saved-IsValid v c c.attr c.answer c.x c.y i i.in_columns i.in_lines)
        refl

  restore_cur-Keeps : (c : Console) → IsValid v c → Keeps v c (restore_cur v c)
  unfolding restore_cur
  restore_cur-Keeps c i = gotoxy-Keeps v c.saved_x c.saved_y c i

  put_char-Keeps :
      (ch : ℕ) (c : Console) → IsValid v c → c.x < v.columns → Keeps v c (put_char ch c)
  put_char-Keeps ch c i h =
      let s = on_screen v d c i in
      let k =
        Keeps-of_cursor v c (c.x + 1) c.y (c.pos + 2) i (omega arith) i.in_lines (omega arith) in
      Keeps-trans v c _ _ k
        (Keeps-of_cell v _ _ k.valid (Outside-store v c.pos _ c.cell (omega arith) (omega arith)))

  lf_x : (c : Console) → (lf v c).x ≡ c.x
  unfolding lf scrup scroll_origin move_up
  lf_x c = ground arith

  -- Back to a column of the same line, and then a line down
  cursor_lf-Keeps :
      (c : Console) (x pos : ℕ)
      → IsValid v c
      → x ≤ v.columns
      → pos ≡ c.origin + c.y * v.size_row + 2 * x
      → Keeps v c (lf v (record c { x = x; pos = pos }))
  cursor_lf-Keeps c x pos i h e =
      let k = Keeps-of_cursor v c x c.y pos i h i.in_lines e in
      Keeps-trans v c _ _ k (lf-Keeps v d (record c { x = x; pos = pos }) k.valid)

  print_char-Keeps : (ch : ℕ) (c : Console) → IsValid v c → Keeps v c (print_char v ch c)
  unfolding print_char
  print_char-Keeps ch c i = elim (Bool-cases (leb v.columns c.x)) [
    | inl e ↦
        let r = d.row in
        let w : v.columns ≤ c.x = ground arith in
        let k =
          cursor_lf-Keeps c (c.x - v.columns) (c.pos - v.size_row) i (omega arith) (omega arith) in
        let x = lf_x (record c { x = c.x - v.columns; pos = c.pos - v.size_row }) in
        let g = d.wide in rw e (Keeps-trans v c _ _ k (put_char-Keeps ch _ k.valid (omega arith)))
    | inr e ↦ rw e (put_char-Keeps ch c i (ground arith))
  ]

  back_space-Keeps : (c : Console) → IsValid v c → Keeps v c (back_space c)
  unfolding back_space
  back_space-Keeps c i = elim (Bool-cases (c.x == 0)) [
    | inl e ↦ rw e (Keeps-refl v c i)
    | inr e ↦
        let w : 1 ≤ c.x = ground arith in
        rw e
          (Keeps-of_cursor v c (c.x - 1) c.y (c.pos - 2) i (omega arith) i.in_lines (omega arith))
  ]

  tab-Keeps : (c : Console) → IsValid v c → Keeps v c (tab v c)
  unfolding tab
  tab-Keeps c i =
      let (r, g) : (v.size_row ≡ 2 * v.columns) × (8 ≤ v.columns) = (d.row, d.wide) in
      elim (Bool-cases (ltb v.columns (c.x + (8 - c.x % 8)))) [
        | inl e ↦
            let w : v.columns < c.x + (8 - c.x % 8) = ground arith in
            rw e
              (cursor_lf-Keeps c (c.x + (8 - c.x % 8) - v.columns) _ i (omega arith) (omega arith))
        | inr e ↦ rw e (Keeps-of_cursor v c _ c.y _ i (ground arith) i.in_lines (omega arith))
      ]

  plain-Keeps : (erase_key ch : ℕ) (c : Console) → IsValid v c → Keeps v c (plain v erase_key ch c)
  unfolding plain
  plain-Keeps erase_key ch c i =
      let either = either-Keeps v in
      either _ c _ _ (print_char-Keeps ch c i) (
        either _ c _ _ (state-Keeps v c 1 i) (
          either _ c _ _ (lf-Keeps v d c i) (
            either _ c _ _ (cr-Keeps v d c i) (
              either _ c _ _ (del-Keeps v d c i) (
                either _ c _ _ (back_space-Keeps c i)
                  (either _ c _ _ (tab-Keeps c i) (Keeps-refl v c i)))))))

  escape-Keeps : (ch : ℕ) (c : Console) → IsValid v c → Keeps v c (escape v ch c)
  unfolding escape
  escape-Keeps ch c i = after_state-Keeps v c _ 0 i (λ j.
      let either = either-Keeps v in
      let c₀ = record c { state = 0 } in
      either _ c₀ _ _ (state-Keeps v c₀ 2 j) (
        either _ c₀ _ _ (gotoxy-Keeps v 0 _ c₀ j) (
          either _ c₀ _ _ (ri-Keeps v d c₀ j) (
            either _ c₀ _ _ (lf-Keeps v d c₀ j) (
              either _ c₀ _ _ (answer-Keeps c₀ _ j) (
                either _ c₀ _ _ (save_cur-Keeps c₀ j)
                  (either _ c₀ _ _ (restore_cur-Keeps c₀ j) (Keeps-refl v c₀ j))))))))

  set_region-Keeps : (p q : ℕ) (c : Console) → IsValid v c → Keeps v c (set_region v p q c)
  set_region-Keeps p q c i =
      let bottom = if q == 0 then v.lines else q in
      elim (Bool-cases (ltb (less p) bottom && leb bottom v.lines)) [
        | inl e ↦ rw e (
            Keeps-of_valid v c _
              (region-IsValid v c (less p) bottom i (ground arith) (ground arith)) refl)
        | inr e ↦ rw e (Keeps-refl v c i)
      ]

  move-Keeps : (ch p q : ℕ) (c : Console) → IsValid v c → Keeps v c (move v ch p q c)
  unfolding move
  move-Keeps ch p q c i = gotoxy-Keeps v (target ch p q c).0 (target ch p q c).1 c i

  edit-Keeps : (ch p q : ℕ) (c : Console) → IsValid v c → Keeps v c (edit v ch p q c)
  unfolding edit
  edit-Keeps ch p q c i =
      let either = either-Keeps v in
      either _ c _ _ (csi_J-Keeps v d p c i) (
        either _ c _ _ (csi_K-Keeps v d p c i) (
          either _ c _ _ (csi_L-Keeps v d p c i) (
            either _ c _ _ (csi_M-Keeps v d p c i) (
              either _ c _ _ (csi_P-Keeps v d p c i) (
                either _ c _ _ (csi_at-Keeps v d p c i) (
                  either _ c _ _ (csi_m-Keeps c i) (
                    either _ c _ _ (set_region-Keeps p q c i) (
                      either _ c _ _ (save_cur-Keeps c i)
                        (either _ c _ _ (restore_cur-Keeps c i) (Keeps-refl v c i))))))))))

  final-Keeps : (ch : ℕ) (c : Console) → IsValid v c → Keeps v c (final v ch c)
  unfolding final
  final-Keeps ch c i = after_state-Keeps v c _ 0 i (λ j.
      either-Keeps v (is_move ch) (record c { state = 0 }) _ _ (move-Keeps ch _ _ _ j)
        (edit-Keeps ch _ _ _ j))

  parameter-Keeps : (ch : ℕ) (c : Console) → IsValid v c → Keeps v c (parameter v ch c)
  unfolding parameter
  parameter-Keeps ch c i = elim (Bool-cases ((ch == b';') && ltb c.npar 15)) [
    | inl e ↦ rw e (
        Keeps-of_valid v c _
          (parse-IsValid v c c.state (c.npar + 1) c.par c.ques i (ground arith) i.pars) refl)
    | inr e ↦ rw e (
        either-Keeps v _ c _ _
          (Keeps-of_valid v c _
            (parse-IsValid v c c.state c.npar (set c.par c.npar _) c.ques i i.some_par
              (length-set c.par c.npar _ ∙ i.pars))
            refl)
          (after_state-Keeps v c _ 4 i (λ j. final-Keeps ch _ j)))
  ]

  begin_parameters-Keeps :
      (ch : ℕ) (c : Console) → IsValid v c → Keeps v c (begin_parameters v ch c)
  unfolding begin_parameters
  begin_parameters-Keeps ch c i =
      let c' : Console = record c {
        par = replicate npar_max 0;
        npar = 0;
        state = 3;
        ques = ch == b'?';
      } in
      let k =
        Keeps-of_valid v c c'
          (parse-IsValid v c 3 0 (replicate npar_max 0) (ch == b'?') i (omega arith) refl) refl in
      either-Keeps v _ c _ _ k (Keeps-trans v c c' _ k (parameter-Keeps ch c' k.valid))

  write_char-Keeps :
      (erase_key ch : ℕ) (c : Console) → IsValid v c → Keeps v c (write_char v erase_key ch c)
  unfolding write_char
  write_char-Keeps erase_key ch c i =
      let either = either-Keeps v in
      either _ c _ _ (plain-Keeps erase_key ch c i) (
        either _ c _ _ (escape-Keeps ch c i) (
          either _ c _ _ (begin_parameters-Keeps ch c i) (
            either _ c _ _ (parameter-Keeps ch c i)
              (either _ c _ _ (final-Keeps ch c i) (Keeps-refl v c i)))))

  -- Whatever characters are written to a screen that is in order, it stays in order, with the cursor
  -- on it and `pos` the cursor's address, and no word outside the video memory changes.
  pub con_write-Keeps :
      (erase_key : ℕ) (chs : List ℕ) (c : Console)
      → IsValid v c
      → Keeps v c (con_write v erase_key chs c)
  unfolding con_write
  con_write-Keeps erase_key [] c i = Keeps-refl v c i
  con_write-Keeps erase_key (ch ∷ chs) c i =
      let k = write_char-Keeps erase_key ch c i in
      Keeps-trans v c _ _ k (con_write-Keeps erase_key chs (write_char v erase_key ch c) k.valid)
