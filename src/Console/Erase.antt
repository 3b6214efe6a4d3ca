-- ===== src/Console/Erase.antt =====
-- Erasing, and the insertion and deletion of characters and lines.
use linux.Prelude.{
  ℕ, zero, suc, ◌+◌, ◌-◌, ◌*◌, ◌≤◌, ◌<◌, ◌≡◌, ◌∙◌, ap, sym, leb, ◌==◌, arith, Bool-cases, inl, inr,
}
use native.Mathlib.Nat.{mul_comm, mul_assoc}
use linux.Console.{Video, Console, store, scrup, scrdown, erase, csi_J, csi_K}
use linux.Console.Edit.{
  times, shift_in, pull_in, insert_char, delete_char, insert_line, delete_line, csi_at, csi_L,
  csi_P, csi_M, clip,
}
use linux.Console.Valid.{
  IsDisplay, IsValid, Outside, Outside-refl, Outside-trans, Outside-fill, Outside-store, Keeps,
  Keeps-refl, Keeps-trans, Keeps-of_cell, row_fits,
}
use linux.Console.Scroll.{line_fits, scrup-Keeps, scrdown-Keeps, on_screen}

Outside-shift_in :
    (v : Video) (n p old : ℕ) (cell : ℕ → ℕ)
    → v.mem_start ≤ p
    → p + 2 * n ≤ v.mem_end
    → Outside v cell (shift_in n p old cell)
unfolding shift_in
Outside-shift_in v zero p old cell h k = Outside-refl v cell
Outside-shift_in v (suc n) p old cell h k =
    Outside-trans v cell _ _ (Outside-store v p old cell h (omega arith))
      (Outside-shift_in v n (p + 2) (cell p) (store p old cell) (omega arith) (omega arith))

Outside-pull_in :
    (v : Video) (n p : ℕ) (cell : ℕ → ℕ)
    → v.mem_start ≤ p
    → p + 2 * n ≤ v.mem_end
    → Outside v cell (pull_in n p cell)
unfolding pull_in
Outside-pull_in v zero p cell h k = Outside-refl v cell
Outside-pull_in v (suc n) p cell h k =
    Outside-trans v cell _ _ (Outside-store v p (cell (p + 2)) cell h (omega arith))
      (Outside-pull_in v n (p + 2) (store p (cell (p + 2)) cell) (omega arith) (omega arith))

-- The scrolling region is another part of the screen.
pub region-IsValid :
    (v : Video) (c : Console) (top bottom : ℕ)
    → IsValid v c
    → top < bottom
    → bottom ≤ v.lines
    → IsValid v (record c { top = top; bottom = bottom })
region-IsValid v c top bottom i h k = record {
  in_lines = i.in_lines;
  in_columns = i.in_columns;
  saved_in_lines = i.saved_in_lines;
  saved_in_columns = i.saved_in_columns;
  region = h;
  region_end = k;
  at_cursor = i.at_cursor;
  start = i.start;
  screen = i.screen;
  end_of_memory = i.end_of_memory;
  some_par = i.some_par;
  pars = i.pars;
}

-- A step on the lines from the cursor's on
lines-Keeps :
    (v : Video) (f : Console → Console) (c : Console)
    → ((b : Console) → IsValid v b → Keeps v b (f b))
    → IsValid v c
    → Keeps v c
        (record (f (record c { top = c.y; bottom = v.lines })) { top = c.top; bottom = c.bottom })
lines-Keeps v f c h i =
    let k =
      h (record c { top = c.y; bottom = v.lines })
        (region-IsValid v c c.y v.lines i i.in_lines (omega arith)) in
    record {
      valid = region-IsValid v _ c.top c.bottom k.valid i.region i.region_end;
      outside = k.outside;
    }

times-Keeps :
    (v : Video) (f : Console → Console) (n : ℕ) (c : Console)
    → ((b : Console) → IsValid v b → Keeps v b (f b))
    → IsValid v c
    → Keeps v c (times n f c)
unfolding times
times-Keeps v f zero c h i = Keeps-refl v c i
times-Keeps v f (suc n) c h i =
    let k = h c i in Keeps-trans v c (f c) _ k (times-Keeps v f n (f c) h k.valid)

module _ (v : Video) (d : IsDisplay v) where
  erase-Keeps :
      (c : Console) (count start : ℕ)
      → IsValid v c
      → v.mem_start ≤ start
      → start + 2 * count ≤ v.mem_end
      → Keeps v c (erase v count start c)
  erase-Keeps c count start i h k =
      Keeps-of_cell v c _ i (Outside-fill v v.erase_char count start c.cell h k)

  -- The bytes of the whole screen
  screen_bytes : 2 * (v.columns * v.lines) ≡ v.lines * v.size_row
  screen_bytes =
      sym (mul_assoc 2 v.columns v.lines)
      ∙ ap (λ (t : ℕ). t * v.lines) (sym d.row)
      ∙ mul_comm v.size_row v.lines

  pub csi_J-Keeps : (par : ℕ) (c : Console) → IsValid v c → Keeps v c (csi_J v par c)
  unfolding csi_J
  csi_J-Keeps par c i =
      let s = on_screen v d c i in
      let b = screen_bytes in
      let r = row_fits c.y v.lines v.size_row i.in_lines in
      let w = line_fits v d in
      elim (Bool-cases (par == 0)) [
        | inl p ↦ rw p (erase-Keeps c _ _ i (omega arith) (omega arith))
        | inr p ↦ rw p (elim (Bool-cases (par == 1)) [
          | inl q ↦ rw q (erase-Keeps c _ _ i (omega arith) (omega arith))
          | inr q ↦ rw q (elim (Bool-cases (par == 2)) [
            | inl u ↦ rw u (erase-Keeps c _ _ i (omega arith) (omega arith))
            | inr u ↦ rw u (Keeps-refl v c i)
          ])
        ])
      ]

  pub csi_K-Keeps : (par : ℕ) (c : Console) → IsValid v c → Keeps v c (csi_K v par c)
  unfolding csi_K
  csi_K-Keeps par c i =
      let s = on_screen v d c i in
      let r = row_fits c.y v.lines v.size_row i.in_lines in
      let w = line_fits v d in
      elim (Bool-cases (par == 0)) [
        | inl p ↦ rw p (elim (Bool-cases (leb v.columns c.x)) [
          | inl u ↦ rw u (Keeps-refl v c i)
          | inr u ↦ rw u (erase-Keeps c _ _ i (omega arith) (omega arith))
        ])
        | inr p ↦ rw p (elim (Bool-cases (par == 1)) [
          | inl q ↦ rw q (erase-Keeps c _ _ i (omega arith) (ground arith))
          | inr q ↦ rw q (elim (Bool-cases (par == 2)) [
            | inl u ↦ rw u (erase-Keeps c _ _ i (omega arith) (omega arith))
            | inr u ↦ rw u (Keeps-refl v c i)
          ])
        ])
      ]

  insert_char-Keeps : (c : Console) → IsValid v c → Keeps v c (insert_char v c)
  unfolding insert_char
  insert_char-Keeps c i =
      let s = on_screen v d c i in
      Keeps-of_cell v c _ i
        (Outside-shift_in v (v.columns - c.x) c.pos v.erase_char c.cell (omega arith) s)

  delete_char-Keeps : (c : Console) → IsValid v c → Keeps v c (delete_char v c)
  unfolding delete_char
  delete_char-Keeps c i = elim (Bool-cases (leb v.columns c.x)) [
    | inl e ↦ rw e (Keeps-refl v c i)
    | inr e ↦
        let s = on_screen v d c i in
        let n = v.columns - c.x - 1 in
        let h : c.x < v.columns = ground arith in
        rw e (
          Keeps-of_cell v c _ i (
            Outside-trans v c.cell _ _
              (Outside-pull_in v n c.pos c.cell (omega arith) (omega arith))
              (Outside-store v (c.pos + 2 * n) v.erase_char _ (omega arith) (omega arith))))
  ]

  insert_line-Keeps : (c : Console) → IsValid v c → Keeps v c (insert_line v c)
  unfolding insert_line
  insert_line-Keeps c i = lines-Keeps v (scrdown v) c (scrdown-Keeps v d) i

  delete_line-Keeps : (c : Console) → IsValid v c → Keeps v c (delete_line v c)
  unfolding delete_line
  delete_line-Keeps c i = lines-Keeps v (scrup v) c (scrup-Keeps v d) i

  pub csi_at-Keeps : (nr : ℕ) (c : Console) → IsValid v c → Keeps v c (csi_at v nr c)
  unfolding csi_at
  csi_at-Keeps nr c i = times-Keeps v (insert_char v) (clip v.columns nr) c insert_char-Keeps i

  pub csi_L-Keeps : (nr : ℕ) (c : Console) → IsValid v c → Keeps v c (csi_L v nr c)
  unfolding csi_L
  csi_L-Keeps nr c i = times-Keeps v (insert_line v) (clip v.lines nr) c insert_line-Keeps i

  pub csi_P-Keeps : (nr : ℕ) (c : Console) → IsValid v c → Keeps v c (csi_P v nr c)
  unfolding csi_P
  csi_P-Keeps nr c i = times-Keeps v (delete_char v) (clip v.columns nr) c delete_char-Keeps i

  pub csi_M-Keeps : (nr : ℕ) (c : Console) → IsValid v c → Keeps v c (csi_M v nr c)
  unfolding csi_M
  csi_M-Keeps nr c i = times-Keeps v (delete_line v) (clip v.lines nr) c delete_line-Keeps i
