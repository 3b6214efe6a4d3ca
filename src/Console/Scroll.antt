-- ===== src/Console/Scroll.antt =====
-- The cursor and the scrolling region.
use linux.Prelude.{
  ℕ, ◌+◌, ◌-◌, ◌*◌, ◌/◌, ◌≤◌, ◌≡◌, ◌∙◌, ap, sym, refl, ◌&&◌, ◌||◌, ltb, leb, ◌==◌, arith,
  Bool-cases, inl, inr,
}
use native.Mathlib.Nat.{add-mul, mul_comm}
use linux.Console.{Video, Console, gotoxy, move_up, scroll_origin, scrup, scrdown, lf, ri, cr, del}
use linux.Console.Valid.{
  IsDisplay, IsValid, Outside-trans, Outside-fill, Outside-move, Outside-store, Keeps, Keeps-refl,
  Keeps-trans, Keeps-of_cell, Keeps-of_cursor, Keeps-of_origin, row_fits, rows_le, longs,
  region_rows,
}

pub gotoxy-Keeps : (v : Video) (x y : ℕ) (c : Console) → IsValid v c → Keeps v c (gotoxy v x y c)
unfolding gotoxy
gotoxy-Keeps v x y c i = elim (Bool-cases (ltb v.columns x || leb v.lines y)) [
  | inl e ↦ rw e (Keeps-refl v c i)
  | inr e ↦ rw e (Keeps-of_cursor v c x y _ i (ground arith) (ground arith) refl)
]

pub suc_rows : (a r : ℕ) → (a + 1) * r ≡ a * r + r
suc_rows a r = add-mul a 1 r ∙ omega arith

module _ (v : Video) (d : IsDisplay v) where
  -- Words of a line, erased
  pub line_fits : 2 * v.columns ≡ v.size_row
  line_fits = sym d.row

  move_up-Keeps : (c : Console) → IsValid v c → Keeps v c (move_up v c)
  unfolding move_up
  move_up-Keeps c i =
      let l = longs v d (c.bottom - c.top - 1) in
      let r = region_rows c.top c.bottom v.size_row i.region in
      let b = rows_le c.bottom v.lines v.size_row i.region_end in
      let m = mul_comm v.size_row c.top in
      let w = line_fits in
      Keeps-of_cell v c _ i (
        Outside-trans v c.cell _ _
          (Outside-move v ((c.bottom - c.top - 1) * v.columns / 2) (c.origin + v.size_row * c.top) _
            c.cell (omega arith) (omega arith))
          (Outside-fill v v.erase_char v.columns _ _ (omega arith) (omega arith)))

  pub scrdown-Keeps : (c : Console) → IsValid v c → Keeps v c (scrdown v c)
  unfolding scrdown
  scrdown-Keeps c i =
      let l = longs v d (c.bottom - c.top - 1) in
      let r = region_rows c.top c.bottom v.size_row i.region in
      let b = rows_le c.bottom v.lines v.size_row i.region_end in
      let m = mul_comm v.size_row c.bottom in
      let w = line_fits in
      Keeps-of_cell v c _ i (
        Outside-trans v c.cell _ _
          (Outside-move v ((c.bottom - c.top - 1) * v.columns / 2) _ _ c.cell (omega arith)
            (omega arith))
          (Outside-fill v v.erase_char v.columns _ _ (omega arith) (omega arith)))

  scroll_origin-Keeps : (c : Console) → IsValid v c → Keeps v c (scroll_origin v c)
  unfolding scroll_origin
  scroll_origin-Keeps c i =
      let l = longs v d (v.lines - 1) in
      let one = d.some_line in
      let r = suc_rows (v.lines - 1) v.size_row in
      let n : v.lines * v.size_row ≡ (v.lines - 1 + 1) * v.size_row =
        ap (λ (k : ℕ). k * v.size_row) (omega arith) in
      let w = line_fits in
      elim (Bool-cases (ltb v.mem_end (c.scr_end + v.size_row))) [
        | inl e ↦ rw e (
            Keeps-of_origin v c v.mem_start _ _ _ i (omega arith) (omega arith) (omega arith)
              (omega arith)
              (Outside-trans v c.cell _ _
                (Outside-move v ((v.lines - 1) * v.columns / 2) v.mem_start _ c.cell (omega arith)
                  (omega arith))
                (Outside-fill v v.erase_char v.columns _ _ (omega arith) (omega arith))))
        | inr e ↦ rw e (
            Keeps-of_origin v c (c.origin + v.size_row) _ _ _ i (omega arith) (ground arith)
              (omega arith) (omega arith)
              (Outside-fill v v.erase_char v.columns _ c.cell (omega arith) (ground arith)))
      ]

  pub scrup-Keeps : (c : Console) → IsValid v c → Keeps v c (scrup v c)
  unfolding scrup
  scrup-Keeps c i = elim (Bool-cases (v.ega && (c.top == 0) && (c.bottom == v.lines))) [
    | inl e ↦ rw e (scroll_origin-Keeps c i)
    | inr e ↦ rw e (move_up-Keeps c i)
  ]

  pub lf-Keeps : (c : Console) → IsValid v c → Keeps v c (lf v c)
  unfolding lf
  lf-Keeps c i = elim (Bool-cases (ltb (c.y + 1) c.bottom)) [
    | inl e ↦
        let s : (c.y + 1) * v.size_row ≡ c.y * v.size_row + v.size_row = suc_rows c.y v.size_row in
        rw e (
          Keeps-of_cursor v c c.x (c.y + 1) (c.pos + v.size_row) i i.in_columns (ground arith)
            (omega arith))
    | inr e ↦ rw e (scrup-Keeps c i)
  ]

  pub ri-Keeps : (c : Console) → IsValid v c → Keeps v c (ri v c)
  unfolding ri
  ri-Keeps c i = elim (Bool-cases (ltb c.top c.y)) [
    | inl e ↦
        let s = suc_rows (c.y - 1) v.size_row in
        let n : c.y * v.size_row ≡ (c.y - 1 + 1) * v.size_row =
          ap (λ (k : ℕ). k * v.size_row) (ground arith) in
        rw e (
          Keeps-of_cursor v c c.x (c.y - 1) (c.pos - v.size_row) i i.in_columns (omega arith)
            (omega arith))
    | inr e ↦ rw e (scrdown-Keeps c i)
  ]

  pub cr-Keeps : (c : Console) → IsValid v c → Keeps v c (cr c)
  unfolding cr
  cr-Keeps c i =
      Keeps-of_cursor v c 0 c.y (c.pos - 2 * c.x) i (omega arith) i.in_lines (omega arith)

  -- The address of a place on the screen
  pub on_screen : (c : Console) → IsValid v c → c.pos + 2 * (v.columns - c.x) ≤ v.mem_end
  on_screen c i =
      let r = row_fits c.y v.lines v.size_row i.in_lines in let w = line_fits in omega arith

  pub del-Keeps : (c : Console) → IsValid v c → Keeps v c (del v c)
  unfolding del
  del-Keeps c i = elim (Bool-cases (c.x == 0)) [
    | inl e ↦ rw e (Keeps-refl v c i)
    | inr e ↦
        let s = on_screen c i in
        let w : 1 ≤ c.x = ground arith in
        let k =
          Keeps-of_cursor v c (c.x - 1) c.y (c.pos - 2) i (omega arith) i.in_lines (omega arith) in
        rw e (
          Keeps-trans v c _ _ k (
            Keeps-of_cell v _ _ k.valid
              (Outside-store v (c.pos - 2) v.erase_char c.cell (omega arith) (omega arith))))
  ]
