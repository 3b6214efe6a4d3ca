-- ===== src/Print/Tests.antt =====
-- Numbers printed, and the theorems there.
use linux.Prelude.{
  ℕ, ◌+◌, ◌-◌, ◌≤◌, ◌≡◌, ◌^◌, refl, List, [], ◌∷◌, ◌++◌, none, some, true, false, ltb, ◌||◌,
  if◌then◌else◌, max, length, arith,
}
use linux.Print.{Flags, number, skip_atoi, tmp, tmp_digits, magnitude, sign_chars, prefix}
use linux.Print.Decimal.{unsigned, skip_atoi-number}
use linux.Print.Width.{number_width}

-- `%#08x` of 0xbeef
abbrev hex : Flags
hex = record {
  zeropad = true;
  sign = false;
  plus = false;
  space = false;
  left = false;
  special = true;
  small = true;
}

hex_beef : number 0xbeef 16 8 0 hex ≡ some (48 ∷ 120 ∷ 48 ∷ 48 ∷ 98 ∷ 101 ∷ 101 ∷ 102 ∷ [])
unfolding number tmp_digits
hex_beef = refl

-- `%-5d` of -12
abbrev left_signed : Flags
left_signed = record {
  zeropad = true;
  sign = true;
  plus = false;
  space = false;
  left = true;
  special = false;
  small = false;
}

minus_twelve : number (2 ^ 32 - 12) 10 5 0 left_signed ≡ some (45 ∷ 49 ∷ 50 ∷ 32 ∷ 32 ∷ [])
unfolding number tmp_digits
minus_twelve = refl

skip_atoi-number_example :
    (out : List ℕ) × (number 1991 10 6 0 (unsigned false) ≡ some out)
    × (skip_atoi (out ++ (46 ∷ [])) ≡ (1991, 46 ∷ []))
skip_atoi-number_example = skip_atoi-number 1991 6 0 false (46 ∷ []) (omega arith) refl

number_width_example :
    if ltb 16 2 || ltb 36 16
    then number 0xbeef 16 8 0 hex ≡ none
    else ((out : List ℕ) × (number 0xbeef 16 8 0 hex ≡ some out)
        × (length out
            ≡ max 8 (
                length (sign_chars hex 0xbeef)
                + length (prefix hex 16)
                + max 0 (length (tmp true 16 (magnitude hex 0xbeef)))))
        × (length (tmp true 16 (magnitude hex 0xbeef)) ≤ 32)
        × ((more : ℕ)
            → tmp_digits (magnitude hex 0xbeef + more) true 16 (magnitude hex 0xbeef)
              ≡ tmp_digits (magnitude hex 0xbeef) true 16 (magnitude hex 0xbeef)))
number_width_example = number_width 0xbeef 16 8 0 hex (omega arith)
