-- ===== src/Print/Decimal.antt =====
-- `number` and `skip_atoi` on decimal digits.
use linux.Prelude.{
  ℕ, zero, suc, ◌+◌, ◌-◌, ◌*◌, ◌/◌, ◌%◌, ◌^◌, ◌<◌, ◌≤◌, ◌≡◌, refl, ◌∙◌, List, [], ◌∷◌, ◌++◌, some,
  Bool, true, false, ◌==◌, max, length, replicate, arith, Bool-cases, inl, inr,
}
use mathlib.Core.List.{append_assoc, append-nil}
use linux.Print.{
  Flags, skip_digits, skip_atoi, last_first, tmp_digits, tmp, digit, number, is_digit,
}

skip_digits-digit :
    (num : ℕ) (small : Bool) (rest : List ℕ)
    → num < 2 ^ 32
    → skip_digits (num / 10) (digit small (num % 10) ∷ rest) ≡ skip_digits num rest
unfolding skip_digits
skip_digits-digit num small rest l =
    let d : digit small (num % 10) ≡ 48 + num % 10 = ground arith in
    let is : is_digit (48 + num % 10) ≡ true = ground arith in
    let v : (num / 10 * 10 + (48 + num % 10) - 48) % 2 ^ 32 ≡ num = ground arith in
    rw (d, is, v) refl

-- The digits of `tmp` read back, before anything else.
skip_digits-tmp_digits :
    (fuel num : ℕ) (small : Bool) (rest : List ℕ)
    → num ≤ fuel
    → num < 2 ^ 32
    → skip_digits 0 (last_first (tmp_digits fuel small 10 num) ++ rest) ≡ skip_digits num rest
unfolding tmp_digits
skip_digits-tmp_digits zero num small rest h l = let z : num ≡ 0 = omega arith in rw z refl
skip_digits-tmp_digits (suc fuel) num small rest h l = elim (Bool-cases (num == 0)) [
  | inl e ↦ let z : num ≡ 0 = ground arith in rw z refl
  | inr e ↦
      let ih = skip_digits-tmp_digits fuel (num / 10) small in
      rw
        (
          e,
          append_assoc (last_first (tmp_digits fuel small 10 (num / 10)))
              (digit small (num % 10) ∷ []) rest,
        )
        (ih (digit small (num % 10) ∷ rest) (ground arith) (omega arith)
          ∙ skip_digits-digit num small rest l)
]

-- Zeros in front do not count.
skip_digits-zeros : (n : ℕ) (xs : List ℕ) → skip_digits 0 (replicate n 48 ++ xs) ≡ skip_digits 0 xs
unfolding skip_digits
skip_digits-zeros zero xs = refl
skip_digits-zeros (suc n) xs = skip_digits-zeros n xs

-- What follows the digits does not begin with one.
abbrev pub NoDigit : List ℕ → Type 0
NoDigit [] = Unit
NoDigit (c ∷ cs) = is_digit c ≡ false

skip_digits_ends : (num : ℕ) (rest : List ℕ) → NoDigit rest → skip_digits num rest ≡ (num, rest)
unfolding skip_digits
skip_digits_ends num [] h = refl
skip_digits_ends num (c ∷ cs) h = rw h refl

skip_digits-tmp :
    (num : ℕ) (small : Bool) (rest : List ℕ)
    → num < 2 ^ 32
    → skip_digits 0 (last_first (tmp small 10 num) ++ rest) ≡ skip_digits num rest
unfolding skip_digits
skip_digits-tmp num small rest l = elim (Bool-cases (num == 0)) [
  | inl e ↦ let z : num ≡ 0 = ground arith in rw z refl
  | inr e ↦ rw e (skip_digits-tmp_digits num num small rest (omega arith) l)
]

skip_digits-padded :
    (a b : ℕ) (ds rest : List ℕ)
    → skip_digits 0 ((replicate a 48 ++ (replicate b 48 ++ (ds ++ []))) ++ rest)
      ≡ skip_digits 0 (ds ++ rest)
skip_digits-padded a b ds rest =
    rw
      (
        append-nil ds,
        append_assoc (replicate a 48) (replicate b 48 ++ ds) rest,
        append_assoc (replicate b 48) ds rest,
        skip_digits-zeros a (replicate b 48 ++ (ds ++ rest)),
        skip_digits-zeros b (ds ++ rest),
      )
      refl

abbrev pub unsigned : Bool → Flags
unsigned small = record {
  zeropad = true;
  sign = false;
  plus = false;
  space = false;
  left = false;
  special = false;
  small = small;
}

-- A number printed to the base 10, filled with zeros to any width and precision, is read back by
-- `skip_atoi`, which stops where the digits end.
pub skip_atoi-number :
    (num size precision : ℕ) (small : Bool) (rest : List ℕ)
    → num < 2 ^ 32
    → NoDigit rest
    → (out : List ℕ) × (number num 10 size precision (unsigned small) ≡ some out)
      × (skip_atoi (out ++ rest) ≡ (num, rest))
unfolding number skip_atoi
skip_atoi-number num size precision small rest l h = (
  _,
  refl,
  skip_digits-padded (size - 0 - 0 - max precision (length (tmp small 10 num)))
        (max precision (length (tmp small 10 num)) - length (tmp small 10 num))
        (last_first (tmp small 10 num)) rest
      ∙ skip_digits-tmp num small rest l
      ∙ skip_digits_ends num rest h,
)
