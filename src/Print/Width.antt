-- ===== src/Print/Width.antt =====
-- How long the string is that `number` writes.
use linux.Prelude.{
  ℕ, zero, suc, ◌+◌, ◌-◌, ◌*◌, ◌/◌, ◌^◌, ◌<◌, ◌≤◌, ◌≡◌, refl, sym, ◌∙◌, List, [], ◌∷◌, ◌++◌, none,
  some, Bool, true, false, not, ◌&&◌, ◌||◌, ltb, ◌==◌, if◌then◌else◌, max, length, length-append,
  length-replicate, replicate, arith, Bool-cases, inl, inr,
}
use native.Mathlib.Nat.{pow-suc, div-mul-le_self, mul-le-mul_left}
use linux.Print.{
  Flags, last_first, tmp_digits, tmp, pad, layout, number, magnitude, sign_chars, prefix,
}

length-last_first : (xs : List ℕ) → length (last_first xs) ≡ length xs
length-last_first [] = refl
length-last_first (x ∷ xs) =
    length-append (last_first xs) (x ∷ []) ∙ (let ih = length-last_first xs in omega arith)

length-chars : (n c : ℕ) → length (replicate n c) ≡ n
length-chars n c = length-replicate n c

length-pad : (b : Bool) (c n : ℕ) → length (pad b c n).0 + (pad b c n).1 ≡ n
length-pad true c n = let l = length-replicate n c in omega arith
length-pad false c n = omega arith

length-parts :
    (before sign special inside zeros digits after : List ℕ)
    → length (before ++ (sign ++ (special ++ (inside ++ (zeros ++ (digits ++ after))))))
      ≡ length before
        + length sign
        + length special
        + length inside
        + length zeros
        + length digits
        + length after
length-parts before sign special inside zeros digits after =
    rw
      (
        length-append before (sign ++ (special ++ (inside ++ (zeros ++ (digits ++ after))))),
        length-append sign (special ++ (inside ++ (zeros ++ (digits ++ after)))),
        length-append special (inside ++ (zeros ++ (digits ++ after))),
        length-append inside (zeros ++ (digits ++ after)),
        length-append zeros (digits ++ after),
        length-append digits after,
      )
      (omega arith)

length-layout :
    (type : Flags) (size precision : ℕ) (sign special digits : List ℕ)
    → length digits ≤ precision
    → length (layout type size precision sign special digits)
      ≡ size + length sign + length special + precision
length-layout type size precision sign special digits h =
    let zeropad = type.zeropad && not type.left in
    let p = pad (not zeropad && not type.left) 32 size in
    let q = pad (not type.left) (if zeropad then 48 else 32) p.1 in
    let parts =
      length-parts p.0 sign special q.0 (replicate (precision - length digits) 48)
        (last_first digits) (replicate q.1 32) in
    let n₁ = length-pad (not zeropad && not type.left) 32 size in
    let n₂ = length-pad (not type.left) (if zeropad then 48 else 32) p.1 in
    let z = length-chars (precision - length digits) 48 in
    let d = length-last_first digits in let a = length-chars q.1 32 in parts ∙ omega arith

half_or_less : (base num : ℕ) → 2 ≤ base → num / base ≤ num / 2
half_or_less base num h =
    let a = div-mul-le_self num base in
    let b : num / base * 2 ≤ num / base * base = mul-le-mul_left (num / base) h in
    omega (arith, a, b)

-- A number of `w` bits has at most `w` digits, to any base.
length-tmp_digits :
    (w fuel : ℕ) (small : Bool) (base num : ℕ)
    → 2 ≤ base
    → num < 2 ^ w
    → length (tmp_digits fuel small base num) ≤ w
unfolding tmp_digits
length-tmp_digits w zero small base num b h = omega arith
length-tmp_digits zero (suc fuel) small base num b h =
    let z : num ≡ 0 = omega arith in rw z (omega arith)
length-tmp_digits (suc w) (suc fuel) small base num b h =
    let d = half_or_less base num b in
    let ih = length-tmp_digits w fuel small base (num / base) b (omega (arith, d, pow-suc 2 w)) in
    ground arith

length-tmp :
    (small : Bool) (base num : ℕ) → 2 ≤ base → num < 2 ^ 32 → length (tmp small base num) ≤ 32
length-tmp small base num b h = elim (Bool-cases (num == 0)) [
  | inl e ↦ rw e (omega arith)
  | inr e ↦ rw e (length-tmp_digits 32 num small base num b h)
]

no_digits : (fuel : ℕ) (small : Bool) (base : ℕ) → tmp_digits fuel small base 0 ≡ []
unfolding tmp_digits
no_digits zero small base = refl
no_digits (suc fuel) small base = refl

-- The fuel is enough: the loop ends before it does.
tmp_digits_enough :
    (fuel more : ℕ) (small : Bool) (base num : ℕ)
    → 2 ≤ base
    → num ≤ fuel
    → tmp_digits (fuel + more) small base num ≡ tmp_digits fuel small base num
unfolding tmp_digits
tmp_digits_enough zero more small base num b h =
    let z : num ≡ 0 = omega arith in rw z (no_digits (0 + more) small base)
tmp_digits_enough (suc fuel) more small base num b h = elim (Bool-cases (num == 0)) [
  | inl e ↦
      let z : num ≡ 0 = ground arith in
      rw z (no_digits (suc fuel + more) small base ∙ sym (no_digits (suc fuel) small base))
  | inr e ↦
      let d = half_or_less base num b in
      let ih = tmp_digits_enough fuel more small base (num / base) b (ground arith) in
      let k : suc fuel + more ≡ suc (fuel + more) = omega arith in rw (k, e, ih) refl
]

-- `number` writes nothing for a base out of 2 to 36. Otherwise, on a 32-bit number, the loop that
-- takes its digits ends, with at most 32 of the 36 places of `tmp` in use, and the string is as long
-- as asked for, or as its sign, its prefix and its digits with the zeros for the precision need.
pub number_width :
    (num base size precision : ℕ) (type : Flags)
    → num < 2 ^ 32
    → let value = magnitude type num in
      let digits = tmp type.small base value in
      if ltb base 2 || ltb 36 base
      then number num base size precision type ≡ none
      else ((out : List ℕ) × (number num base size precision type ≡ some out)
          × (length out
              ≡ max size (
                  length (sign_chars type num)
                  + length (prefix type base)
                  + max precision (length digits)))
          × (length digits ≤ 32)
          × ((more : ℕ)
              → tmp_digits (value + more) type.small base value
                ≡ tmp_digits value type.small base value))
unfolding number
number_width num base size precision type small =
    let digits = tmp type.small base (magnitude type num) in
    let sign = sign_chars type num in
    let special = prefix type base in
    let precision' = max precision (length digits) in
    let l =
      length-layout type (size - length sign - length special - precision') precision' sign special
        digits (omega arith) in
    let m : magnitude type num < 2 ^ 32 = ground arith in
    elim (Bool-cases (ltb base 2 || ltb 36 base)) [
      | inl e ↦ rw e refl
      | inr e ↦
          let b : 2 ≤ base = ground arith in
          rw e (
            _,
            refl,
            l ∙ omega arith,
            length-tmp type.small base (magnitude type num) b m,
            λ more.
                tmp_digits_enough (magnitude type num) more type.small base (magnitude type num) b
                  (omega arith),
          )
    ]
