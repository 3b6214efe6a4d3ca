-- ===== src/Print.antt =====
-- kernel/vsprintf.c: `number`, which prints a number, and `skip_atoi`, which reads one.
-- Characters are their codes, a string that is written or read is the list of them. The number is
-- its 32-bit pattern. A width or precision below 0 (none given) pads as 0 does, so both are natural
-- numbers. `tmp` has 36 places.
pub mod Decimal
pub mod Width
mod Tests
use linux.Prelude.{
  ℕ, zero, suc, ◌+◌, ◌-◌, ◌*◌, ◌/◌, ◌%◌, ◌^◌, List, [], ◌∷◌, ◌++◌, Option, none, some, Bool, true,
  false, not, ◌&&◌, ◌||◌, ltb, leb, ◌==◌, if◌then◌else◌, max, length, replicate,
}

-- ZEROPAD, SIGN, PLUS, SPACE, LEFT, SPECIAL, SMALL
pub record Flags : Type 0 where
  pub zeropad : Bool
  pub sign : Bool
  pub plus : Bool
  pub space : Bool
  pub left : Bool
  pub special : Bool
  pub small : Bool

abbrev pub is_digit : ℕ → Bool
is_digit c = leb 48 c && leb c 57

-- `i = i*10 + *((*s)++) - '0'` as long as there are digits
pub skip_digits : ℕ → List ℕ → ℕ × List ℕ
skip_digits i [] = (i, [])
skip_digits i (c ∷ cs) =
    let rest = skip_digits ((i * 10 + c - 48) % 2 ^ 32) cs in
    if is_digit c then rest else (i, c ∷ cs)

pub skip_atoi : List ℕ → ℕ × List ℕ
skip_atoi s = skip_digits 0 s

-- `digits[d]`
abbrev pub digit : Bool → ℕ → ℕ
digit small d = if ltb d 10 then 48 + d else if small then 87 + d else 55 + d

-- `tmp`, from the lowest digit on: `while (num!=0)`, with fuel. Each round makes the number less, so
-- the number itself is enough.
pub tmp_digits : ℕ → Bool → ℕ → ℕ → List ℕ
tmp_digits zero small base num = []
tmp_digits (suc fuel) small base num =
    let rest = tmp_digits fuel small base (num / base) in
    if num == 0 then [] else digit small (num % base) ∷ rest

abbrev pub tmp : Bool → ℕ → ℕ → List ℕ
tmp small base num = if num == 0 then 48 ∷ [] else tmp_digits num small base num

abbrev pub is_negative : Flags → ℕ → Bool
is_negative type num = type.sign && leb (2 ^ 31) num

abbrev pub magnitude : Flags → ℕ → ℕ
magnitude type num = if is_negative type num then 2 ^ 32 - num else num

abbrev pub sign_chars : Flags → ℕ → List ℕ
sign_chars type num =
    if is_negative type num
    then 45 ∷ []
    else if type.plus
    then 43 ∷ []
    else if type.space
    then 32 ∷ []
    else []

-- What SPECIAL puts before the digits; its length is what `size` gives up for it.
abbrev pub prefix : Flags → ℕ → List ℕ
prefix type base =
    if type.special && (base == 8)
    then 48 ∷ []
    else if type.special && (base == 16)
    then 48 ∷ digit type.small 33 ∷ []
    else []

-- `while(i-->0) *str++ = tmp[i]`
abbrev pub last_first : List ℕ → List ℕ
last_first [] = []
last_first (c ∷ cs) = last_first cs ++ (c ∷ [])

-- The characters, and what is left of `size`, of a `while(size-->0)` that runs under a condition.
abbrev pub pad : Bool → ℕ → ℕ → List ℕ × ℕ
pad b c size = if b then (replicate size c, 0) else ([], size)

-- The string from the sign on: `sign` and `special` are written, then `i` digits at this precision.
abbrev pub layout : Flags → ℕ → ℕ → List ℕ → List ℕ → List ℕ → List ℕ
layout type size precision sign special digits =
    let zeropad = type.zeropad && not type.left in
    let (before, size₁) = pad (not zeropad && not type.left) 32 size in
    let (inside, size₂) = pad (not type.left) (if zeropad then 48 else 32) size₁ in
    before
    ++ (sign
        ++ (special
            ++ (inside
                ++ (replicate (precision - length digits) 48
                    ++ (last_first digits ++ replicate size₂ 32)))))

-- NULL for a base that is none
pub number : ℕ → ℕ → ℕ → ℕ → Flags → Option (List ℕ)
number num base size precision type =
    let sign = sign_chars type num in
    let special = prefix type base in
    let digits = tmp type.small base (magnitude type num) in
    let precision' = max precision (length digits) in
    if ltb base 2 || ltb 36 base
    then none
    else some (
        layout type (size - length sign - length special - precision') precision' sign special
          digits)
