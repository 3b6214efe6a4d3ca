-- ===== src/Prelude/Bits.antt =====
-- The bits of a machine word: what `|`, `&` and `~` do to each of them.
use Prim.Native.Nat.{
  ℕ, zero, suc, ◌+◌, ◌-◌, ◌*◌, ◌/◌, ◌%◌, ◌^◌, ◌≤◌, ◌<◌, min, max, bit_and, bit_or, digits,
  bit_and-bitwise, bit_or-bitwise,
}
use mathlib.Core.Path.{◌≡◌, refl, ap, ◌∙◌}
use mathlib.Core.Bool.{Bool, true, false, not, ◌&&◌, ◌||◌}
use native.Mathlib.Omega.{arith}
use native.Mathlib.Nat.{pow-suc}
use native.Mathlib.Decide.{dec_le}
use mathlib.Core.Logic.{◌≢◌, inl, inr}
use linux.Prelude.Tests.{◌==◌, Bool-cases}

-- Bit i of x.
pub test_bit : ℕ → ℕ → Bool
test_bit x zero = x % 2 == 1
test_bit x (suc i) = test_bit (x / 2) i

-- `~x` in a word of w bits.
abbrev pub bit_not : ℕ → ℕ → ℕ
bit_not w x = 2 ^ w - 1 - x

-- Both operations run the library's `digits`, with `rest` for what is left of the second word when
-- the first is used up and `op` for a pair of bits. Its fuel need not exceed the first word.
module _ (rest : ℕ → ℕ) (op : ℕ → ℕ → ℕ) where
  more_fuel : (f x y : ℕ) → x ≤ f → digits rest op (suc f) x y ≡ digits rest op f x y
  more_fuel zero zero y h = refl
  more_fuel zero (suc x) y h = absurd (omega arith)
  more_fuel (suc f) zero y h = refl
  more_fuel (suc f) (suc x) y h =
      ap (λ r. r * 2 + op (suc x % 2) (y % 2)) (more_fuel f (suc x / 2) (y / 2) (omega arith))

  exact_fuel : (f x y : ℕ) → x ≤ f → digits rest op f x y ≡ digits rest op x x y
  exact_fuel zero x y h = let e : x ≡ 0 = omega arith in rw e
  exact_fuel (suc f) x y h = elim (dec_le x f) [
    | yes le ↦ more_fuel f x y le ∙ exact_fuel f x y le
    | no gt ↦ let e : x ≡ suc f = omega arith in rw e
  ]

pub zero-bit_and : (y : ℕ) → bit_and 0 y ≡ 0
zero-bit_and = bit_and-bitwise 0

pub zero-bit_or : (y : ℕ) → bit_or 0 y ≡ y
zero-bit_or = bit_or-bitwise 0

-- The lowest bit of the result, and the rest.
pub bit_and_step : (x y : ℕ) → bit_and x y ≡ bit_and (x / 2) (y / 2) * 2 + min (x % 2) (y % 2)
bit_and_step zero y = rw (zero-bit_and y) (omega (arith, zero-bit_and (y / 2)))
bit_and_step (suc x) y =
    let half = exact_fuel (λ b. 0) min x (suc x / 2) (y / 2) (omega arith) in
    omega (arith, half, bit_and-bitwise (suc x) y, bit_and-bitwise (suc x / 2) (y / 2))

pub bit_or_step : (x y : ℕ) → bit_or x y ≡ bit_or (x / 2) (y / 2) * 2 + max (x % 2) (y % 2)
bit_or_step zero y = rw (zero-bit_or y) (omega (arith, zero-bit_or (y / 2)))
bit_or_step (suc x) y =
    let half = exact_fuel (λ b. b) max x (suc x / 2) (y / 2) (omega arith) in
    omega (arith, half, bit_or-bitwise (suc x) y, bit_or-bitwise (suc x / 2) (y / 2))

pub div-bit_or : (a b : ℕ) → bit_or a b / 2 ≡ bit_or (a / 2) (b / 2)
div-bit_or a b = omega (arith, bit_or_step a b)

div-bit_and : (a b : ℕ) → bit_and a b / 2 ≡ bit_and (a / 2) (b / 2)
div-bit_and a b = omega (arith, bit_and_step a b)

-- Each bit of `a | b`.
pub test_bit-bit_or : (a b i : ℕ) → test_bit (bit_or a b) i ≡ (test_bit a i || test_bit b i)
unfolding test_bit
test_bit-bit_or a b zero = ground (arith, bit_or_step a b)
test_bit-bit_or a b (suc i) =
    ap (λ x. test_bit x i) (div-bit_or a b) ∙ test_bit-bit_or (a / 2) (b / 2) i

-- Each bit of `a & b`.
pub test_bit-bit_and : (a b i : ℕ) → test_bit (bit_and a b) i ≡ (test_bit a i && test_bit b i)
unfolding test_bit
test_bit-bit_and a b zero = ground (arith, bit_and_step a b)
test_bit-bit_and a b (suc i) =
    ap (λ x. test_bit x i) (div-bit_and a b) ∙ test_bit-bit_and (a / 2) (b / 2) i

pub test_bit-zero : (i : ℕ) → test_bit 0 i ≡ false
unfolding test_bit
test_bit-zero zero = refl
test_bit-zero (suc i) = test_bit-zero i

-- Each bit of `1 << k`.
pub test_bit-pow : (k i : ℕ) → test_bit (2 ^ k) i ≡ (k == i)
unfolding test_bit
test_bit-pow zero zero = refl
test_bit-pow zero (suc i) = test_bit-zero i ∙ ground arith
test_bit-pow (suc k) zero = ground (arith, pow-suc 2 k)
test_bit-pow (suc k) (suc i) =
    ap (λ x. test_bit x i) (omega (arith, pow-suc 2 k)) ∙ test_bit-pow k i ∙ ground arith

-- Each bit of `~x`.
pub test_bit-bit_not :
    (w x i : ℕ) → x < 2 ^ w → i < w → test_bit (bit_not w x) i ≡ not (test_bit x i)
unfolding test_bit
test_bit-bit_not zero x i h lt = absurd (omega arith)
test_bit-bit_not (suc w) x zero h lt = ground (arith, pow-suc 2 w)
test_bit-bit_not (suc w) x (suc i) h lt =
    ap (λ y. test_bit y i) (omega (arith, pow-suc 2 w))
    ∙ test_bit-bit_not w (x / 2) i (omega (arith, pow-suc 2 w)) (omega arith)

-- A word with a bit set is not 0.
pub ne_zero_of_test_bit : (x i : ℕ) → test_bit x i ≡ true → (x == 0) ≡ false
unfolding test_bit
ne_zero_of_test_bit zero zero h = cc h
ne_zero_of_test_bit zero (suc i) h = cc (h, test_bit-zero i)
ne_zero_of_test_bit (suc x) i h = ground arith

-- `&` only takes bits away.
bit_and-le_fuel : (n a b : ℕ) → a ≤ n → bit_and a b ≤ a
bit_and-le_fuel n zero b h = omega (arith, zero-bit_and b)
bit_and-le_fuel zero (suc a) b h = absurd (omega arith)
bit_and-le_fuel (suc n) (suc a) b h =
    omega (arith, bit_and_step (suc a) b, bit_and-le_fuel n (suc a / 2) (b / 2) (omega arith))

pub bit_and-le : (a b : ℕ) → bit_and a b ≤ a
bit_and-le a b = bit_and-le_fuel a a b (omega arith)

-- A word below 2^w that is not 0 has a bit set below w.
pub bit_of_ne_zero : (w x : ℕ) → x < 2 ^ w → x ≢ 0 → (i : ℕ) × (i < w) × (test_bit x i ≡ true)
unfolding test_bit
bit_of_ne_zero zero x h ne = absurd (ne (omega arith))
bit_of_ne_zero (suc w) x h ne = elim (Bool-cases (x % 2 == 1)) [
  | inl odd ↦ (0, omega arith, odd)
  | inr even ↦
      let (i, lt, s) =
        bit_of_ne_zero w (x / 2) (omega (arith, pow-suc 2 w)) (λ e. ne (ground arith)) in
      (suc i, omega arith, s)
]

-- `|` of words of w bits is one.
pub bit_or-lt : (w a b : ℕ) → a < 2 ^ w → b < 2 ^ w → bit_or a b < 2 ^ w
bit_or-lt zero a b h k = let e : a ≡ 0 = omega arith in rw (e, zero-bit_or b) k
bit_or-lt (suc w) a b h k = omega (
  arith,
  pow-suc 2 w,
  bit_or_step a b,
  bit_or-lt w (a / 2) (b / 2) (omega (arith, pow-suc 2 w)) (omega (arith, pow-suc 2 w)),
)

bit_or-zero_fuel : (n a : ℕ) → a ≤ n → bit_or a 0 ≡ a
bit_or-zero_fuel n zero h = zero-bit_or 0
bit_or-zero_fuel zero (suc a) h = absurd (omega arith)
bit_or-zero_fuel (suc n) (suc a) h =
    omega (arith, bit_or_step (suc a) 0, bit_or-zero_fuel n (suc a / 2) (omega arith))

pub bit_or-zero : (a : ℕ) → bit_or a 0 ≡ a
bit_or-zero a = bit_or-zero_fuel a a (omega arith)

-- `a | 7` sets the three low bits, `a | 2` the second.
pub bit_or_seven : (a : ℕ) → bit_or a 7 ≡ a / 8 * 8 + 7
bit_or_seven a = omega (
  arith,
  bit_or_step a 7,
  bit_or_step (a / 2) 3,
  bit_or_step (a / 2 / 2) 1,
  bit_or-zero (a / 2 / 2 / 2),
)

pub bit_or_two : (a : ℕ) → bit_or a 2 ≡ a / 4 * 4 + 2 + a % 2
bit_or_two a = omega (arith, bit_or_step a 2, bit_or_step (a / 2) 1, bit_or-zero (a / 2 / 2))
