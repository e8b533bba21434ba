-- ===== src/Prelude/Bits.antt =====
-- `&`, `|` and shifts of unsigned numbers, as arithmetic.
use Prim.Native.Nat.{
  ℕ, zero, suc, ◌+◌, ◌*◌, ◌/◌, ◌%◌, ◌^◌, ◌≤◌, ◌<◌, min, max, bit_and, bit_or, digits, bitwise,
  bit_and-bitwise, bit_or-bitwise,
}
use mathlib.Core.Path.{◌≡◌, refl, ap, ◌∙◌}
use native.Mathlib.Nat.{mul-one, div-one, div-add-mod', div-div-eq-div-mul}
use native.Mathlib.Omega.{arith}

-- More rounds than the first number has digits change nothing.
module _ (at_end : ℕ → ℕ) (op : ℕ → ℕ → ℕ) where
  digits_enough : (n m a b : ℕ) → a ≤ n → a ≤ m → digits at_end op n a b ≡ digits at_end op m a b
  digits_enough zero zero a b p q = refl
  digits_enough zero (suc m) zero b p q = refl
  digits_enough zero (suc m) (suc a) b p q = absurd (omega arith)
  digits_enough (suc n) zero zero b p q = refl
  digits_enough (suc n) zero (suc a) b p q = absurd (omega arith)
  digits_enough (suc n) (suc m) zero b p q = refl
  digits_enough (suc n) (suc m) (suc a) b p q =
      omega (arith, digits_enough n m (suc a / 2) (b / 2) (omega arith) (omega arith))

  bitwise_digit :
      (a b : ℕ)
      → bitwise at_end op (suc a) b
        ≡ bitwise at_end op (suc a / 2) (b / 2) * 2 + op (suc a % 2) (b % 2)
  bitwise_digit a b =
      omega (arith, digits_enough a (suc a / 2) (suc a / 2) (b / 2) (omega arith) (omega arith))

bit_or_zero : (b : ℕ) → bit_or 0 b ≡ b
bit_or_zero b = bit_or-bitwise 0 b

bit_or_digit : (a b : ℕ) → bit_or a b ≡ bit_or (a / 2) (b / 2) * 2 + max (a % 2) (b % 2)
bit_or_digit zero b = omega (arith, bit_or_zero b, bit_or_zero (b / 2))
bit_or_digit (suc a) b = omega (
  arith,
  bit_or-bitwise (suc a) b,
  bit_or-bitwise (suc a / 2) (b / 2),
  bitwise_digit (λ b. b) max a b,
)

bit_and_digit : (a b : ℕ) → bit_and a b ≡ bit_and (a / 2) (b / 2) * 2 + min (a % 2) (b % 2)
bit_and_digit zero b = omega (arith, bit_and-bitwise 0 b, bit_and-bitwise 0 (b / 2))
bit_and_digit (suc a) b = omega (
  arith,
  bit_and-bitwise (suc a) b,
  bit_and-bitwise (suc a / 2) (b / 2),
  bitwise_digit (λ b. zero) min a b,
)

bit_and_zero : (a : ℕ) → bit_and 0 a ≡ 0
bit_and_zero a = bit_and-bitwise 0 a

double : (m k : ℕ) → m * 2 ^ suc k ≡ m * 2 ^ k * 2
double m k = grind arith

halve : (m k : ℕ) → m * 2 ^ suc k / 2 ≡ m * 2 ^ k
halve m k = omega (arith, double m k)

even : (m k : ℕ) → m * 2 ^ suc k % 2 ≡ 0
even m k = omega (arith, double m k)

div_twice : (a k : ℕ) → a / 2 / 2 ^ k ≡ a / 2 ^ suc k
div_twice a k = div-div-eq-div-mul a 2 (2 ^ k) ∙ ap (λ n. a / n) (omega arith)

-- The mask of the `k` lowest digits.
ones : ℕ → ℕ
ones zero = 0
ones (suc k) = ones k * 2 + 1

bit_and-ones : (k a : ℕ) → bit_and (ones k) a ≡ a % 2 ^ k
unfolding ones
bit_and-ones zero a = bit_and_zero a ∙ omega arith
bit_and-ones (suc k) a =
    let half : (ones k * 2 + 1) / 2 ≡ ones k = omega arith in
    let odd : (ones k * 2 + 1) % 2 ≡ 1 = omega arith in
    let rest : a / 2 ^ suc k * 2 ^ k + a / 2 % 2 ^ k ≡ a / 2 =
      rw (← div_twice a k) (div-add-mod' (a / 2) (2 ^ k)) in
    bit_and_digit (ones k * 2 + 1) a
    ∙ rw (half, odd, bit_and-ones k (a / 2))
        (omega (arith, rest, div-add-mod' a (2 ^ suc k), double (a / 2 ^ suc k) k))

pub bit_and-byte : (a : ℕ) → bit_and 255 a ≡ a % 256
unfolding ones
bit_and-byte a = bit_and-ones 8 a

-- A mask that ends in zeros.
pub bit_and-shift : (k m a : ℕ) → bit_and (m * 2 ^ k) a ≡ bit_and m (a / 2 ^ k) * 2 ^ k
bit_and-shift zero m a = simp (mul-one, div-one)
bit_and-shift (suc k) m a =
    bit_and_digit (m * 2 ^ suc k) a
    ∙ rw (halve m k, even m k, bit_and-shift k m (a / 2), div_twice a k)
        (omega (arith, double (bit_and m (a / 2 ^ suc k)) k))

bit_or_right_zero : (n a : ℕ) → a ≤ n → bit_or a 0 ≡ a
bit_or_right_zero n zero h = refl
bit_or_right_zero zero (suc a) h = absurd (omega arith)
bit_or_right_zero (suc n) (suc a) h =
    bit_or_digit (suc a) 0 ∙ rw (bit_or_right_zero n (suc a / 2) (omega arith)) (omega arith)

-- `|` of numbers that have no digit in common.
pub bit_or-add : (k a b : ℕ) → b < 2 ^ k → bit_or (a * 2 ^ k) b ≡ a * 2 ^ k + b
bit_or-add zero a zero h = rw mul-one (bit_or_right_zero a a (omega arith) ∙ omega arith)
bit_or-add zero a (suc b) h = absurd (omega arith)
bit_or-add (suc k) a b h =
    bit_or_digit (a * 2 ^ suc k) b
    ∙ rw (halve a k, even a k, bit_or-add k a (b / 2) (omega arith)) (omega (arith, double a k))
