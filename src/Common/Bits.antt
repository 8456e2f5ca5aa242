-- ===== src/Common/Bits.antt =====
-- Laws of `bit_xor` and `bit_or` at variables, from the digit recursion that they stand for.
use Prim.Native.Nat.{ℕ, zero, suc, ◌+◌, ◌*◌, ◌/◌, ◌%◌, ◌^◌, ◌≤◌, ◌<◌, max, bit_or, bit_xor, digits}
use Prim.Native.Nat.{bit_or-bitwise, bit_xor-bitwise, differ}
use mathlib.Core.Path.{◌≡◌, refl, sym, ap}
use native.Mathlib.Nat.{pow-suc, pow-succ', div-div-eq-div-mul, le_trans, pow-le-pow_right}
use native.Mathlib.Omega.{arith}

-- Both operations keep what is left of the second number when the first has run out.
module _ (f : ℕ → ℕ → ℕ) where
  abbrev run : ℕ → ℕ → ℕ → ℕ
  run n a b = digits (λ y. y) f n a b

  -- Fuel beyond the first number changes nothing.
  run-fuel : (n m a b : ℕ) → a ≤ n → a ≤ m → run n a b ≡ run m a b
  run-fuel zero zero a b p q = refl
  run-fuel zero (suc m) zero b p q = refl
  run-fuel (suc n) zero zero b p q = refl
  run-fuel (suc n) (suc m) zero b p q = refl
  run-fuel zero m (suc a) b p q = absurd (omega arith)
  run-fuel (suc n) zero (suc a) b p q = absurd (omega arith)
  run-fuel (suc n) (suc m) (suc a) b p q =
      ap (λ (t : ℕ). t * 2 + f (suc a % 2) (b % 2))
        (run-fuel n m (suc a / 2) (b / 2) (omega arith) (omega arith))

-- On binary digits: the sum without its carry.
differ_digits : (x y : ℕ) → x < 2 → y < 2 → differ x y ≡ (x + y) % 2
differ_digits zero y p q = omega arith
differ_digits (suc zero) zero p q = refl
differ_digits (suc zero) (suc y) p q = omega arith
differ_digits (suc (suc x)) y p q = absurd (omega arith)

pub bit_xor_step : (a b : ℕ) → bit_xor a b ≡ bit_xor (a / 2) (b / 2) * 2 + (a % 2 + b % 2) % 2
bit_xor_step zero b = omega (arith, bit_xor-bitwise zero b, bit_xor-bitwise zero (b / 2))
bit_xor_step (suc a) b = omega (
  arith,
  bit_xor-bitwise (suc a) b,
  bit_xor-bitwise (suc a / 2) (b / 2),
  run-fuel differ a (suc a / 2) (suc a / 2) (b / 2) (omega arith) (omega arith),
  differ_digits (suc a % 2) (b % 2) (omega arith) (omega arith),
)

pub bit_or_step : (a b : ℕ) → bit_or a b ≡ bit_or (a / 2) (b / 2) * 2 + max (a % 2) (b % 2)
bit_or_step zero b = omega (arith, bit_or-bitwise zero b, bit_or-bitwise zero (b / 2))
bit_or_step (suc a) b = omega (
  arith,
  bit_or-bitwise (suc a) b,
  bit_or-bitwise (suc a / 2) (b / 2),
  run-fuel max a (suc a / 2) (suc a / 2) (b / 2) (omega arith) (omega arith),
)

pub zero-bit_xor : (b : ℕ) → bit_xor 0 b ≡ b
zero-bit_xor b = bit_xor-bitwise zero b

pub zero-bit_or : (b : ℕ) → bit_or 0 b ≡ b
zero-bit_or b = bit_or-bitwise zero b

-- Words of n bits are closed under both operations.
pub bit_xor-lt : (n a b : ℕ) → a < 2 ^ n → b < 2 ^ n → bit_xor a b < 2 ^ n
bit_xor-lt zero zero zero p q = omega (arith, zero-bit_xor 0)
bit_xor-lt zero zero (suc b) p q = absurd (omega arith)
bit_xor-lt zero (suc a) b p q = absurd (omega arith)
bit_xor-lt (suc n) a b p q = omega (
  arith,
  pow-suc 2 n,
  bit_xor_step a b,
  bit_xor-lt n (a / 2) (b / 2) (omega (arith, pow-suc 2 n)) (omega (arith, pow-suc 2 n)),
)

pub bit_or-lt : (n a b : ℕ) → a < 2 ^ n → b < 2 ^ n → bit_or a b < 2 ^ n
bit_or-lt zero zero zero p q = omega (arith, zero-bit_or 0)
bit_or-lt zero zero (suc b) p q = absurd (omega arith)
bit_or-lt zero (suc a) b p q = absurd (omega arith)
bit_or-lt (suc n) a b p q = omega (
  arith,
  pow-suc 2 n,
  bit_or_step a b,
  bit_or-lt n (a / 2) (b / 2) (omega (arith, pow-suc 2 n)) (omega (arith, pow-suc 2 n)),
)

-- The same key twice gives the number back.
xor_undo_below : (n a b : ℕ) → a < 2 ^ n → b < 2 ^ n → bit_xor (bit_xor a b) b ≡ a
xor_undo_below zero zero zero p q = rw (zero-bit_xor 0) (zero-bit_xor 0)
xor_undo_below zero zero (suc b) p q = absurd (omega arith)
xor_undo_below zero (suc a) b p q = absurd (omega arith)
xor_undo_below (suc n) a b p q =
    let half : bit_xor a b / 2 ≡ bit_xor (a / 2) (b / 2) = omega (arith, bit_xor_step a b) in
    omega (
      arith,
      bit_xor_step a b,
      bit_xor_step (bit_xor a b) b,
      ap (λ (t : ℕ). bit_xor t (b / 2)) half,
      xor_undo_below n (a / 2) (b / 2) (omega (arith, pow-suc 2 n)) (omega (arith, pow-suc 2 n)),
    )

lt-two_pow : (n : ℕ) → n < 2 ^ n
lt-two_pow zero = omega arith
lt-two_pow (suc n) = omega (arith, pow-suc 2 n, lt-two_pow n)

pub bit_xor_undo : (a b : ℕ) → bit_xor (bit_xor a b) b ≡ a
bit_xor_undo a b =
    xor_undo_below (a + b) a b
      (le_trans (lt-two_pow a) (pow-le-pow_right (omega arith) (omega arith)))
      (le_trans (lt-two_pow b) (pow-le-pow_right (omega arith) (omega arith)))

div_one : (a : ℕ) → a / 2 ^ 0 ≡ a
div_one a = omega arith

halve_first : (n a : ℕ) → a / 2 ^ suc n ≡ a / 2 / 2 ^ n
halve_first n a = rw (pow-succ' 2 n) (sym (div-div-eq-div-mul a 2 (2 ^ n)))

-- High digits of the result come from high digits alone.
pub bit_xor-div_two_pow : (n a b : ℕ) → bit_xor a b / 2 ^ n ≡ bit_xor (a / 2 ^ n) (b / 2 ^ n)
bit_xor-div_two_pow zero a b = rw (div_one a, div_one b) (div_one (bit_xor a b))
bit_xor-div_two_pow (suc n) a b =
    let half : bit_xor a b / 2 ≡ bit_xor (a / 2) (b / 2) = omega (arith, bit_xor_step a b) in
    rw (halve_first n (bit_xor a b), half, halve_first n a, halve_first n b)
      (bit_xor-div_two_pow n (a / 2) (b / 2))

pub bit_or-div_two_pow : (n a b : ℕ) → bit_or a b / 2 ^ n ≡ bit_or (a / 2 ^ n) (b / 2 ^ n)
bit_or-div_two_pow zero a b = rw (div_one a, div_one b) (div_one (bit_or a b))
bit_or-div_two_pow (suc n) a b =
    let half : bit_or a b / 2 ≡ bit_or (a / 2) (b / 2) = omega (arith, bit_or_step a b) in
    rw (halve_first n (bit_or a b), half, halve_first n a, halve_first n b)
      (bit_or-div_two_pow n (a / 2) (b / 2))

bit_or_zero_below : (n a : ℕ) → a < 2 ^ n → bit_or a 0 ≡ a
bit_or_zero_below zero zero p = zero-bit_or 0
bit_or_zero_below zero (suc a) p = absurd (omega arith)
bit_or_zero_below (suc n) a p =
    omega (arith, bit_or_step a 0, bit_or_zero_below n (a / 2) (omega (arith, pow-suc 2 n)))

-- `(q << k) | r` is a sum when `r` has at most `k` digits.
pub bit_or_fields : (k q r : ℕ) → r < 2 ^ k → bit_or (q * 2 ^ k) r ≡ q * 2 ^ k + r
bit_or_fields zero q zero p = omega (arith, bit_or_zero_below (q * 1) (q * 1) (lt-two_pow (q * 1)))
bit_or_fields zero q (suc r) p = absurd (omega arith)
bit_or_fields (suc k) q r p =
    let double : q * 2 ^ suc k ≡ 2 * (q * 2 ^ k) =
      omega (arith, ap (λ (t : ℕ). q * t) (pow-suc 2 k)) in
    let half : q * 2 ^ suc k / 2 ≡ q * 2 ^ k = omega (arith, double) in
    omega (
      arith,
      double,
      ap (λ (t : ℕ). bit_or t (r / 2)) half,
      bit_or_step (q * 2 ^ suc k) r,
      bit_or_fields k q (r / 2) (omega (arith, pow-suc 2 k)),
    )
