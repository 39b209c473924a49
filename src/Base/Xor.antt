-- ===== src/Base/Xor.antt =====
-- Facts about `^` at variables: the law for the lowest digit, its range, and the upper field of a word.
use Prim.Native.Nat.{
  ℕ, zero, suc, ◌+◌, ◌*◌, ◌/◌, ◌%◌, ◌^◌, ◌≤◌, ◌<◌, bit_xor, differ, bit_xor-bitwise,
}
use mathlib.Core.Path.{◌≡◌, refl, sym, ap, ap₂, ◌∙◌}
use native.Mathlib.Omega.{arith}
use native.Mathlib.Nat.{pow-suc}
use wedb_embed.Base.Digits.{rounds_step, double_shift}

differ-zero : (x : ℕ) → differ x 0 ≡ x
differ-zero zero = refl
differ-zero (suc x) = refl

differ-lt : (x y : ℕ) → x < 2 → y < 2 → differ x y < 2
differ-lt zero y h k = k
differ-lt (suc x) zero h k = h
differ-lt (suc zero) (suc zero) h k = omega arith
differ-lt (suc zero) (suc (suc y)) h k = absurd (omega arith)
differ-lt (suc (suc x)) (suc y) h k = absurd (omega arith)

lowest_digit : (a b : ℕ) → bit_xor a b ≡ bit_xor (a / 2) (b / 2) * 2 + differ (a % 2) (b % 2)
lowest_digit zero b = omega (arith, bit_xor-bitwise 0 b, bit_xor-bitwise 0 (b / 2))
lowest_digit (suc a) b =
    bit_xor-bitwise (suc a) b
    ∙ rounds_step differ a b
    ∙ ap (λ t. t * 2 + differ (suc a % 2) (b % 2)) (sym (bit_xor-bitwise (suc a / 2) (b / 2)))

bit_xor-zero_below : (n a : ℕ) → a ≤ n → bit_xor a 0 ≡ a
bit_xor-zero_below n zero h = refl
bit_xor-zero_below zero (suc a) h = absurd (omega arith)
bit_xor-zero_below (suc n) (suc a) h = omega (
  arith,
  lowest_digit (suc a) 0,
  differ-zero (suc a % 2),
  bit_xor-zero_below n (suc a / 2) (omega arith),
)

pub bit_xor-zero : (a : ℕ) → bit_xor a 0 ≡ a
bit_xor-zero a = bit_xor-zero_below a a (omega arith)

-- The result of two numbers of `k` bits has `k` bits.
pub bit_xor-lt : (k a b : ℕ) → a < 2 ^ k → b < 2 ^ k → bit_xor a b < 2 ^ k
bit_xor-lt zero a b h l = ground (arith, bit_xor-zero a)
bit_xor-lt (suc k) a b h l = omega (
  arith,
  lowest_digit a b,
  differ-lt (a % 2) (b % 2) (omega arith) (omega arith),
  pow-suc 2 k,
  bit_xor-lt k (a / 2) (b / 2) (omega (arith, pow-suc 2 k)) (omega (arith, pow-suc 2 k)),
)

-- `^` with a number shifted by `k` works on the upper field and leaves the lower one alone.
pub xor_upper :
    (k q r b : ℕ) → r < 2 ^ k → bit_xor (q * 2 ^ k + r) (b * 2 ^ k) ≡ bit_xor q b * 2 ^ k + r
xor_upper zero q r b h = ground (arith, ap₂ bit_xor (mul_one q r h) (mul_one b 0 (omega arith)))
  where
    mul_one : (q r : ℕ) → r < 1 → q * 2 ^ zero + r ≡ q
    mul_one q r h = omega arith
xor_upper (suc k) q r b h = ground (
  arith,
  lowest_digit (q * 2 ^ suc k + r) (b * 2 ^ suc k),
  double_shift q k,
  double_shift b k,
  double_shift (bit_xor q b) k,
  pow-suc 2 k,
  differ-zero (r % 2),
  xor_upper k q (r / 2) b,
)
